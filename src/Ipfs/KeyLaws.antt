-- ===== src/Ipfs/KeyLaws.antt =====
-- Lemmas on the keys and the stored numbers of internal/storage/ipfs.go.
use didem.Base.{
  ℕ, ◌^◌, ◌<◌, [], ◌∷◌, ◌++◌, String, ok, ◌≡◌, ◌≢◌, refl, sym, ap, ◌∙◌, arith, All, nat_eqb,
  append-nil, if◌then◌else◌,
}
use didem.W3cdid.Url.{utf8, text_bytes}
use didem.Tx.{Bytes}
use didem.Ipfs.Keys.{
  KeyType, tx_block, block_state, did_table, did_history, active_claim, nodes_table, latest_block,
  genesis, prefix, table_sep, drop_last, typed_key, put_uint32, uint32,
}
use text.Mathlib.TextEquality.{codes_equal}
use Prim.Native.Nat.{compare}
use Prim.Native.Char.{code}

-- the table of a prefix
table_of : ℕ → KeyType
table_of n =
    if nat_eqb n 1
    then tx_block
    else if nat_eqb n 2
    then block_state
    else if nat_eqb n 3
    then did_table
    else if nat_eqb n 4
    then did_history
    else if nat_eqb n 5
    then active_claim
    else if nat_eqb n 6
    then nodes_table
    else if nat_eqb n 7
    then latest_block
    else genesis

table_of-prefix : (t : KeyType) → table_of (prefix t) ≡ t
unfolding table_of
table_of-prefix tx_block = refl
table_of-prefix block_state = refl
table_of-prefix did_table = refl
table_of-prefix did_history = refl
table_of-prefix active_claim = refl
table_of-prefix nodes_table = refl
table_of-prefix latest_block = refl
table_of-prefix genesis = refl

prefix-injective : (t u : KeyType) → prefix t ≡ prefix u → t ≡ u
prefix-injective t u h = sym (table_of-prefix t) ∙ ap table_of h ∙ table_of-prefix u

compare_same : (a b : ℕ) → a ≡ b → compare a b ≡ Prim.Native.Nat.Ordering.eq
compare_same a b h = ground arith

-- A byte sequence begins with one code point at most.
utf8-append : (m n : ℕ) (xs ys : Bytes) → utf8 m ++ xs ≡ utf8 n ++ ys → (m ≡ n) × (xs ≡ ys)
utf8-append m n xs ys h = (ground arith, ground arith)

text_bytes-injective : (s t : String) → text_bytes s ≡ text_bytes t → s ≡ t
text_bytes-injective String.[] String.[] h = refl
text_bytes-injective String.[] (String.◌∷◌ c t) h = ground arith
text_bytes-injective (String.◌∷◌ c s) String.[] h = ground arith
text_bytes-injective (String.◌∷◌ c s) (String.◌∷◌ d t) h =
    let (head, tail) = utf8-append (code c) (code d) (text_bytes s) (text_bytes t) h in
    let same : c ≡ d = codes_equal c d (compare_same (code c) (code d) head) in
    let rest : s ≡ t = text_bytes-injective s t tail in cc

drop_last-append :
    (xs : Bytes) (y : ℕ) (ys : Bytes) → drop_last (xs ++ (y ∷ ys)) ≡ xs ++ drop_last (y ∷ ys)
drop_last-append [] y ys = refl
drop_last-append (x ∷ []) y ys = refl
drop_last-append (x ∷ z ∷ xs) y ys = ap (λ l. x ∷ l) (drop_last-append (z ∷ xs) y ys)

-- a key of two parts: the prefix, the first part, a separator, the second part
two_parts :
    (t : KeyType) (p q : String)
    → typed_key t (p ∷ q ∷ []) ≡ prefix t ∷ (text_bytes p ++ (table_sep ∷ text_bytes q))
unfolding typed_key
two_parts t p q =
    drop_last-append (prefix t ∷ text_bytes p) table_sep (text_bytes q ++ (table_sep ∷ []))
    ∙ ap (λ l. prefix t ∷ (text_bytes p ++ l))
        (drop_last-append (table_sep ∷ text_bytes q) table_sep []
          ∙ ap (λ l. table_sep ∷ l) (append-nil (text_bytes q)))

-- no separator among the bytes
abbrev pub IsPlain : Bytes → Type 0
IsPlain = All (λ b. b ≢ table_sep)

IsPlain-append : (xs ys : Bytes) → IsPlain (xs ++ (table_sep ∷ ys)) → ⊥
IsPlain-append [] ys h = h.0 refl
IsPlain-append (x ∷ xs) ys h = IsPlain-append xs ys h.1

-- the last separator tells the two parts apart
split_at_last :
    (xs xs' ys ys' : Bytes)
    → IsPlain ys
    → IsPlain ys'
    → xs ++ (table_sep ∷ ys) ≡ xs' ++ (table_sep ∷ ys')
    → (xs ≡ xs') × (ys ≡ ys')
split_at_last [] [] ys ys' p q h = (refl, cc)
split_at_last [] (x ∷ xs') ys ys' p q h =
    let same : ys ≡ xs' ++ (table_sep ∷ ys') = cc in absurd (IsPlain-append xs' ys' (rw same at p))
split_at_last (x ∷ xs) [] ys ys' p q h =
    let same : ys' ≡ xs ++ (table_sep ∷ ys) = cc in absurd (IsPlain-append xs ys (rw same at q))
split_at_last (x ∷ xs) (x' ∷ xs') ys ys' p q h =
    let (a, b) = split_at_last xs xs' ys ys' p q cc in let head : x ≡ x' = cc in (cc, b)

-- Two keys of two parts whose second parts have no separator, as a CID has none, are equal only for
-- the same table and the same parts, whatever separators are in the first ones.
pub typed_key-injective :
    (t u : KeyType) (p p' q q' : String)
    → IsPlain (text_bytes q)
    → IsPlain (text_bytes q')
    → typed_key t (p ∷ q ∷ []) ≡ typed_key u (p' ∷ q' ∷ [])
    → (t ≡ u) × (p ≡ p') × (q ≡ q')
typed_key-injective t u p p' q q' plain plain' h =
    let same = sym (two_parts t p q) ∙ h ∙ two_parts u p' q' in
    let (a, b) =
      split_at_last (text_bytes p) (text_bytes p') (text_bytes q) (text_bytes q') plain plain' cc in
    (prefix-injective t u cc, text_bytes-injective p p' a, text_bytes-injective q q' b)

-- a number of 32 bits that is written as four bytes is read back.
pub uint32-put_uint32 : (n : ℕ) → n < 2 ^ 32 → uint32 (put_uint32 n) ≡ ok n
unfolding uint32 put_uint32
uint32-put_uint32 n h = ap ok (omega arith)

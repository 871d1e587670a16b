-- ===== src/Storage/Tree/Members.antt =====
-- Members of lists of CIDs, and the keys of a map among them.
use didem.Base.{
  suc, ◌≤◌, none, List, [], ◌∷◌, ◌++◌, length, lookup, Distinct, All, nat_eq, ◌==◌, if◌then◌else◌,
  ◌≡◌, ◌≢◌, ◌⊎◌, ◌↔◌, inl, inr, refl, sym, arith, Bool-cases, ne_of_beq, eq_of_beq, ◌∙◌, subst,
}
use didem.Tx.{Cid, Tx}

abbrev pub In : Cid → List Cid → Type 0
In c [] = ⊥
In c (v ∷ vs) = (v ≡ c) ⊎ In c vs

pub In-append_left : (c : Cid) (xs ys : List Cid) → In c xs → In c (xs ++ ys)
In-append_left c [] ys h = absurd h
In-append_left c (x ∷ xs) ys (inl p) = inl p
In-append_left c (x ∷ xs) ys (inr h) = inr (In-append_left c xs ys h)

pub In-append_right : (c : Cid) (xs ys : List Cid) → In c ys → In c (xs ++ ys)
In-append_right c [] ys h = h
In-append_right c (x ∷ xs) ys h = inr (In-append_right c xs ys h)

pub In-append : (c : Cid) (xs ys : List Cid) → In c (xs ++ ys) → In c xs ⊎ In c ys
In-append c [] ys h = inr h
In-append c (x ∷ xs) ys (inl p) = inl (inl p)
In-append c (x ∷ xs) ys (inr h) = elim (In-append c xs ys h) [ inl l ↦ inl (inr l) | inr r ↦ inr r ]

pub All-of : (P : Cid → Type 0) (xs : List Cid) → ((x : Cid) → In x xs → P x) → All P xs
All-of P [] h = tt
All-of P (x ∷ xs) h = (h x (inl refl), All-of P xs (λ y later. h y (inr later)))

pub of-All : (P : Cid → Type 0) (xs : List Cid) → All P xs → (x : Cid) → In x xs → P x
of-All P [] h x member = absurd member
of-All P (y ∷ xs) h x (inl p) = subst P p h.0
of-All P (y ∷ xs) h x (inr later) = of-All P xs h.1 x later

pub All-In : (xs : List Cid) → All (λ x. In x xs) xs
All-In xs = All-of (λ x. In x xs) xs (λ x h. h)

abbrev pub SameMembers : List Cid → List Cid → Type 0
SameMembers xs ys = (c : Cid) → In c xs ↔ In c ys

pub SameMembers-append :
    (xs ys us vs : List Cid)
    → SameMembers xs us
    → SameMembers ys vs
    → SameMembers (xs ++ ys) (us ++ vs)
SameMembers-append xs ys us vs h k c = (
  (λ i. elim (In-append c xs ys i) [
    | inl l ↦ In-append_left c us vs ((h c).0 l)
    | inr r ↦ In-append_right c us vs ((k c).0 r)
  ]),
  (λ i. elim (In-append c us vs i) [
    | inl l ↦ In-append_left c xs ys ((h c).1 l)
    | inr r ↦ In-append_right c xs ys ((k c).1 r)
  ]),
)

pub SameMembers-twice : (xs : List Cid) → SameMembers (xs ++ xs) xs
SameMembers-twice xs c =
    ((λ i. elim (In-append c xs xs i) [ inl l ↦ l | inr r ↦ r ]), (λ i. In-append_left c xs xs i))

remove : Cid → List Cid → List Cid
remove k [] = []
remove k (x ∷ xs) = let rest = remove k xs in if x == k then xs else x ∷ rest

length-remove : (k : Cid) (xs : List Cid) → In k xs → length xs ≡ suc (length (remove k xs))
unfolding remove
length-remove k [] h = absurd h
length-remove k (x ∷ xs) h = elim (Bool-cases (x == k)) [
  | inl same ↦ rw same refl
  | inr other ↦ elim h [
    | inl p ↦ absurd (ne_of_beq x k other p)
    | inr later ↦ rw other (omega (arith, length-remove k xs later))
  ]
]

In-remove : (k c : Cid) (xs : List Cid) → c ≢ k → In c xs → In c (remove k xs)
unfolding remove
In-remove k c [] away h = absurd h
In-remove k c (x ∷ xs) away h = elim (Bool-cases (x == k)) [
  | inl same ↦ elim h [
    | inl p ↦ absurd (away (sym p ∙ eq_of_beq x k same))
    | inr later ↦ rw same later
  ]
  | inr other ↦ elim h [
    | inl p ↦ rw other (inl p)
    | inr later ↦ rw other (inr (In-remove k c xs away later))
  ]
]

-- the entries of a map without a key are of other members
others_remain :
    (k : Cid) (xs : List Cid) (m : List (Cid × Tx))
    → lookup k m ≡ none
    → All (λ e. In e.0 xs) m
    → All (λ e. In e.0 (remove k xs)) m
others_remain k xs [] free h = tt
others_remain k xs ((j, v) ∷ m) free h = elim (Bool-cases (j == k)) [
  | inl same ↦ absurd (ground arith)
  | inr other ↦
      (In-remove k j xs (ne_of_beq j k other) h.0, others_remain k xs m (rw other at free) h.1)
]

-- A map whose keys are members of a list has no more entries than the list is long.
pub length-Distinct :
    (m : List (Cid × Tx)) (xs : List Cid)
    → Distinct m
    → All (λ e. In e.0 xs) m
    → length m ≤ length xs
length-Distinct [] xs d h = omega arith
length-Distinct ((k, v) ∷ m) xs d h = omega (
  arith,
  length-remove k xs h.0,
  length-Distinct m (remove k xs) d.1 (others_remain k xs m d.0 h.1),
)

-- ===== src/Pool/Laws.antt =====
-- What `AddTx` and `GetTx` of pkg/did/consensus/mempool.go do to the pool.
use didem.Base.{
  ℕ, zero, suc, ◌+◌, ◌-◌, ◌≤◌, ◌<◌, Bool, true, Option, some, List, [], ◌∷◌, ◌++◌, length, ltb,
  if◌then◌else◌, get_elem?, take, length-append, Result, ok, ◌≡◌, refl, sym, arith, ◌∙◌, All, ap,
  subst,
}
use didem.Tx.{Int64, Tx}
use didem.Pool.{push, pop, up, down, heap_push, heap_pop, add_tx, get_tx}
use didem.Pool.Order.{
  IsBefore, IsBefore-trans, ts_of, ts_at, count, IsSwapped, swap-IsSwapped, in_range, at-eq,
}
use didem.Pool.Up.{parent, IsHeap, IsHeapBut, Returns, up-IsHeap}
use didem.Pool.Down.{IsHeapTo, IsHeapAbove, IsSifted, down-IsSifted}

get_elem?-push :
    (l : List Tx) (t : Tx) (k : ℕ) → k < length l → get_elem? (l ++ (t ∷ [])) k ≡ get_elem? l k
get_elem?-push [] t k h = absurd (omega arith)
get_elem?-push (a ∷ l) t zero h = refl
get_elem?-push (a ∷ l) t (suc k) h = get_elem?-push l t k (omega arith)

count-push :
    (p : Tx → Bool) (l : List Tx) (t : Tx)
    → count p (l ++ (t ∷ [])) ≡ count p l + (if p t then 1 else 0)
count-push p [] t = omega arith
count-push p (a ∷ l) t = omega (arith, count-push p l t)

push-IsHeapBut : (l : List Tx) (t : Tx) → IsHeap l → IsHeapBut (l ++ (t ∷ [])) (length l)
push-IsHeapBut l t h = record {
  others = λ k pos_k k_in other.
      let k_in' : k < length l = omega (arith, length-append {0} l (t ∷ [])) in
      rw (get_elem?-push l t k k_in', get_elem?-push l t (parent k) (omega arith))
        (h k pos_k k_in');
  below = λ k pos_k k_in pk pos_j. absurd (omega (arith, length-append {0} l (t ∷ [])));
}

heap_push-IsHeap : (t : Tx) (l : List Tx) → IsHeap l → Returns IsHeap (heap_push t l) (push t l)
unfolding heap_push push
heap_push-IsHeap t l h =
    let l1 = l ++ (t ∷ []) in
    let longer : length l1 ≡ length l + 1 = length-append {0} l (t ∷ []) in
    let last : length l1 - 1 ≡ length l = omega arith in
    subst (λ j. Returns IsHeap (up (length l1) l1 j) l1) (sym last)
      (up-IsHeap (length l1) l1 (length l) (omega arith) (omega arith) (push-IsHeapBut l t h))

-- Adding a transaction to a heap succeeds, whatever its expiry is, and gives a heap with that
-- transaction and the ones from before.
pub add_tx-IsHeap :
    (t : Tx) (expires : Int64) (l : List Tx)
    → IsHeap l
    → (l' : List Tx) × (add_tx t expires l ≡ (ok tt, l'))
      × IsHeap l'
      × ((p : Tx → Bool) → count p l' ≡ count p l + (if p t then 1 else 0))
unfolding add_tx push
add_tx-IsHeap t expires l h =
    let done : Returns IsHeap (heap_push t l) (push t l) = heap_push-IsHeap t l h in
    let returned = done.returned in
    (
      done.list,
      rw (add_tx, returned) refl,
      done.holds,
      λ p. sym (done.same_contents p) ∙ count-push p l t,
    )

-- no transaction of a heap is before its root
root_first :
    (l : List Tx) (fuel k : ℕ)
    → IsHeap l
    → k < fuel
    → k < length l
    → IsBefore (ts_at l 0) (ts_at l k)
root_first l zero k h f k_in = absurd (omega arith)
root_first l (suc fuel) zero h f k_in = omega arith
root_first l (suc fuel) (suc k) h f k_in =
    IsBefore-trans (ts_at l 0) (ts_at l (parent (suc k))) (ts_at l (suc k))
      (root_first l fuel (parent (suc k)) h (omega arith) (omega arith))
      (h (suc k) (omega arith) k_in)

All-at :
    (P : Int64 → Type 0) (l : List Tx)
    → ((k : ℕ) → k < length l → P (ts_at l k))
    → All (λ u. P u.ts) l
All-at P [] h = tt
All-at P (a ∷ l) h = (h 0 (omega arith), All-at P l (λ k k_in. h (suc k) (omega arith)))

length-take : (l : List Tx) (n : ℕ) → n ≤ length l → length (take n l) ≡ n
length-take l zero h = refl
length-take [] (suc n) h = absurd (omega arith)
length-take (a ∷ l) (suc n) h = omega (arith, length-take l n (omega arith))

get_elem?-take : (l : List Tx) (n k : ℕ) → k < n → get_elem? (take n l) k ≡ get_elem? l k
get_elem?-take l zero k h = absurd (omega arith)
get_elem?-take [] (suc n) k h = refl
get_elem?-take (a ∷ l) (suc n) zero h = refl
get_elem?-take (a ∷ l) (suc n) (suc k) h = get_elem?-take l n k (omega arith)

count-take :
    (p : Tx → Bool) (l : List Tx) (n : ℕ) (t : Tx)
    → length l ≡ n + 1
    → get_elem? l n ≡ some t
    → count p l ≡ (if p t then 1 else 0) + count p (take n l)
count-take p [] n t h found = cc
count-take p (a ∷ []) zero t h found = ground arith
count-take p (a ∷ b ∷ l) zero t h found = absurd (omega arith)
count-take p (a ∷ l) (suc n) t h found = omega (arith, count-take p l n t (omega arith) found)

take-IsHeap : (l : List Tx) (n : ℕ) → n ≤ length l → IsHeapTo n l → IsHeap (take n l)
take-IsHeap l n fits h k pos_k k_in =
    let k_in' : k < n = omega (arith, length-take l n fits) in
    rw (get_elem?-take l n k k_in', get_elem?-take l n (parent k) (omega arith)) (h k pos_k k_in')

swapped-IsHeapAbove :
    (l l1 : List Tx) (n : ℕ) → length l ≡ n + 1 → IsHeap l → IsSwapped l l1 0 n → IsHeapAbove n l1 0
swapped-IsHeapAbove l l1 n len h s = record {
  others = λ k pos_k k_in away.
      rw
        (
          s.elsewhere (parent k) away (λ p. omega arith),
          s.elsewhere k (λ p. omega arith) (λ p. omega arith),
        )
        (h k pos_k (omega arith));
  below = λ k pos_k k_in pk pos_i. absurd (omega arith);
}

-- What taking a transaction out of a pool gives.
pub record IsTaken (l : List Tx) (r : Result (Option Tx) × List Tx) : Type 0 where
  pub tx : Tx
  pub rest : List Tx
  pub taken : r ≡ (ok (some tx), rest)
  pub first : All (λ u. IsBefore tx.ts u.ts) l
  pub ordered : IsHeap rest
  pub others : (p : Tx → Bool) → count p l ≡ (if p tx then 1 else 0) + count p rest

-- Taking a transaction out of a heap that is not empty gives one that no transaction of it is before
-- by its time, and leaves a heap of all the others.
pub get_tx-IsTaken : (l : List Tx) → IsHeap l → 0 < length l → IsTaken l (get_tx l)
unfolding get_tx heap_pop pop
get_tx-IsTaken l h full =
    let n = length l - 1 in
    let len : length l ≡ n + 1 = omega arith in
    let (t, root) = in_range l 0 full in
    let (l1, swapped, s) = swap-IsSwapped l 0 n full (omega arith) in
    let sift : Returns (IsSifted n l1) (down (suc n) l1 0 n) l1 =
      down-IsSifted (suc n) n l1 0 (omega arith) (omega arith) (omega (arith, s.same_length))
        (swapped-IsHeapAbove l l1 n len h s) in
    let l2 = sift.list in
    let len2 : length l2 ≡ n + 1 = sift.same_length ∙ s.same_length ∙ len in
    let last : get_elem? l2 n ≡ some t = sift.holds.1 n (omega arith) ∙ s.moved ∙ root in
    let some_left : ltb 0 (length l) ≡ true = ground arith in
    let drop : length l2 - 1 ≡ n = omega arith in
    record {
      tx = t;
      rest = take n l2;
      taken = rw (some_left, swapped, sift.returned, drop, at-eq l2 n last) refl;
      first =
          All-at (λ x. IsBefore t.ts x) l
            (λ k k_in.
              subst (λ x. IsBefore x (ts_at l k)) (ap ts_of root)
                (root_first l (suc k) k h (omega arith) k_in));
      ordered = take-IsHeap l2 n (omega arith) sift.holds.0;
      others = λ p. s.same_contents p ∙ sift.same_contents p ∙ count-take p l2 n t len2 last;
    }

-- ===== src/Pool/Up.antt =====
-- The way up a heap (`up` of container/heap, under `AddTx` of pkg/did/consensus/mempool.go).
use didem.Base.{
  ℕ, zero, suc, ◌-◌, ◌/◌, ◌<◌, true, false, List, length, nat_eqb, Result, ok, ◌≡◌, ◌≢◌, refl,
  arith, Bool-cases, inl, inr, ℕ-cases, nat_eq, ◌∙◌,
}
use didem.Tx.{Tx}
use didem.Pool.{int_less, up}
use didem.Pool.Order.{
  IsBefore, IsBefore-trans, int_less-true, int_less-false, ts_at, less-eq, SameContents, IsSwapped,
  swap-IsSwapped,
}

abbrev pub parent : ℕ → ℕ
parent k = (k - 1) / 2

-- no transaction is before the one above it
abbrev pub IsHeap : List Tx → Type 0
IsHeap l = (k : ℕ) → 0 < k → k < length l → IsBefore (ts_at l (parent k)) (ts_at l k)

-- A heap but for the transaction at `j`, which may be before the one above it; those below `j` are
-- not before that one.
pub record IsHeapBut (l : List Tx) (j : ℕ) : Type 0 where
  pub others : (k : ℕ) → 0 < k → k < length l → k ≢ j → IsBefore (ts_at l (parent k)) (ts_at l k)
  pub below :
      (k : ℕ)
      → 0 < k
      → k < length l
      → parent k ≡ j
      → 0 < j
      → IsBefore (ts_at l (parent j)) (ts_at l k)

nat_eqb_same : (a b : ℕ) → a ≡ b → nat_eqb a b ≡ true
nat_eqb_same a b h = ground arith

nat_eqb_diff : (a b : ℕ) → a ≢ b → nat_eqb a b ≡ false
nat_eqb_diff a b h = ground arith

-- exchanging `j` with the place above moves the exception up
up_step :
    (l l' : List Tx) (j : ℕ)
    → 0 < j
    → j < length l
    → IsHeapBut l j
    → IsBefore (ts_at l j) (ts_at l (parent j))
    → IsSwapped l l' (parent j) j
    → IsHeapBut l' (parent j)
up_step l l' j pos_j in_l h less_than s = record {
  others = λ k pos_k k_in ki.
      let k_in' : k < length l = rw (← s.same_length) k_in in
      elim (ℕ-cases k j) [
        | inl same ↦ rw (same, s.at_left, s.at_right) less_than
        | inr kj ↦ elim (ℕ-cases (parent k) j) [
          | inl under ↦
              rw (under, s.at_right, s.elsewhere k ki kj) (h.below k pos_k k_in' under pos_j)
          | inr pj ↦ elim (ℕ-cases (parent k) (parent j)) [
            | inl twin ↦
                let above : IsBefore (ts_at l (parent j)) (ts_at l k) =
                  rw (← twin) (h.others k pos_k k_in' kj) in
                rw (twin, s.at_left, s.elsewhere k ki kj)
                  (IsBefore-trans (ts_at l j) (ts_at l (parent j)) (ts_at l k) less_than above)
            | inr pi ↦
                rw (s.elsewhere (parent k) pi pj, s.elsewhere k ki kj) (h.others k pos_k k_in' kj)
          ]
        ]
      ];
  below = λ k pos_k k_in pk pos_i.
      let k_in' : k < length l = rw (← s.same_length) k_in in
      let i_in : parent j < length l = omega arith in
      let ij : parent j ≢ j = λ p. omega arith in
      let top : IsBefore (ts_at l (parent (parent j))) (ts_at l (parent j)) =
        h.others (parent j) pos_i i_in ij in
      let apart : ts_at l' (parent (parent j)) ≡ ts_at l (parent (parent j)) =
        s.elsewhere (parent (parent j)) (λ p. omega arith) (λ p. omega arith) in
      elim (ℕ-cases k j) [
        | inl same ↦ rw (same, apart, s.at_right) top
        | inr kj ↦
            let above : IsBefore (ts_at l (parent j)) (ts_at l k) =
              rw (← pk) (h.others k pos_k k_in' kj) in
            rw (apart, s.elsewhere k (λ p. omega arith) kj)
              (IsBefore-trans (ts_at l (parent (parent j))) (ts_at l (parent j)) (ts_at l k) top
                above)
      ];
}

-- What a loop on the heap returns.
pub record Returns (P : List Tx → Type 0) (r : Result (List Tx)) (l : List Tx) : Type 0 where
  pub list : List Tx
  pub returned : r ≡ ok list
  pub same_length : length list ≡ length l
  pub same_contents : SameContents l list
  pub holds : P list

-- With more fuel than the place is deep the way up returns a heap of the same transactions.
pub up-IsHeap :
    (fuel : ℕ) (l : List Tx) (j : ℕ)
    → j < fuel
    → j < length l
    → IsHeapBut l j
    → Returns IsHeap (up fuel l j) l
unfolding up
up-IsHeap zero l j f in_l h = absurd (omega arith)
up-IsHeap (suc fuel) l j f in_l h = elim (ℕ-cases (parent j) j) [
  | inl top ↦ record {
    list = l;
    returned = rw (nat_eqb_same (parent j) j top) refl;
    same_length = refl;
    same_contents = λ p. refl;
    holds = λ k pos_k k_in. h.others k pos_k k_in (λ p. omega arith);
  }
  | inr deep ↦
      let i_in : parent j < length l = omega arith in
      elim (Bool-cases (int_less (ts_at l j) (ts_at l (parent j)))) [
        | inl before ↦
            let (l1, swapped, s) = swap-IsSwapped l (parent j) j i_in in_l in
            let next : Returns IsHeap (up fuel l1 (parent j)) l1 =
              up-IsHeap fuel l1 (parent j) (omega arith) (rw s.same_length i_in) (
                up_step l l1 j (omega arith) in_l h
                  (int_less-true (ts_at l j) (ts_at l (parent j)) before) s) in
            record {
              list = next.list;
              returned =
                  rw
                    (
                      nat_eqb_diff (parent j) j deep,
                      less-eq l j (parent j) in_l i_in,
                      before,
                      swapped,
                    )
                    next.returned;
              same_length = next.same_length ∙ s.same_length;
              same_contents = λ p. s.same_contents p ∙ next.same_contents p;
              holds = next.holds;
            }
        | inr not_before ↦ record {
          list = l;
          returned =
              rw (nat_eqb_diff (parent j) j deep, less-eq l j (parent j) in_l i_in, not_before)
                refl;
          same_length = refl;
          same_contents = λ p. refl;
          holds = λ k pos_k k_in. elim (ℕ-cases k j) [
            | inl same ↦ rw same (int_less-false (ts_at l j) (ts_at l (parent j)) not_before)
            | inr kj ↦ h.others k pos_k k_in kj
          ];
        }
      ]
]

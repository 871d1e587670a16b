-- ===== src/Pool/Down.antt =====
-- The way down a heap (`down` of container/heap, under `GetTx` of pkg/did/consensus/mempool.go).
use didem.Base.{
  ℕ, zero, suc, ◌+◌, ◌*◌, ◌≤◌, ◌<◌, List, length, leb, ltb, get_elem?, ok, ◌≡◌, ◌≢◌, refl, sym,
  arith, ◌∙◌, Bool-cases, inl, inr, ℕ-cases,
}
use didem.Tx.{Tx}
use didem.Pool.{int_less, child, down}
use didem.Pool.Order.{
  IsBefore, IsBefore-trans, int_less-true, int_less-false, ts_at, less-eq, IsSwapped,
  swap-IsSwapped,
}
use didem.Pool.Up.{parent, Returns}

-- the first `n` transactions are a heap
abbrev pub IsHeapTo : ℕ → List Tx → Type 0
IsHeapTo n l = (k : ℕ) → 0 < k → k < n → IsBefore (ts_at l (parent k)) (ts_at l k)

-- A heap but for the transaction at `i`, which may be behind those below it; they are not before the
-- one above `i`.
pub record IsHeapAbove (n : ℕ) (l : List Tx) (i : ℕ) : Type 0 where
  pub others : (k : ℕ) → 0 < k → k < n → parent k ≢ i → IsBefore (ts_at l (parent k)) (ts_at l k)
  pub below :
      (k : ℕ) → 0 < k → k < n → parent k ≡ i → 0 < i → IsBefore (ts_at l (parent i)) (ts_at l k)

-- a child of `i` that no other child is before
record IsFirstChild (n : ℕ) (l : List Tx) (i j : ℕ) : Type 0 where
  in_heap : j < n
  positive : 0 < j
  under : parent j ≡ i
  first : (k : ℕ) → 0 < k → k < n → parent k ≡ i → IsBefore (ts_at l j) (ts_at l k)

child-IsFirstChild :
    (n : ℕ) (l : List Tx) (i : ℕ)
    → 2 * i + 1 < n
    → n ≤ length l
    → (j : ℕ) × (child l (2 * i + 1) n ≡ ok j) × IsFirstChild n l i j
child-IsFirstChild n l i h fits =
    let j1 = 2 * i + 1 in
    elim (Bool-cases (ltb (j1 + 1) n)) [
      | inl two ↦
          let in2 : j1 + 1 < n = ground arith in
          elim (Bool-cases (int_less (ts_at l (j1 + 1)) (ts_at l j1))) [
            | inl second ↦ (
              j1 + 1,
              rw (two, less-eq l (j1 + 1) j1 (omega arith) (omega arith), second) refl,
              record {
                in_heap = in2;
                positive = omega arith;
                under = omega arith;
                first = λ k pos_k k_in pk. elim (ℕ-cases k j1) [
                  | inl same ↦ rw same (int_less-true (ts_at l (j1 + 1)) (ts_at l j1) second)
                  | inr other ↦ let same : k ≡ j1 + 1 = omega arith in rw same (omega arith)
                ];
              },
            )
            | inr first_one ↦ (
              j1,
              rw (two, less-eq l (j1 + 1) j1 (omega arith) (omega arith), first_one) refl,
              record {
                in_heap = h;
                positive = omega arith;
                under = omega arith;
                first = λ k pos_k k_in pk. elim (ℕ-cases k j1) [
                  | inl same ↦ rw same (omega arith)
                  | inr other ↦
                      let same : k ≡ j1 + 1 = omega arith in
                      rw same (int_less-false (ts_at l (j1 + 1)) (ts_at l j1) first_one)
                ];
              },
            )
          ]
      | inr one ↦ (
        j1,
        rw one refl,
        record {
          in_heap = h;
          positive = omega arith;
          under = omega arith;
          first = λ k pos_k k_in pk.
              let end : n ≤ j1 + 1 = ground arith in
              let same : k ≡ j1 = omega arith in rw same (omega arith);
        },
      )
    ]

-- exchanging `i` with its first child moves the exception down
down_step :
    (n : ℕ) (l l' : List Tx) (i j : ℕ)
    → IsHeapAbove n l i
    → IsFirstChild n l i j
    → IsBefore (ts_at l j) (ts_at l i)
    → IsSwapped l l' i j
    → IsHeapAbove n l' j
down_step n l l' i j h c less_than s =
    let ji : j ≢ i = λ p. omega (arith, c.under, c.positive) in
    record {
      others = λ k pos_k k_in pk. elim (ℕ-cases k i) [
        | inl same ↦
            let pos_i : 0 < i = rw (← same) pos_k in
            let apart : ts_at l' (parent i) ≡ ts_at l (parent i) =
              s.elsewhere (parent i) (λ p. omega arith) (λ p. omega (arith, c.under, c.positive)) in
            rw (same, apart, s.at_left) (h.below j c.positive c.in_heap c.under pos_i)
        | inr ki ↦ elim (ℕ-cases k j) [
          | inl same ↦ rw (same, c.under, s.at_left, s.at_right) less_than
          | inr kj ↦ elim (ℕ-cases (parent k) i) [
            | inl twin ↦ rw (twin, s.at_left, s.elsewhere k ki kj) (c.first k pos_k k_in twin)
            | inr pi ↦
                rw (s.elsewhere (parent k) pi pk, s.elsewhere k ki kj) (h.others k pos_k k_in pi)
          ]
        ]
      ];
      below = λ k pos_k k_in pk pos_j.
          let away : parent k ≢ i = λ p. ji (sym pk ∙ p) in
          let ki : k ≢ i = λ p. omega (arith, c.under, c.positive) in
          let kj : k ≢ j = λ p. omega (arith, c.under, c.positive) in
          let above : IsBefore (ts_at l j) (ts_at l k) = rw (← pk) (h.others k pos_k k_in away) in
          rw (c.under, s.at_left, s.elsewhere k ki kj) above;
    }

-- The heap of the first `n`, and what stands behind them.
abbrev pub IsSifted : ℕ → List Tx → List Tx → Type 0
IsSifted n l l' = IsHeapTo n l' × ((k : ℕ) → n ≤ k → get_elem? l' k ≡ get_elem? l k)

-- With fuel for the places between `i` and `n` the way down returns a heap of the same transactions.
pub down-IsSifted :
    (fuel n : ℕ) (l : List Tx) (i : ℕ)
    → n < fuel + i
    → i ≤ n
    → n ≤ length l
    → IsHeapAbove n l i
    → Returns (IsSifted n l) (down fuel l i n) l
unfolding down
down-IsSifted zero n l i f i_in fits h = absurd (omega arith)
down-IsSifted (suc fuel) n l i f i_in fits h = elim (Bool-cases (leb n (2 * i + 1))) [
  | inl leaf ↦
      let last : n ≤ 2 * i + 1 = ground arith in
      record {
        list = l;
        returned = rw leaf refl;
        same_length = refl;
        same_contents = λ p. refl;
        holds = ((λ k pos_k k_in. h.others k pos_k k_in (λ p. omega arith)), (λ k out. refl));
      }
  | inr inner ↦
      let room : 2 * i + 1 < n = ground arith in
      let (j, chosen, c) = child-IsFirstChild n l i room fits in
      let j_in : j < length l = omega (arith, c.in_heap) in
      let i_in' : i < length l = omega arith in
      elim (Bool-cases (int_less (ts_at l j) (ts_at l i))) [
        | inl before ↦
            let (l1, swapped, s) = swap-IsSwapped l i j i_in' j_in in
            let next : Returns (IsSifted n l1) (down fuel l1 j n) l1 =
              down-IsSifted fuel n l1 j (omega (arith, c.under, c.positive))
                (omega (arith, c.in_heap)) (omega (arith, s.same_length))
                (down_step n l l1 i j h c (int_less-true (ts_at l j) (ts_at l i) before) s) in
            record {
              list = next.list;
              returned =
                  rw (inner, chosen, less-eq l j i j_in i_in', before, swapped) next.returned;
              same_length = next.same_length ∙ s.same_length;
              same_contents = λ p. s.same_contents p ∙ next.same_contents p;
              holds = (
                next.holds.0,
                (λ k out.
                    next.holds.1 k out
                    ∙ s.kept k (λ p. omega arith) (λ p. omega (arith, c.in_heap))),
              );
            }
        | inr not_before ↦ record {
          list = l;
          returned = rw (inner, chosen, less-eq l j i j_in i_in', not_before) refl;
          same_length = refl;
          same_contents = λ p. refl;
          holds = (
            (λ k pos_k k_in. elim (ℕ-cases (parent k) i) [
              | inl under ↦ rw under (
                  IsBefore-trans (ts_at l i) (ts_at l j) (ts_at l k)
                    (int_less-false (ts_at l j) (ts_at l i) not_before)
                    (c.first k pos_k k_in under))
              | inr away ↦ h.others k pos_k k_in away
            ]),
            (λ k out. refl),
          );
        }
      ]
]

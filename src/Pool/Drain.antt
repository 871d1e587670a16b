-- ===== src/Pool/Drain.antt =====
-- Emptying the pool of pkg/did/consensus/mempool.go by calls of `GetTx`.
use didem.Base.{
  ℕ, zero, suc, Bool, true, Option, some, List, [], ◌∷◌, length, Result, ok, ◌≡◌, refl, arith, All,
}
use didem.Tx.{Int64, Tx}
use didem.Pool.{int_less, get_tx}
use didem.Pool.Order.{IsBefore, count, not_less}
use didem.Pool.Up.{IsHeap}
use didem.Pool.Laws.{IsTaken, get_tx-IsTaken}

abbrev drained : Result (Option Tx) → List Tx → List Tx
drained (ok (some t)) l = t ∷ l
drained _ l = []

-- what `n` calls give, up to the first one that gives no transaction
unfoldable pub drain : ℕ → List Tx → List Tx
unfolding get_tx
drain zero l = []
drain (suc n) l = drained (get_tx l).0 (drain n (get_tx l).1)

-- no transaction is before one in front of it
abbrev pub IsSorted : List Tx → Type 0
IsSorted [] = Unit
IsSorted (t ∷ l) = (count (λ u. int_less u.ts t.ts) l ≡ 0) × IsSorted l

none_before :
    (a : Int64) (l : List Tx) → All (λ u. IsBefore a u.ts) l → count (λ u. int_less u.ts a) l ≡ 0
none_before a [] h = refl
none_before a (u ∷ l) h = ground (arith, not_less a u.ts h.0, none_before a l h.1)

length-count : (l : List Tx) → count (λ u. true) l ≡ length l
length-count [] = refl
length-count (u ∷ l) = omega (arith, length-count l)

drain-cons :
    (n : ℕ) (l : List Tx) (t : Tx) (rest : List Tx)
    → get_tx l ≡ (ok (some t), rest)
    → drain (suc n) l ≡ t ∷ drain n rest
unfolding drain
drain-cons n l t rest h = rw h refl

drain-contents :
    (n : ℕ) (l : List Tx)
    → IsHeap l
    → length l ≡ n
    → (p : Tx → Bool) → count p (drain n l) ≡ count p l
unfolding drain
drain-contents zero [] h len p = refl
drain-contents zero (a ∷ l) h len p = absurd (omega arith)
drain-contents (suc n) l h len p =
    let step : IsTaken l (get_tx l) = get_tx-IsTaken l h (omega arith) in
    let same : length step.rest ≡ n =
      omega (arith, step.others (λ u. true), length-count l, length-count step.rest) in
    rw (drain-cons n l step.tx step.rest step.taken)
      (omega (arith, drain-contents n step.rest step.ordered same p, step.others p))

drained-IsSorted : (n : ℕ) (l : List Tx) → IsHeap l → length l ≡ n → IsSorted (drain n l)
unfolding drain
drained-IsSorted zero l h len = tt
drained-IsSorted (suc n) l h len =
    let step : IsTaken l (get_tx l) = get_tx-IsTaken l h (omega arith) in
    let same : length step.rest ≡ n =
      omega (arith, step.others (λ u. true), length-count l, length-count step.rest) in
    let before = λ (u : Tx). int_less u.ts step.tx.ts in
    rw (drain-cons n l step.tx step.rest step.taken) (
      omega (
        arith,
        none_before step.tx.ts l step.first,
        step.others before,
        drain-contents n step.rest step.ordered same before,
      ),
      drained-IsSorted n step.rest step.ordered same,
    )

-- As many calls of `GetTx` as the pool has transactions give all of them, each as often as it was
-- added, in the order of their times.
pub drain-IsSorted :
    (l : List Tx)
    → IsHeap l
    → IsSorted (drain (length l) l) × ((p : Tx → Bool) → count p (drain (length l) l) ≡ count p l)
drain-IsSorted l h = (drained-IsSorted (length l) l h refl, drain-contents (length l) l h refl)

-- ===== src/Pool.antt =====
-- pkg/did/consensus/mempool.go: the memory pool, a heap of transactions by their times, with what it
-- uses of container/heap.
pub mod Order
pub mod Up
pub mod Down
pub mod Laws
pub mod Drain
use didem.Base.{
  ℕ, zero, suc, ◌+◌, ◌-◌, ◌*◌, ◌/◌, Bool, true, false, Option, none, some, List, [], ◌∷◌, ◌++◌,
  nat_eqb, ltb, leb, if◌then◌else◌, get_elem?, set, take, length, Result, ok, err, panic, ◌then?◌,
  out_of_fuel, Exec,
}
use didem.Tx.{Int64, pos, negsuc, Tx}

-- `<` on the times
abbrev pub int_less : Int64 → Int64 → Bool
int_less (pos a) (pos b) = ltb a b
int_less (pos a) (negsuc b) = false
int_less (negsuc a) (pos b) = true
int_less (negsuc a) (negsuc b) = ltb b a

-- `m.plist[i]`
abbrev pub at : List Tx → ℕ → Result Tx
at l i = elim (get_elem? l i) [ none ↦ panic | some t ↦ ok t ]

unfoldable pub less : List Tx → ℕ → ℕ → Result Bool
less l i j = at l i then? λ a. at l j then? λ b. ok (int_less a.ts b.ts)

unfoldable pub swap : List Tx → ℕ → ℕ → Result (List Tx)
swap l i j = at l i then? λ a. at l j then? λ b. ok (set (set l i b) j a)

unfoldable pub push : Tx → List Tx → List Tx
push t l = l ++ (t ∷ [])

-- `Pop`: the last transaction, and the others
unfoldable pub pop : List Tx → Result (Tx × List Tx)
pop l = at l (length l - 1) then? λ t. ok (t, take (length l - 1) l)

-- `up` of container/heap, its loop on fuel
unfoldable pub up : ℕ → List Tx → ℕ → Result (List Tx)
unfolding less swap
up zero l j = err out_of_fuel
up (suc fuel) l j =
    let i = (j - 1) / 2 in
    if nat_eqb i j
    then ok l
    else less l j i then? λ b. if b then (swap l i j then? λ l'. up fuel l' i) else ok l

-- the smaller child of a place whose left child is `j1`
abbrev pub child : List Tx → ℕ → ℕ → Result ℕ
child l j1 n =
    if ltb (j1 + 1) n then (less l (j1 + 1) j1 then? λ b. ok (if b then j1 + 1 else j1)) else ok j1

-- `down` of container/heap, its loop on fuel
unfoldable pub down : ℕ → List Tx → ℕ → ℕ → Result (List Tx)
unfolding less swap
down zero l i n = err out_of_fuel
down (suc fuel) l i n =
    if leb n (2 * i + 1)
    then ok l
    else child l (2 * i + 1) n then? λ j.
        less l j i then? λ b. if b then (swap l i j then? λ l'. down fuel l' j n) else ok l

-- `heap.Push`
unfoldable pub heap_push : Tx → List Tx → Result (List Tx)
unfolding push up
heap_push t l = let l' = push t l in up (length l') l' (length l' - 1)

-- `heap.Pop`
unfoldable pub heap_pop : List Tx → Result (Tx × List Tx)
unfolding swap down pop
heap_pop l = let n = length l - 1 in swap l 0 n then? λ l'. down (suc n) l' 0 n then? pop

-- the loop of `heap.Init`, from the last place that has a child
unfoldable pub heapify : ℕ → List Tx → Result (List Tx)
unfolding down
heapify zero l = ok l
heapify (suc i) l = down (suc (length l)) l i (length l) then? heapify i

-- `NewTxMemPool`
unfoldable pub new_tx_mem_pool : Result (List Tx)
unfolding heapify
new_tx_mem_pool = heapify 0 []

-- `AddTx`, which has no use for the expiry
unfoldable pub add_tx : Tx → Int64 → Exec (List Tx) Unit
unfolding heap_push
add_tx t expires l = elim (heap_push t l) [
  | ok l' ↦ (ok tt, l')
  | err e ↦ (err e, l)
  | panic ↦ (panic, l)
]

-- `GetTx`
unfoldable pub get_tx : List Tx → Result (Option Tx) × List Tx
unfolding heap_pop
get_tx l =
    if ltb 0 (length l)
    then elim (heap_pop l) [
      | ok (t, l') ↦ (ok (some t), l')
      | err e ↦ (err e, l)
      | panic ↦ (panic, l)
    ]
    else (ok none, l)

-- ===== src/Storage/Tree.antt =====
-- The walk over the Merkle tree of a block's transactions, as both stores write it out: `allTxCids`
-- of pkg/storage/memstore.go and `AllTx` of internal/storage/ipfs.go.

pub mod Members
pub mod Spans
pub mod Found
pub mod Sorted
pub mod Build
use didem.Base.{
  ℕ, zero, suc, Bool, false, ◌||◌, Option, none, some, List, [], ◌∷◌, ◌++◌, ◌==◌, if◌then◌else◌,
  insert, length, ltb, Result, ok, err, wrapped, ◌then?◌, too_many_tx, out_of_fuel, nat_eq,
}
use didem.Tx.{Cid, TxId, Tx}
use didem.Storage.Chain.{TxSet, max_block_tx_count}

-- `visited.Has`
abbrev pub has : Cid → List Cid → Bool
has c [] = false
has c (v ∷ vs) = v == c || has c vs

module _ (get_set : Cid → Result TxSet) (get_tx : TxId → Result Tx) where
  -- the transaction of one set, if it has one, and the check of their number
  unfoldable pub add_tx : Option Cid → List (TxId × Tx) → Result (List (TxId × Tx))
  add_tx none seen = ok seen
  add_tx (some id) seen = wrapped (get_tx id) then? λ t.
      if ltb max_block_tx_count (length (insert id t seen))
      then err too_many_tx
      else ok (insert id t seen)

  -- the loop, on fuel: what was seen, what was visited, and the queue
  unfoldable pub walk : ℕ → List (TxId × Tx) → List Cid → List Cid → Result (List (TxId × Tx))
  unfolding add_tx
  walk fuel seen visited [] = ok seen
  walk zero seen visited (id ∷ queue) = err out_of_fuel
  walk (suc fuel) seen visited (id ∷ queue) =
      let again = walk fuel seen visited queue in
      let visit = wrapped (get_set id) then? λ set.
      add_tx set.tx seen then? λ seen'. walk fuel seen' (id ∷ visited) (queue ++ set.children) in
      if has id visited then again else visit

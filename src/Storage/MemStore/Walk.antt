-- ===== src/Storage/MemStore/Walk.antt =====
-- `AllTx` of pkg/storage/memstore.go: the walk over a block's tree in the in-memory store.
use didem.Base.{ℕ, ◌+◌, Option, none, some, List, [], ◌∷◌, length, Result}
use didem.Tx.{Cid, TxId, Tx, Bytes}
use didem.Storage.Chain.{Block}
use didem.Storage.Codec.{Codec}
use didem.Storage.MemStore.{MemStore, get_tx, get_set}
use didem.Storage.Tree.{walk}

module _ (c : Codec) (m : MemStore) where
  -- what one object can add to the queue
  abbrev pub children_count : Option Bytes → ℕ
  children_count none = 0
  children_count (some d) = elim (c.unmarshal_set d) [ none ↦ 0 | some set ↦ length set.children ]

  abbrev pub total_children : List (Cid × Option Bytes) → ℕ
  total_children [] = 0
  total_children ((_, d) ∷ objects) = children_count d + total_children objects

  -- `AllTx`
  unfoldable pub all_tx : Block → Result (List (TxId × Tx))
  all_tx b = walk (get_set c m) (get_tx c m) (1 + total_children m.objects) [] [] (b.tx_root ∷ [])

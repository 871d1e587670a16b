-- ===== src/Storage/Store.antt =====
-- The `Store` interface of pkg/storage/storage.go and metadata.go, over the type of its states.
use didem.Base.{Bool, Option, List, String, Result, Exec}
use didem.W3cdid.Document.{Document}
use didem.Tx.{Cid, TxId, Tx, Node}
use didem.Storage.Chain.{BlockId, BlockState, Block, TxSet, GenesisInfo}

pub record Store (S : Type 0) : Type 0 where
  -- the document that comes back can be nil
  pub lookup_did : S → String → Result (Option Document)
  pub did_history : S → String → Result (List Tx)
  pub claims : S → String → Result (List Tx)
  pub nodes : S → Result (List String)
  pub node : S → String → Result (Option Node)
  pub has_genesis_applied : S → Bool
  pub apply_genesis : GenesisInfo → Exec S Unit
  pub apply_tx : TxId → Tx → Exec S Unit
  -- a store for trials, which the code then uses in place of this one
  pub start_test : S → Result S
  pub complete_test : Exec S Unit
  pub put_tx : Tx → Exec S Cid
  pub get_tx : S → TxId → Result Tx
  pub put_block : Block → Exec S Cid
  pub get_block : S → BlockId → Result Block
  pub all_tx : S → Block → Result (List (TxId × Tx))
  pub put_set : TxSet → Exec S Cid
  pub get_set : S → Cid → Result TxSet
  pub get_tx_block : S → TxId → Result Block
  pub mark_block : BlockId → BlockState → Exec S Unit
  pub update_last_applied : BlockId → Exec S Unit
  pub get_last_applied : S → Result (Option Block)

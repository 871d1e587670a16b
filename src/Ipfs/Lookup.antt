-- ===== src/Ipfs/Lookup.antt =====
-- Lookups in the metadata of the store over IPFS (internal/storage/ipfs.go): blocks of transactions,
-- DIDs and nodes.
use didem.Base.{
  ◌+◌, Option, some, List, [], ◌∷◌, String, if◌then◌else◌, Result, ok, err, panic, wrapped, wrap,
  ◌then?◌, not_found, not_implemented, invalid_cid, unexpected_tx_type,
}
use didem.W3cdid.Document.{Document}
use didem.Tx.{
  Bytes, TxId, Tx, TxType, TxAction, TxData, did_data, tx_type_did, tx_type_node, tx_action_revoke,
  Node,
}
use didem.Storage.Chain.{Block}
use didem.Storage.MemStore.{as_node}
use didem.Ipfs.{
  IpfsEnv, IpfsStorage, Reading, found, failed, is_absent, or_fail, metadata_get, metadata_iter,
}
use didem.Ipfs.Keys.{typed_key, tx_block, did_table, nodes_table, prefix}
use didem.Ipfs.Objects.{get_tx, get_block}

-- `t.Data.(*tx.DID).Document`
abbrev pub as_document : TxData → Result (Option Document)
as_document (did_data d) = ok d.document
as_document _ = panic

abbrev pub did_only : TxType → TxData → Result (Option Document)
did_only tx_type_did d = as_document d
did_only _ d = err unexpected_tx_type

abbrev pub unrevoked : TxAction → TxData → Result (Option Node)
unrevoked tx_action_revoke d = err not_found
unrevoked _ d = as_node d then? λ n. ok (some n)

abbrev pub node_only : TxType → TxAction → TxData → Result (Option Node)
node_only tx_type_node act d = unrevoked act d
node_only _ act d = err unexpected_tx_type

-- `v[1:]`
abbrev pub behind_prefix : Bytes → Bytes
behind_prefix [] = []
behind_prefix (b ∷ d) = d

module _ {I D B : Type 0} (env : IpfsEnv I D B) where
  unfoldable pub tx_block_found : IpfsStorage I D B → Reading → Result Block
  unfolding get_block
  tx_block_found s (failed e) = err (wrap e)
  tx_block_found s (found d) = or_fail (wrap invalid_cid) (env.cids.cast d) then? get_block env s

  -- `GetTxBlock`: any error of the metadata is wrapped, a missing key's too
  unfoldable pub get_tx_block : IpfsStorage I D B → TxId → Result Block
  unfolding metadata_get typed_key tx_block_found
  get_tx_block s id =
      tx_block_found s (metadata_get env s (typed_key tx_block (env.cids.to_string id ∷ [])))

  -- the transaction under the CID that an entry holds; a missing one is ErrNotFound
  unfoldable pub tx_found : IpfsStorage I D B → Reading → Result Tx
  unfolding get_tx
  tx_found s (failed e) = if is_absent e then err not_found else err (wrap e)
  tx_found s (found d) =
      or_fail (wrap invalid_cid) (env.cids.parse d) then? λ id. wrapped (get_tx env s id)

  unfoldable pub lookup_did : IpfsStorage I D B → String → Result (Option Document)
  unfolding metadata_get typed_key tx_found
  lookup_did s did = tx_found s (metadata_get env s (typed_key did_table (did ∷ []))) then? λ t.
      did_only t.type t.data_

  unfoldable pub node : IpfsStorage I D B → String → Result (Option Node)
  unfolding metadata_get typed_key tx_found
  node s id = tx_found s (metadata_get env s (typed_key nodes_table (id ∷ []))) then? λ t.
      node_only t.type t.action t.data_

  unfoldable pub claims : IpfsStorage I D B → String → Result (List Tx)
  claims s did = err not_implemented

  abbrev key_texts : List (Bytes × Bytes) → List String
  key_texts [] = []
  key_texts ((k, v) ∷ l) = env.cids.text (behind_prefix k) ∷ key_texts l

  unfoldable pub nodes : IpfsStorage I D B → Result (List String)
  unfolding metadata_iter
  nodes s =
      ok (key_texts (metadata_iter env s (prefix nodes_table ∷ []) ((prefix nodes_table + 1) ∷ [])))

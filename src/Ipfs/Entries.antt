-- ===== src/Ipfs/Entries.antt =====
-- What a block of transactions writes to the metadata of the store over IPFS, as a list of writes
-- (the tables of internal/storage/metadata.go), and that `indexBlock` makes these writes.
use didem.Base.{List, [], ◌∷◌, ◌++◌, ok, continue-eq-ok, >>=-eq-ok, wrapped-eq-ok, ◌≡◌, refl}
use didem.Tx.{
  Bytes, TxId, Tx, TxType, TxAction, tx_type_did, tx_type_vc, tx_type_node, other_type,
  tx_action_add, tx_action_update, tx_action_revoke, other_action,
}
use didem.Storage.Chain.{BlockId}
use didem.Storage.MemStore.{as_node, document_of}
use didem.Storage.TxSet.{wrapped_exec}
use didem.Ipfs.{IpfsEnv}
use didem.Ipfs.Keys.{typed_key, tx_block, did_table, did_history, nodes_table}
use didem.Ipfs.Index.{node_index, did_index, index_tx_node, index_tx_did, index_tx_vc, index_tx}

pub data Write : Type 0 where
  put : Bytes → Bytes → Write
  remove : Bytes → Write

module _ {I D B : Type 0} (env : IpfsEnv I D B) where
  -- a batch with these writes, the first one made first
  abbrev pub with_writes : List Write → B → B
  with_writes [] b = b
  with_writes (put k v ∷ ws) b = with_writes ws (env.kv.batch_set k v b).1
  with_writes (remove k ∷ ws) b = with_writes ws (env.kv.batch_delete k b).1

  -- the last transaction of a DID or a node, which a revocation takes away
  abbrev pub last_entry : TxAction → Bytes → TxId → List Write
  last_entry tx_action_add k id = put k (env.cids.to_bytes id) ∷ []
  last_entry tx_action_update k id = put k (env.cids.to_bytes id) ∷ []
  last_entry tx_action_revoke k id = remove k ∷ []
  last_entry (other_action _) k id = []

  -- the entries of a DID or a node; the other types have none
  abbrev pub subject_entries : TxType → Tx → TxId → List Write
  subject_entries tx_type_did t id = elim (document_of t.data_) [
    | ok doc ↦
        put (typed_key did_history (doc.id ∷ env.cids.to_string id ∷ [])) (env.cids.to_bytes id)
        ∷ last_entry t.action (typed_key did_table (doc.id ∷ [])) id
    | _ ↦ []
  ]
  subject_entries tx_type_node t id = elim (as_node t.data_) [
    | ok n ↦ last_entry t.action (typed_key nodes_table (n.id ∷ [])) id
    | _ ↦ []
  ]
  subject_entries _ t id = []

  -- the entries of a block's transactions: the block of each, and those of its subject
  abbrev pub block_entries : BlockId → List (TxId × Tx) → List Write
  block_entries block [] = []
  block_entries block ((id, t) ∷ txs) =
      put (typed_key tx_block (env.cids.to_string id ∷ [])) (env.cids.to_bytes block)
      ∷ (subject_entries t.type t id ++ block_entries block txs)

  pub with_writes-append :
      (xs ys : List Write) (b : B) → with_writes (xs ++ ys) b ≡ with_writes ys (with_writes xs b)
  with_writes-append [] ys b = refl
  with_writes-append (put k v ∷ xs) ys b = with_writes-append xs ys (env.kv.batch_set k v b).1
  with_writes-append (remove k ∷ xs) ys b = with_writes-append xs ys (env.kv.batch_delete k b).1

  did_index-entries :
      (act : TxAction) (k : Bytes) (id : TxId) (b : B)
      → (did_index env act k id b).1 ≡ with_writes (last_entry act k id) b
  did_index-entries tx_action_add k id b = refl
  did_index-entries tx_action_update k id b = refl
  did_index-entries tx_action_revoke k id b = refl
  did_index-entries (other_action _) k id b = refl

  node_index-entries :
      (act : TxAction) (k : Bytes) (id : TxId) (b : B)
      → (node_index env act k id b).0 ≡ ok tt
      → (node_index env act k id b).1 ≡ with_writes (last_entry act k id) b
  node_index-entries tx_action_add k id b h = refl
  node_index-entries tx_action_update k id b h = cc
  node_index-entries tx_action_revoke k id b h = refl
  node_index-entries (other_action _) k id b h = refl

  pub index_tx-entries :
      (ty : TxType) (t : Tx) (id : TxId) (b : B)
      → (index_tx env ty t id b).0 ≡ ok tt
      → (index_tx env ty t id b).1 ≡ with_writes (subject_entries ty t id) b
  unfolding index_tx index_tx_did index_tx_node index_tx_vc
  index_tx-entries tx_type_did t id b h =
      let (doc, found, h1) = continue-eq-ok (document_of t.data_) _ b (wrapped-eq-ok _ h) in
      let write = wrapped_exec (
        env.kv.batch_set (typed_key did_history (doc.id ∷ env.cids.to_string id ∷ []))
          (env.cids.to_bytes id)) in
      let (_, set, h2) = >>=-eq-ok write _ b h1 in
      rw (found, subject_entries, set)
        (did_index-entries t.action (typed_key did_table (doc.id ∷ [])) id (write b).1)
  index_tx-entries tx_type_node t id b h =
      let (n, found, h1) = continue-eq-ok (as_node t.data_) _ b (wrapped-eq-ok _ h) in
      rw (found, subject_entries)
        (node_index-entries t.action (typed_key nodes_table (n.id ∷ [])) id b h1)
  index_tx-entries tx_type_vc t id b h = cc
  index_tx-entries (other_type _) t id b h = cc

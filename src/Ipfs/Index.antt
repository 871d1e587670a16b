-- ===== src/Ipfs/Index.antt =====
-- What the store over IPFS writes to its metadata (internal/storage/ipfs.go): applying transactions,
-- marking and indexing blocks.
use didem.Base.{
  ℕ, Bool, true, false, ◌&&◌, none, some, List, [], ◌∷◌, nat_eqb, if◌then◌else◌, Result, ok, err,
  panic, Exec, pure, fail, lift, ◌>>=◌, continue, wrapped, wrap, ◌then?◌, not_implemented, no_batch,
  apply_failed, unsupported_action, tx_unsupported_type,
}
use didem.Tx.{
  Bytes, TxId, Tx, TxType, TxAction, tx_type_did, tx_type_vc, tx_type_node, other_type,
  tx_action_add, tx_action_update, tx_action_revoke,
}
use didem.Storage.Chain.{BlockId, BlockState}
use didem.Storage.MemStore.{as_node, document_of}
use didem.Storage.TxSet.{wrapped_exec}
use didem.Ipfs.{
  IpfsEnv, IpfsStorage, Reading, found, failed, is_absent, in_node, in_metadata, flip, metadata_get,
  metadata_set,
}
use didem.Ipfs.Keys.{
  typed_key, tx_block, block_state, did_table, did_history, nodes_table, latest_block, state_code,
  put_uint32, uint32,
}
use didem.Ipfs.Objects.{get_block, all_tx}

-- `recover` in the deferred function of `ApplyTx`
abbrev pub recovered : {S A : Type 0} → Exec S A → Exec S A
recovered f s =
    let (r, t) = f s in
    elim r [ ok a ↦ (ok a, t) | err e ↦ (err e, t) | panic ↦ (err apply_failed, t) ]

-- where the call fails, the deferred one runs as well: its error is dropped, its panic is not
abbrev pub or_close : {S A : Type 0} → Exec S Unit → Exec S A → Exec S A
or_close close f s =
    let (r, t) = f s in
    elim r [
      | ok a ↦ (ok a, t)
      | err e ↦ let (done, u) = close t in elim done [ panic ↦ (panic, u) | _ ↦ (err e, u) ]
      | panic ↦ (panic, t)
    ]

module _ {I D B : Type 0} (env : IpfsEnv I D B) where
  abbrev pub node_index : TxAction → Bytes → TxId → Exec B Unit
  node_index tx_action_add k id = env.kv.batch_set k (env.cids.to_bytes id)
  node_index tx_action_revoke k id = env.kv.batch_delete k
  node_index _ k id = fail unsupported_action

  unfoldable pub index_tx_node : Tx → TxId → Exec B Unit
  unfolding typed_key
  index_tx_node t id =
      lift (as_node t.data_) >>= λ c. node_index t.action (typed_key nodes_table (c.id ∷ [])) id

  abbrev pub did_index : TxAction → Bytes → TxId → Exec B Unit
  did_index tx_action_add k id = env.kv.batch_set k (env.cids.to_bytes id)
  did_index tx_action_update k id = env.kv.batch_set k (env.cids.to_bytes id)
  did_index tx_action_revoke k id = env.kv.batch_delete k
  did_index _ k id = fail unsupported_action

  -- the history first, then the entry of the DID
  unfoldable pub index_tx_did : Tx → TxId → Exec B Unit
  unfolding typed_key
  index_tx_did t id = lift (document_of t.data_) >>= λ doc.
      wrapped_exec (
        env.kv.batch_set (typed_key did_history (doc.id ∷ env.cids.to_string id ∷ []))
          (env.cids.to_bytes id))
      >>= λ _. did_index t.action (typed_key did_table (doc.id ∷ [])) id

  unfoldable pub index_tx_vc : Tx → TxId → Exec B Unit
  index_tx_vc t id = fail not_implemented

  -- the switch of `ApplyTx`
  unfoldable pub index_tx : TxType → Tx → TxId → Exec B Unit
  unfolding index_tx_node index_tx_did index_tx_vc
  index_tx tx_type_node t id = wrapped_exec (index_tx_node t id)
  index_tx tx_type_did t id = wrapped_exec (index_tx_did t id)
  index_tx tx_type_vc t id = wrapped_exec (index_tx_vc t id)
  index_tx (other_type _) t id = fail tx_unsupported_type

  -- `ApplyTx` with the batch of its context
  unfoldable pub apply_to : TxId → Tx → Exec B Unit
  unfolding index_tx
  apply_to id t = recovered (index_tx t.type t id)

  -- `ApplyTx` with the batch of the trial
  unfoldable pub apply_tx : TxId → Tx → Exec (IpfsStorage I D B) Unit
  unfolding apply_to
  apply_tx id t s = elim s.pf_tip_apply [
    | none ↦ (err no_batch, s)
    | some b ↦ let (r, b') = apply_to id t b in (r, record s { pf_tip_apply = some b' })
  ]

  -- In the loop of `indexBlock` the batch changes and, where a transaction is pinned, the node.
  abbrev pub on_batch : {A : Type 0} → Exec B A → Exec (I × B) A
  on_batch f (i, b) = let (r, b') = f b in (r, (i, b'))

  abbrev pub on_node : {A : Type 0} → Exec I A → Exec (I × B) A
  on_node f (i, b) = let (r, i') = f i in (r, (i', b))

  -- half of the transactions are pinned, outside a trial
  unfoldable pub maybe_pin : Bool → TxId → Exec (I × B) Unit
  unfolding flip
  maybe_pin true id = pure tt
  maybe_pin false id = on_node (flip env) >>= λ heads.
      if heads then wrapped_exec (on_node (env.api.pin id)) else pure tt

  unfoldable pub index_txs : Bool → BlockId → List (TxId × Tx) → Exec (I × B) Unit
  unfolding typed_key apply_to maybe_pin
  index_txs in_trial b [] = pure tt
  index_txs in_trial b ((id, t) ∷ txs) =
      wrapped_exec (
        on_batch (
          env.kv.batch_set (typed_key tx_block (env.cids.to_string id ∷ [])) (env.cids.to_bytes b)))
      >>= λ _. wrapped_exec (on_batch (or_close env.kv.batch_close (apply_to id t))) >>= λ _.
          maybe_pin in_trial id >>= λ _. index_txs in_trial b txs

  -- the batch of the trial takes the entries of the block
  unfoldable pub index_in_trial : BlockId → List (TxId × Tx) → B → Exec (IpfsStorage I D B) Unit
  unfolding index_txs
  index_in_trial id txs b s =
      let (r, (i, b')) = index_txs true id txs (s.ipfs_node, b) in
      (r, record s { ipfs_node = i; pf_tip_apply = some b' })

  -- a new batch takes them, and is committed where nothing failed
  unfoldable pub index_and_commit : BlockId → List (TxId × Tx) → Exec (IpfsStorage I D B) Unit
  unfolding index_txs
  index_and_commit id txs s =
      let (r, (i, b)) = index_txs false id txs (s.ipfs_node, env.kv.new_batch s.metadata) in
      continue r (λ _. wrapped_exec (in_metadata (env.kv.commit b))) (record s { ipfs_node = i })

  unfoldable pub index_found : BlockId → List (TxId × Tx) → Exec (IpfsStorage I D B) Unit
  unfolding index_in_trial index_and_commit
  index_found id txs s = elim s.pf_tip_apply [
    | some b ↦ index_in_trial id txs b s
    | none ↦ index_and_commit id txs s
  ]

  module _ (fuel : ℕ) where
    -- `indexBlock`
    unfoldable pub index_block : BlockId → Exec (IpfsStorage I D B) Unit
    unfolding get_block all_tx index_found
    index_block id s =
        continue (wrapped (get_block env s id) then? λ b. wrapped (all_tx env fuel s b))
          (λ txs. wrapped_exec (in_node (env.api.pin id)) >>= λ _.
            index_found id (env.codec.range_order txs))
          s

    -- the four bytes of the state, zeros where the block has none
    abbrev pub old_state : Reading → Result Bytes
    old_state (found d) = ok d
    old_state (failed e) = if is_absent e then ok (0 ∷ 0 ∷ 0 ∷ 0 ∷ []) else err (wrap e)

    abbrev pub accept_now : ℕ → BlockState → Bool
    accept_now old new = nat_eqb old 1 && nat_eqb (state_code new) 2

    -- index the block, and make it the latest one
    unfoldable pub accept_block : BlockId → Exec (IpfsStorage I D B) Unit
    unfolding index_block metadata_set typed_key
    accept_block id = wrapped_exec (index_block id) >>= λ _.
        wrapped_exec (metadata_set env (typed_key latest_block []) (env.cids.to_bytes id))

    -- `MarkBlock`
    unfoldable pub mark_block : BlockId → BlockState → Exec (IpfsStorage I D B) Unit
    unfolding accept_block metadata_get metadata_set typed_key uint32 put_uint32
    mark_block id new s =
        let k = typed_key block_state (env.cids.to_string id ∷ []) in
        continue (old_state (metadata_get env s k) then? uint32)
          (λ old. wrapped_exec (metadata_set env k (put_uint32 (state_code new))) >>= λ _.
            if accept_now old new then accept_block id else pure tt)
          s

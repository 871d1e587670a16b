-- ===== src/Ipfs/Genesis.antt =====
-- The genesis and the last block applied, in the store over IPFS (internal/storage/ipfs.go).
use didem.Base.{
  Bool, true, false, Option, none, some, List, [], ◌∷◌, ◌==◌, nat_eq, if◌then◌else◌, Result, ok,
  err, Exec, pure, fail, ◌>>=◌, continue, wrap, ◌then?◌, invalid_cid, root_mismatch,
}
use didem.W3cdid.Url.{text_bytes}
use didem.Tx.{Cid, Tx}
use didem.Storage.Chain.{BlockId, Block, TxSet, GenesisInfo}
use didem.Storage.TxSet.{ChainEnv, new_tx_set, wrapped_exec}
use didem.Ipfs.{
  IpfsEnv, IpfsStorage, Reading, found, failed, is_absent, in_metadata, or_fail, metadata_get,
  metadata_set,
}
use didem.Ipfs.Keys.{typed_key, latest_block, genesis}
use didem.Ipfs.Objects.{put_tx, put_set, put_block, get_block}
use didem.Ipfs.Index.{apply_to}

module _ {I D B : Type 0} (env : IpfsEnv I D B) where
  -- the text of the CID
  unfoldable pub update_last_applied : BlockId → Exec (IpfsStorage I D B) Unit
  unfolding metadata_set typed_key
  update_last_applied id =
      wrapped_exec
        (metadata_set env (typed_key latest_block []) (text_bytes (env.cids.to_string id)))

  unfoldable pub last_applied : IpfsStorage I D B → Reading → Result (Option Block)
  unfolding get_block
  last_applied s (failed e) = if is_absent e then ok none else err (wrap e)
  last_applied s (found d) = or_fail (wrap invalid_cid) (env.cids.cast d) then? λ id.
      get_block env s id then? λ b. ok (some b)

  unfoldable pub get_last_applied : IpfsStorage I D B → Result (Option Block)
  unfolding metadata_get typed_key last_applied
  get_last_applied s = last_applied s (metadata_get env s (typed_key latest_block []))

  abbrev pub was_found : Reading → Bool
  was_found (found d) = true
  was_found (failed e) = false

  unfoldable pub has_genesis_applied : IpfsStorage I D B → Bool
  unfolding metadata_get typed_key
  has_genesis_applied s = was_found (metadata_get env s (typed_key genesis []))

  -- the store and the batch of `ApplyGenesis`
  abbrev pub with_store : {A : Type 0} → Exec (IpfsStorage I D B) A → Exec (IpfsStorage I D B × B) A
  with_store f (s, b) = let (r, s') = f s in (r, (s', b))

  abbrev pub with_batch : {A : Type 0} → Exec B A → Exec (IpfsStorage I D B × B) A
  with_batch f (s, b) = let (r, b') = f b in (r, (s, b'))

  -- store and apply each transaction
  unfoldable pub genesis_txs : List Tx → Exec (IpfsStorage I D B × B) (List Cid)
  unfolding put_tx apply_to
  genesis_txs [] = pure []
  genesis_txs (t ∷ txs) = wrapped_exec (with_store (put_tx env t)) >>= λ id.
      wrapped_exec (with_batch (apply_to env id t)) >>= λ _.
      genesis_txs txs >>= λ ids. pure (id ∷ ids)

  abbrev check_root : Cid → TxSet → Exec (IpfsStorage I D B × B) Unit
  check_root root set = if set.cid == root then pure tt else fail root_mismatch

  -- the two entries behind the transactions
  abbrev mark_genesis : Cid → Exec (IpfsStorage I D B × B) Unit
  unfolding typed_key
  mark_genesis id =
      wrapped_exec
        (with_batch (env.kv.batch_set (typed_key latest_block []) (env.cids.to_bytes id)))
      >>= λ _. wrapped_exec (with_batch (env.kv.batch_set (typed_key genesis []) []))

  unfoldable pub genesis_batch : ChainEnv → GenesisInfo → Exec (IpfsStorage I D B × B) Unit
  unfolding genesis_txs new_tx_set put_set put_block typed_key
  genesis_batch chain_env g = genesis_txs g.txs >>= λ ids.
      wrapped_exec (with_store (new_tx_set (put_set env) chain_env ids)) >>= λ set.
      check_root g.block.tx_root set >>= λ _.
      wrapped_exec (with_store (put_block env g.block)) >>= λ id. mark_genesis id

  -- `ApplyGenesis`: the batch is dropped where anything failed before its commit
  unfoldable pub apply_genesis : ChainEnv → GenesisInfo → Exec (IpfsStorage I D B) Unit
  unfolding genesis_batch
  apply_genesis chain_env g s =
      let (r, (s', b)) = genesis_batch chain_env g (s, env.kv.new_batch s.metadata) in
      continue r (λ _. wrapped_exec (in_metadata (env.kv.commit b))) s'

-- ===== src/Ipfs/Refused.antt =====
-- `IsBlockValid` of pkg/storage/validator.go over the store of internal/storage/ipfs.go.
use didem.Base.{
  ℕ, true, false, List, ◌∷◌, Result, ok, err, panic, Error, is_not_found, wrap, ◌≡◌, ◌≢◌, refl,
  arith, wrapped, wrapped-eq-ok, >>=-eq-ok, continue-eq-ok, Result-cases, Option-cases, inl, inr,
  invalid_cid, unmarshalling,
}
use didem.Tx.{Cid, Bytes, TxId, Tx}
use didem.Storage.Chain.{Block, unvalidated}
use didem.Storage.TxSet.{ChainEnv, wrapped_exec}
use didem.Storage.Validator.{
  ValidatorEnv, not_in_block, is_tx_valid, check_txs, trial, finish_trial, deferred, is_block_valid,
}
use didem.Ipfs.{
  IpfsEnv, IpfsStorage, Reading, found, failed, start_test, complete_test, metadata_get,
}
use didem.Ipfs.Objects.{get_raw, get_block, all_tx}
use didem.Ipfs.Index.{mark_block}
use didem.Ipfs.Lookup.{get_tx_block, tx_block_found}
use didem.Ipfs.Impl.{ipfs_store}

-- The errors of pebble and of IPFS are never the ErrNotFound of pkg/storage.
pub record HasOwnErrors {I D B : Type 0} (env : IpfsEnv I D B) : Type 0 where
  pub of_get : (d : D) (k : Bytes) (e : Error) → env.kv.get d k ≡ failed e → is_not_found e ≡ false
  pub of_batch :
      (d : D) (b : B) (k : Bytes) (e : Error)
      → env.kv.batch_get d b k ≡ failed e
      → is_not_found e ≡ false
  pub of_node : (i : I) (c : Cid) (e : Error) → env.api.get i c ≡ err e → is_not_found e ≡ false

deferred-eq-ok : (r done : Result Unit) → deferred r done ≡ ok tt → r ≡ ok tt
deferred-eq-ok r (ok a) h = h
deferred-eq-ok r (err e) h = h
deferred-eq-ok r panic h = cc

module _ {I D B : Type 0} (env : IpfsEnv I D B) (own : HasOwnErrors env) where
  metadata_get-own :
      (s : IpfsStorage I D B) (k : Bytes) (e : Error)
      → metadata_get env s k ≡ failed e
      → is_not_found e ≡ false
  unfolding metadata_get
  metadata_get-own s k e h = elim (Option-cases s.pf_tip_apply) [
    | inl none_yet ↦ own.of_get s.metadata k e (rw none_yet at h)
    | inr (b, trying) ↦ own.of_batch s.metadata b k e (rw trying at h)
  ]

  get_block-own :
      (s : IpfsStorage I D B) (id : Cid) (e : Error)
      → get_block env s id ≡ err e
      → is_not_found e ≡ false
  unfolding get_block get_raw
  get_block-own s id e h = elim (Result-cases (env.api.get s.ipfs_node id)) [
    | inl (d, q) ↦ elim (Option-cases (env.codec.unmarshal_block d)) [
      | inl bad ↦ let same : wrap unmarshalling ≡ e = ground arith in rw (← same) refl
      | inr (b, good) ↦ absurd (ground arith)
    ]
    | inr (inl (x, q)) ↦
        let same : x ≡ e = ground arith in own.of_node s.ipfs_node id e (ground arith)
    | inr (inr q) ↦ absurd (ground arith)
  ]

  tx_block_found-own :
      (s : IpfsStorage I D B) (r : Reading) (e : Error)
      → ((e : Error) → r ≡ failed e → is_not_found e ≡ false)
      → tx_block_found env s r ≡ err e
      → is_not_found e ≡ false
  unfolding tx_block_found
  tx_block_found-own s (failed x) e o h =
      let same : wrap x ≡ e = ground arith in rw (← same) (o x refl)
  tx_block_found-own s (found d) e o h = elim (Option-cases (env.cids.cast d)) [
    | inl bad ↦ let same : wrap invalid_cid ≡ e = ground arith in rw (← same) refl
    | inr (id, good) ↦ get_block-own s id e (rw (tx_block_found, good) at h)
  ]

  -- the check for a block that has the transaction already always fails
  in_some_block : (s : IpfsStorage I D B) (id : TxId) → not_in_block (get_tx_block env s id) ≢ ok tt
  unfolding get_tx_block
  in_some_block s id h = elim (Result-cases (get_tx_block env s id)) [
    | inl (b, q) ↦ absurd (ground arith)
    | inr (inl (e, q)) ↦
        let other : is_not_found e ≡ false =
          tx_block_found-own s _ e (λ x r. metadata_get-own s _ x r) q in
        absurd (ground arith)
    | inr (inr q) ↦ absurd (ground arith)
  ]

  module _ (chain_env : ChainEnv) (fuel : ℕ) (venv : ValidatorEnv) where
    check_txs-refused :
        (txs : List (TxId × Tx)) (id : TxId) (t : Tx) (s : IpfsStorage I D B)
        → (check_txs (ipfs_store env chain_env fuel) venv true ((id, t) ∷ txs) s).0 ≢ ok tt
    unfolding check_txs
    check_txs-refused txs id t s h =
        let (_, valid, h1) =
          continue-eq-ok (wrapped (is_tx_valid (ipfs_store env chain_env fuel) venv s t).0) _ s h in
        let (_, new, h2) = continue-eq-ok (not_in_block (get_tx_block env s id)) _ s h1 in
        in_some_block s id new

    -- Where the errors of pebble and of IPFS are their own, no new block with a transaction is ever
    -- found valid over the store on IPFS, whatever the store holds.
    pub new_block_refused :
        (b : Block) (s : IpfsStorage I D B) {txs rest : List (TxId × Tx)} {id : TxId} {t : Tx}
        → all_tx env fuel (mark_block env fuel b.id unvalidated s).1 b ≡ ok txs
        → venv.range_order txs ≡ (id, t) ∷ rest
        → (is_block_valid (ipfs_store env chain_env fuel) venv b true s).0 ≢ ok tt
    unfolding is_block_valid finish_trial trial
    new_block_refused b s {txs} {rest} {id} {t} walked order h =
        let m = mark_block env fuel b.id unvalidated in
        let (_, marked, h1) = >>=-eq-ok (wrapped_exec m) _ s h in
        let s1 = (m s).1 in
        let (txs', walked', h2) = continue-eq-ok (wrapped (all_tx env fuel s1 b)) _ s1 h1 in
        let (t1, started, h3) = continue-eq-ok (wrapped (start_test env s1)) _ s1 h2 in
        let same : txs' ≡ txs = ground (arith, wrapped-eq-ok _ walked') in
        let tried : trial (ipfs_store env chain_env fuel) venv b true txs' t1 ≡ ok tt =
          deferred-eq-ok (trial (ipfs_store env chain_env fuel) venv b true txs' t1)
            (complete_test env s1).0 h3 in
        let (_, checked, _) =
          >>=-eq-ok (check_txs (ipfs_store env chain_env fuel) venv true (venv.range_order txs')) _
            t1 tried in
        check_txs-refused rest id t t1 (rw (same, order) at checked)

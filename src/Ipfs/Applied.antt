-- ===== src/Ipfs/Applied.antt =====
-- The last block applied, in the store over IPFS (internal/storage/ipfs.go).
use didem.Base.{
  ◌<◌, ◌^◌, false, pure, continue-eq-ok, arith, ℕ, none, some, List, [], ◌∷◌, ok, err, ◌>>=◌,
  >>=-eq-ok, wrapped-eq-ok, wrapped, wrap, invalid_cid, ◌≡◌, refl, ◌then?◌, ◌∙◌,
}
use didem.W3cdid.Url.{text_bytes}
use didem.Tx.{Bytes, TxId, Tx}
use didem.Storage.Chain.{BlockId, validated, accepted}
use didem.Storage.TxSet.{wrapped_exec}
use didem.Ipfs.{IpfsEnv, IpfsStorage, found, in_node, metadata_get, metadata_set}
use didem.Ipfs.Keys.{typed_key, latest_block, uint32, block_state, put_uint32}
use didem.Ipfs.KeyLaws.{uint32-put_uint32}
use didem.Ipfs.Objects.{get_block, all_tx}
use didem.Ipfs.Index.{
  index_and_commit, index_found, index_block, accept_block, mark_block, old_state, accept_now,
}
use didem.Ipfs.Genesis.{update_last_applied, last_applied, get_last_applied}
use didem.Ipfs.Keeps.{Keeps, continue-keeps, Keeps-bind}

-- A value that pebble sets without an error is what it gives for the key behind that.
abbrev pub ReadsBack : {I D B : Type 0} → IpfsEnv I D B → Type 0
ReadsBack {D = D} env =
    (d : D) (k v : Bytes)
    → (env.kv.set k v d).0 ≡ ok tt
    → env.kv.get (env.kv.set k v d).1 k ≡ found v

abbrev pub IsIdle : {I D B : Type 0} → IpfsStorage I D B → Type 0
IsIdle s = s.pf_tip_apply ≡ none

module _ {I D B : Type 0} (env : IpfsEnv I D B) where
  metadata_get-set :
      (k v : Bytes) (s : IpfsStorage I D B)
      → ReadsBack env
      → IsIdle s
      → (metadata_set env k v s).0 ≡ ok tt
      → metadata_get env (metadata_set env k v s).1 k ≡ found v
  unfolding metadata_get metadata_set
  metadata_get-set k v s back idle h = rw idle (back s.metadata k v (rw idle at h))

  metadata_set-IsIdle :
      (k v : Bytes) (s : IpfsStorage I D B) → IsIdle s → IsIdle (metadata_set env k v s).1
  unfolding metadata_set
  metadata_set-IsIdle k v s idle = rw idle refl

  -- what was set as the latest block
  latest :
      (v : Bytes) (s : IpfsStorage I D B)
      → ReadsBack env
      → IsIdle s
      → (metadata_set env (typed_key latest_block []) v s).0 ≡ ok tt
      → get_last_applied env (metadata_set env (typed_key latest_block []) v s).1
        ≡ last_applied env (metadata_set env (typed_key latest_block []) v s).1 (found v)
  unfolding get_last_applied
  latest v s back idle h = rw (metadata_get-set (typed_key latest_block []) v s back idle h) refl

  -- `UpdateLastApplied` writes the text of a CID and `GetLastApplied` reads its bytes: where the text
  -- is not the bytes of any CID, the last block that was set without an error cannot be read.
  pub get_last_applied-update_last_applied :
      (id : BlockId) (s : IpfsStorage I D B)
      → ReadsBack env
      → IsIdle s
      → env.cids.cast (text_bytes (env.cids.to_string id)) ≡ none
      → (update_last_applied env id s).0 ≡ ok tt
      → get_last_applied env (update_last_applied env id s).1 ≡ err (wrap invalid_cid)
  unfolding update_last_applied last_applied
  get_last_applied-update_last_applied id s back idle bad h =
      latest (text_bytes (env.cids.to_string id)) s back idle (wrapped-eq-ok _ h) ∙ rw bad refl

  module _ (fuel : ℕ) where
    Keeps-index_found :
        (id : BlockId) (txs : List (TxId × Tx)) → Keeps IsIdle (index_found env id txs)
    unfolding index_found index_and_commit
    Keeps-index_found id txs = record {
      at = λ s idle. rw idle (continue-keeps IsIdle _ _ _ (λ _. record { at = λ t h. h }) refl);
    }

    Keeps-index_block : (id : BlockId) → Keeps IsIdle (index_block env fuel id)
    unfolding index_block
    Keeps-index_block id = record {
      at = λ s idle.
          continue-keeps IsIdle
            (wrapped (get_block env s id) then? λ b. wrapped (all_tx env fuel s b)) _ s
            (λ txs.
              Keeps-bind IsIdle (wrapped_exec (in_node (env.api.pin id))) _
                (record { at = λ t h. h }) (λ _. Keeps-index_found id (env.codec.range_order txs)))
            idle;
    }

    accept_block-latest :
        (id : BlockId) (s : IpfsStorage I D B)
        → ReadsBack env
        → IsIdle s
        → env.cids.cast (env.cids.to_bytes id) ≡ some id
        → (accept_block env fuel id s).0 ≡ ok tt
        → get_last_applied env (accept_block env fuel id s).1
          ≡ (get_block env (accept_block env fuel id s).1 id then? λ b. ok (some b))
    unfolding accept_block last_applied
    accept_block-latest id s back idle good h =
        let index = wrapped_exec (index_block env fuel id) in
        let (_, indexed, h1) = >>=-eq-ok index _ s h in
        let s1 = (index s).1 in
        let idle1 : IsIdle s1 = (Keeps-index_block id).at s idle in
        rw indexed (latest (env.cids.to_bytes id) s1 back idle1 (wrapped-eq-ok _ h1) ∙ rw good refl)

    -- accepting a validated block
    get_last_applied-mark_block :
        (id : BlockId) (s : IpfsStorage I D B) {old : Bytes}
        → ReadsBack env
        → IsIdle s
        → env.cids.cast (env.cids.to_bytes id) ≡ some id
        → metadata_get env s (typed_key block_state (env.cids.to_string id ∷ [])) ≡ found old
        → uint32 old ≡ ok 1
        → (mark_block env fuel id accepted s).0 ≡ ok tt
        → get_last_applied env (mark_block env fuel id accepted s).1
          ≡ (get_block env (mark_block env fuel id accepted s).1 id then? λ b. ok (some b))
    unfolding mark_block
    get_last_applied-mark_block id s {old} back idle good was one h =
        let k = typed_key block_state (env.cids.to_string id ∷ []) in
        let write = wrapped_exec (metadata_set env k (put_uint32 2)) in
        let run : mark_block env fuel id accepted s ≡ (write >>= λ _. accept_block env fuel id) s =
          rw (was, one) refl in
        let h' : ((write >>= λ _. accept_block env fuel id) s).0 ≡ ok tt = (rw run at h) in
        let (_, written, h1) = >>=-eq-ok write _ s h' in
        let s1 = (write s).1 in
        let idle1 : IsIdle s1 = metadata_set-IsIdle k (put_uint32 2) s idle in
        rw (run, written) (accept_block-latest id s1 back idle1 good h1)

    -- what marking a block as validated leaves behind
    validated_found :
        (id : BlockId) (s : IpfsStorage I D B)
        → ReadsBack env
        → IsIdle s
        → (mark_block env fuel id validated s).0 ≡ ok tt
        → IsIdle (mark_block env fuel id validated s).1
          × (metadata_get env
                (mark_block env fuel id validated s).1
                (typed_key block_state (env.cids.to_string id ∷ []))
              ≡ found (put_uint32 1))
    unfolding mark_block
    validated_found id s back idle h =
        let k = typed_key block_state (env.cids.to_string id ∷ []) in
        let write = wrapped_exec (metadata_set env k (put_uint32 1)) in
        let (old, was, h1) =
          continue-eq-ok (old_state env fuel (metadata_get env s k) then? uint32) _ s h in
        let no_accept : accept_now env fuel old validated ≡ false = ground arith in
        let run : mark_block env fuel id validated s ≡ (write >>= λ _. pure tt) s =
          rw (was, no_accept) refl in
        let h2 : ((write >>= λ _. pure tt) s).0 ≡ ok tt = (rw run at h) in
        let (_, written, _) = >>=-eq-ok write _ s h2 in
        rw (run, written)
          (
            metadata_set-IsIdle k (put_uint32 1) s idle,
            metadata_get-set k (put_uint32 1) s back idle (wrapped-eq-ok _ written),
          )

    small_state : 1 < 2 ^ 32
    small_state = ground arith

    -- Outside a trial, marking a block as validated and then as accepted, without an error, makes it
    -- the last block applied: `GetLastApplied` gives what the store holds under its CID.
    pub get_last_applied-accepted :
        (id : BlockId) (s : IpfsStorage I D B)
        → ReadsBack env
        → IsIdle s
        → env.cids.cast (env.cids.to_bytes id) ≡ some id
        → (mark_block env fuel id validated s).0 ≡ ok tt
        → (mark_block env fuel id accepted (mark_block env fuel id validated s).1).0 ≡ ok tt
        → get_last_applied env
            (mark_block env fuel id accepted (mark_block env fuel id validated s).1).1
          ≡ (get_block env
                (mark_block env fuel id accepted (mark_block env fuel id validated s).1).1
                id
              then? λ b. ok (some b))
    get_last_applied-accepted id s back idle good first second =
        let (idle1, known) = validated_found id s back idle first in
        get_last_applied-mark_block id (mark_block env fuel id validated s).1 back idle1 good known
          (uint32-put_uint32 1 small_state) second

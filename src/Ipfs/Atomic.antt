-- ===== src/Ipfs/Atomic.antt =====
-- Indexing a block in the store over IPFS as a whole (`indexBlock`, internal/storage/ipfs.go).
use didem.Base.{
  ℕ, false, none, some, List, Result, ok, Exec, wrapped, wrapped-eq-ok, ◌then?◌, then?-eq-ok, ◌≡◌,
  ◌≢◌, ◌⊎◌, inl, inr, refl, All, Result-cases, sym, ap, subst,
}
use didem.Tx.{TxId, Tx}
use didem.Storage.Chain.{BlockId, Block}
use didem.Ipfs.{IpfsEnv, IpfsStorage, in_node}
use didem.Ipfs.Objects.{get_block, all_tx}
use didem.Ipfs.Entries.{with_writes, block_entries}
use didem.Ipfs.IndexLaws.{IsIndexable, index_txs-IsIndexable, index_txs-entries}
use didem.Ipfs.Index.{index_txs, index_and_commit, index_in_trial, index_found, index_block}

module _ {I D B : Type 0} (env : IpfsEnv I D B) where
  module _ (fuel : ℕ) where
    -- One batch was committed to the metadata: a new one with the entries of every transaction that the
    -- walk of the block's tree finds, and no others. Each of them can be indexed, so it has entries.
    pub record IsCommitted (id : BlockId) (s s' : IpfsStorage I D B) : Type 0 where
      pub block : Block
      pub txs : List (TxId × Tx)
      pub got : get_block env s id ≡ ok block
      pub walked : all_tx env fuel s block ≡ ok txs
      pub indexable : All (λ (i, t). IsIndexable t.type t) (env.codec.range_order txs)
      pub committed :
          s'.metadata
          ≡ (env.kv.commit
              (with_writes env
                (block_entries env id (env.codec.range_order txs))
                (env.kv.new_batch s.metadata))
              s.metadata).1

    index_and_commit-atomic :
        (id : BlockId) (txs : List (TxId × Tx)) (s : IpfsStorage I D B)
        → (((index_and_commit env id txs s).0 ≢ ok tt)
            × ((index_and_commit env id txs s).1.metadata ≡ s.metadata))
          ⊎ (All (λ (i, t). IsIndexable t.type t) txs
              × ((index_and_commit env id txs s).1.metadata
                  ≡ (env.kv.commit
                      (with_writes env (block_entries env id txs) (env.kv.new_batch s.metadata))
                      s.metadata).1))
    unfolding index_and_commit
    index_and_commit-atomic id txs s =
        let start : I × B = (s.ipfs_node, env.kv.new_batch s.metadata) in
        elim (Result-cases (index_txs env false id txs start).0) [
          | inl (_, q) ↦ inr (
            index_txs-IsIndexable env false id txs start q,
            rw q (
                ap (λ b. (env.kv.commit b s.metadata).1)
                  (index_txs-entries env false id txs start q)),
          )
          | inr (inl (e, q)) ↦ inl ((λ h. cc), rw q refl)
          | inr (inr q) ↦ inl ((λ h. cc), rw q refl)
        ]

    index_found-idle :
        (id : BlockId) (txs : List (TxId × Tx)) (s : IpfsStorage I D B)
        → s.pf_tip_apply ≡ none
        → index_found env id txs s ≡ index_and_commit env id txs s
    unfolding index_found
    index_found-idle id txs s idle =
        ap
          (λ o. elim o [
            | some b ↦ index_in_trial env id txs b s
            | none ↦ index_and_commit env id txs s
          ])
          idle

    -- An outcome leaves the metadata as it was, with an error or a panic, or has the batch committed.
    abbrev pub IsAtomic : BlockId → IpfsStorage I D B → Result Unit × IpfsStorage I D B → Type 0
    IsAtomic id s r = ((r.0 ≢ ok tt) × (r.1.metadata ≡ s.metadata)) ⊎ IsCommitted id s r.1

    -- Outside a trial, indexing a block leaves the metadata as it was, with an error or a panic, or it
    -- commits, at once, one new batch. For every transaction that the walk of the block's tree finds,
    -- in the order of the loop, that batch sets the block of the transaction; for a change of a DID, an
    -- entry of the DID's history, and the DID's own entry, which a revocation deletes; for a change of a
    -- node, the node's entry, likewise. It has no other entries, and every transaction is such a change.
    pub index_block-IsAtomic :
        (id : BlockId) (s : IpfsStorage I D B)
        → s.pf_tip_apply ≡ none
        → IsAtomic id s (index_block env fuel id s)
    unfolding index_block
    index_block-IsAtomic id s idle =
        let looked = wrapped (get_block env s id) then? λ b. wrapped (all_tx env fuel s b) in
        let pin : Exec (IpfsStorage I D B) Unit = in_node (env.api.pin id) in
        let s1 = (pin s).1 in
        elim (Result-cases looked) [
          | inl (txs, q) ↦
              let (block, got, walked) = then?-eq-ok (wrapped (get_block env s id)) _ q in
              let order = env.codec.range_order txs in
              elim (Result-cases (pin s).0) [
                | inl (_, pinned) ↦
                    let run : index_block env fuel id s ≡ index_and_commit env id order s1 =
                      rw (q, pinned) (index_found-idle id order s1 idle) in
                    subst (IsAtomic id s) (sym run) (elim (index_and_commit-atomic id order s1) [
                      | inl failed ↦ inl failed
                      | inr (indexable, committed) ↦ inr (record {
                        block = block;
                        txs = txs;
                        got = wrapped-eq-ok _ got;
                        walked = wrapped-eq-ok _ walked;
                        indexable = indexable;
                        committed = committed;
                      })
                    ])
                | inr (inl (e, pinned)) ↦ rw (q, pinned) (inl ((λ h. cc), refl))
                | inr (inr pinned) ↦ rw (q, pinned) (inl ((λ h. cc), refl))
              ]
          | inr (inl (e, q)) ↦ rw q (inl ((λ h. cc), refl))
          | inr (inr q) ↦ rw q (inl ((λ h. cc), refl))
        ]

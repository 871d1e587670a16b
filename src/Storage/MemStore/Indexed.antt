-- ===== src/Storage/MemStore/Indexed.antt =====
-- Lemmas on what accepting a block writes to the in-memory store (`MarkBlock`, pkg/storage/memstore.go).
use didem.Base.{
  some, List, [], ◌∷◌, ok, ◌≡◌, arith, refl, sym, subst, nat_eq, lookup, insert, lookup-insert,
  beq_refl, wrapped, ◌then?◌, then?-eq-ok, wrapped-eq-ok, continue-eq-ok, All, Result-cases, inl,
  inr,
}
use didem.Tx.{TxId, Tx}
use didem.Storage.Chain.{BlockId, validated, accepted, Block}
use didem.Storage.Codec.{Codec}
use didem.Storage.MemStore.{MemStore, get_block, get_obj}
use didem.Storage.MemStore.Walk.{all_tx}
use didem.Storage.MemStore.Apply.{
  apply_tx, apply_type, apply_txs, index_tx, index_block_tx, mark_block, exec_wrapped,
}

module _ (c : Codec) where
  -- applying a transaction leaves the index alone
  apply_tx-txb_index :
      (id : TxId) (t : Tx) (m : MemStore) → (apply_tx c id t m).1.txb_index ≡ m.txb_index
  unfolding apply_tx apply_type
  apply_tx-txb_index id t m = ground arith

  step-txb_index :
      (b : BlockId) (id : TxId) (t : Tx) (m : MemStore)
      → (exec_wrapped (apply_tx c id t) (index_tx c id b m).1).1.txb_index ≡ insert id b m.txb_index
  step-txb_index b id t m = apply_tx-txb_index id t (index_tx c id b m).1

  abbrev pub IsIndexed : BlockId → MemStore → TxId × Tx → Type 0
  IsIndexed b m (id, t) = lookup id m.txb_index ≡ some b

  -- what was in the index for the block stays
  apply_txs-keeps :
      (b : BlockId) (txs : List (TxId × Tx)) (m : MemStore) (id : TxId)
      → lookup id m.txb_index ≡ some b
      → lookup id (apply_txs c b txs m).1.txb_index ≡ some b
  unfolding apply_txs
  apply_txs-keeps b [] m id h = h
  apply_txs-keeps b ((k, t) ∷ txs) m id h =
      elim (Result-cases (apply_tx c k t (index_tx c k b m).1).0) [
        | inl (_, q) ↦ rw q (
            apply_txs-keeps b txs _ id (
              subst (λ x. lookup id x ≡ some b) (sym (step-txb_index b k t m))
                (rw lookup-insert (ground arith))))
        | inr (inl (x, q)) ↦ rw q (
            subst (λ x. lookup id x ≡ some b) (sym (step-txb_index b k t m))
              (rw lookup-insert (ground arith)))
        | inr (inr q) ↦ rw q (
            subst (λ x. lookup id x ≡ some b) (sym (step-txb_index b k t m))
              (rw lookup-insert (ground arith)))
      ]

  apply_txs-IsIndexed :
      (b : BlockId) (txs : List (TxId × Tx)) (m : MemStore)
      → (apply_txs c b txs m).0 ≡ ok tt
      → All (IsIndexed b (apply_txs c b txs m).1) txs
  unfolding apply_txs
  apply_txs-IsIndexed b [] m h = tt
  apply_txs-IsIndexed b ((k, t) ∷ txs) m h =
      elim (Result-cases (apply_tx c k t (index_tx c k b m).1).0) [
        | inl (_, q) ↦
            let m1 = (exec_wrapped (apply_tx c k t) (index_tx c k b m).1).1 in
            let same : apply_txs c b ((k, t) ∷ txs) m ≡ apply_txs c b txs m1 = (rw q refl) in
            subst (λ r. All (IsIndexed b r.1) ((k, t) ∷ txs)) (sym same)
              (
                apply_txs-keeps b txs m1 k (
                    subst (λ x. lookup k x ≡ some b) (sym (step-txb_index b k t m))
                      (rw lookup-insert (rw (beq_refl k) refl))),
                apply_txs-IsIndexed b txs m1 (subst (λ r. r.0 ≡ ok tt) same h),
              )
        | inr (inl (x, q)) ↦ absurd (ground arith)
        | inr (inr q) ↦ absurd (ground arith)
      ]

  -- Where a block was validated and is then marked as accepted without an error, the index leads
  -- from every transaction of the block, as the walk of its tree finds them, to the block.
  pub mark_block_indexes :
      (b : BlockId) (m : MemStore)
      → lookup b m.b_state ≡ some validated
      → (mark_block c b accepted m).0 ≡ ok tt
      → (block : Block) × (txs : List (TxId × Tx)) × (get_block c m b ≡ ok block)
        × (all_tx c (record m { b_state = insert b accepted m.b_state }) block ≡ ok txs)
        × All (IsIndexed b (mark_block c b accepted m).1) (c.range_order txs)
  unfolding mark_block index_block_tx get_block get_obj
  mark_block_indexes b m known h =
      let marked = record m { b_state = insert b accepted m.b_state } in
      let h' : (index_block_tx c b marked).0 ≡ ok tt = (rw known at h) in
      let (txs, found, applied) =
        continue-eq-ok (get_block c marked b then? λ block. wrapped (all_tx c marked block)) _
          marked h' in
      let (block, got, walked) = then?-eq-ok (get_block c marked b) _ found in
      (
        block,
        txs,
        got,
        wrapped-eq-ok _ walked,
        rw (known, found) (apply_txs-IsIndexed b (c.range_order txs) marked applied),
      )

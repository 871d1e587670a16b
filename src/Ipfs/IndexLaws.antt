-- ===== src/Ipfs/IndexLaws.antt =====
-- Lemmas on the indexing of a block in the store over IPFS (`indexBlock`, internal/storage/ipfs.go).
use didem.Base.{
  Bool, true, false, ◌>>=◌, ◌∙◌, List, [], ◌∷◌, ok, Exec, wrapped-eq-ok, >>=-eq-ok, continue-eq-ok,
  ◌≡◌, ◌⊎◌, inl, inr, refl, arith, All, Result-cases, sym, ap,
}
use didem.W3cdid.Document.{Document}
use didem.Tx.{
  Bytes, TxId, Tx, TxType, TxAction, tx_type_did, tx_type_vc, tx_type_node, other_type,
  tx_action_add, tx_action_update, tx_action_revoke, other_action, Node,
}
use didem.Storage.Chain.{BlockId}
use didem.Storage.MemStore.{as_node, document_of}
use didem.Storage.TxSet.{wrapped_exec}
use didem.Ipfs.{flip, IpfsEnv}
use didem.Ipfs.Keys.{typed_key, tx_block, did_table, did_history, nodes_table}
use didem.Ipfs.Entries.{
  with_writes, subject_entries, block_entries, with_writes-append, index_tx-entries,
}
use didem.Ipfs.Index.{
  recovered, or_close, node_index, did_index, index_tx_node, index_tx_did, index_tx_vc, index_tx,
  apply_to, on_batch, maybe_pin, index_txs,
}

recovered-eq-ok :
    {S A : Type 0} (f : Exec S A) (s : S) {a : A} → (recovered f s).0 ≡ ok a → (f s).0 ≡ ok a
recovered-eq-ok f s h = elim (Result-cases (f s).0) [
  | inl (x, q) ↦ ground arith
  | inr (inl (e, q)) ↦ absurd (ground arith)
  | inr (inr q) ↦ absurd (ground arith)
]

or_close-eq-ok :
    {S A : Type 0} (close : Exec S Unit) (f : Exec S A) (s : S) {a : A}
    → (or_close close f s).0 ≡ ok a
    → (f s).0 ≡ ok a
or_close-eq-ok close f s h = elim (Result-cases (f s).0) [
  | inl (x, q) ↦ ground arith
  | inr (inl (e, q)) ↦ elim (Result-cases (close (f s).1).0) [
    | inl (x, done) ↦ absurd (ground arith)
    | inr (inl (x, done)) ↦ absurd (ground arith)
    | inr (inr done) ↦ absurd (ground arith)
  ]
  | inr (inr q) ↦ absurd (ground arith)
]

recovered-state : {S A : Type 0} (f : Exec S A) (s : S) → (recovered f s).1 ≡ (f s).1
recovered-state f s = elim (Result-cases (f s).0) [
  | inl (x, q) ↦ ground arith
  | inr (inl (e, q)) ↦ ground arith
  | inr (inr q) ↦ ground arith
]

or_close-state :
    {S A : Type 0} (close : Exec S Unit) (f : Exec S A) (s : S) {a : A}
    → (f s).0 ≡ ok a
    → (or_close close f s).1 ≡ (f s).1
or_close-state close f s h = rw (or_close, h) refl

bind-state :
    {S A C : Type 0} (m : Exec S A) (f : A → Exec S C) (s : S) {a : A}
    → (m s).0 ≡ ok a
    → ((m >>= f) s).1 ≡ (f a (m s).1).1
bind-state m f s h = rw h refl

-- What a store can index of a type: a DID's document that is added, updated or revoked, a node that is
-- added or revoked.
abbrev pub IsIndexable : TxType → Tx → Type 0
IsIndexable tx_type_did t =
    (doc : Document) × (document_of t.data_ ≡ ok doc)
    × ((t.action ≡ tx_action_add) ⊎ ((t.action ≡ tx_action_update) ⊎ (t.action ≡ tx_action_revoke)))
IsIndexable tx_type_node t =
    (n : Node) × (as_node t.data_ ≡ ok n)
    × ((t.action ≡ tx_action_add) ⊎ (t.action ≡ tx_action_revoke))
IsIndexable tx_type_vc t = ⊥
IsIndexable (other_type _) t = ⊥

module _ {I D B : Type 0} (env : IpfsEnv I D B) where
  did_action :
      (act : TxAction) (k : Bytes) (id : TxId) (b : B)
      → (did_index env act k id b).0 ≡ ok tt
      → (act ≡ tx_action_add) ⊎ ((act ≡ tx_action_update) ⊎ (act ≡ tx_action_revoke))
  did_action tx_action_add k id b h = inl refl
  did_action tx_action_update k id b h = inr (inl refl)
  did_action tx_action_revoke k id b h = inr (inr refl)
  did_action (other_action _) k id b h = absurd (ground arith)

  node_action :
      (act : TxAction) (k : Bytes) (id : TxId) (b : B)
      → (node_index env act k id b).0 ≡ ok tt
      → (act ≡ tx_action_add) ⊎ (act ≡ tx_action_revoke)
  node_action tx_action_add k id b h = inl refl
  node_action tx_action_update k id b h = absurd (ground arith)
  node_action tx_action_revoke k id b h = inr refl
  node_action (other_action _) k id b h = absurd (ground arith)

  index_tx-IsIndexable :
      (ty : TxType) (t : Tx) (id : TxId) (b : B)
      → (index_tx env ty t id b).0 ≡ ok tt
      → IsIndexable ty t
  unfolding index_tx index_tx_did index_tx_node index_tx_vc
  index_tx-IsIndexable tx_type_did t id b h =
      let (doc, found, h1) = continue-eq-ok (document_of t.data_) _ b (wrapped-eq-ok _ h) in
      let write = wrapped_exec (
        env.kv.batch_set (typed_key did_history (doc.id ∷ env.cids.to_string id ∷ []))
          (env.cids.to_bytes id)) in
      let (_, _, h2) = >>=-eq-ok write _ b h1 in
      (doc, found, did_action t.action (typed_key did_table (doc.id ∷ [])) id (write b).1 h2)
  index_tx-IsIndexable tx_type_node t id b h =
      let (n, found, h1) = continue-eq-ok (as_node t.data_) _ b (wrapped-eq-ok _ h) in
      (n, found, node_action t.action (typed_key nodes_table (n.id ∷ [])) id b h1)
  index_tx-IsIndexable tx_type_vc t id b h = cc
  index_tx-IsIndexable (other_type _) t id b h = cc

  -- A block whose transactions are all indexed without an error, in a trial or not, has none but
  -- changes of DIDs and nodes: no claim, which the validator accepts, and no unknown action.
  pub index_txs-IsIndexable :
      (in_trial : Bool) (block : BlockId) (txs : List (TxId × Tx)) (s : I × B)
      → (index_txs env in_trial block txs s).0 ≡ ok tt
      → All (λ (id, t). IsIndexable t.type t) txs
  unfolding index_txs apply_to
  index_txs-IsIndexable in_trial block [] s h = tt
  index_txs-IsIndexable in_trial block ((id, t) ∷ txs) s h =
      let write = wrapped_exec (
        on_batch env (
          env.kv.batch_set (typed_key tx_block (env.cids.to_string id ∷ []))
            (env.cids.to_bytes block))) in
      let apply = or_close env.kv.batch_close (apply_to env id t) in
      let (_, _, h1) = >>=-eq-ok write _ s h in
      let s1 = (write s).1 in
      let (_, applied, h2) = >>=-eq-ok (wrapped_exec (on_batch env apply)) _ s1 h1 in
      let s2 = (on_batch env apply s1).1 in
      let (_, _, h3) = >>=-eq-ok (maybe_pin env in_trial id) _ s2 h2 in
      let indexed : (index_tx env t.type t id s1.1).0 ≡ ok tt =
        recovered-eq-ok (index_tx env t.type t id) s1.1
          (or_close-eq-ok env.kv.batch_close (apply_to env id t) s1.1 (wrapped-eq-ok _ applied)) in
      (
        index_tx-IsIndexable t.type t id s1.1 indexed,
        index_txs-IsIndexable in_trial block txs (maybe_pin env in_trial id s2).1 h3,
      )

  maybe_pin-batch :
      (in_trial : Bool) (id : TxId) (s : I × B) → (maybe_pin env in_trial id s).1.1 ≡ s.1
  unfolding maybe_pin flip
  maybe_pin-batch true id s = refl
  maybe_pin-batch false id s = ground arith

  apply_to-entries :
      (id : TxId) (t : Tx) (b : B)
      → (or_close env.kv.batch_close (apply_to env id t) b).0 ≡ ok tt
      → (or_close env.kv.batch_close (apply_to env id t) b).1
        ≡ with_writes env (subject_entries env t.type t id) b
  unfolding apply_to
  apply_to-entries id t b h =
      let done = or_close-eq-ok env.kv.batch_close (apply_to env id t) b h in
      or_close-state env.kv.batch_close (apply_to env id t) b done
      ∙ recovered-state (index_tx env t.type t id) b
      ∙ index_tx-entries env t.type t id b (recovered-eq-ok (index_tx env t.type t id) b done)

  -- Where all transactions are indexed, the batch has the entries of each of them, and no others.
  pub index_txs-entries :
      (in_trial : Bool) (block : BlockId) (txs : List (TxId × Tx)) (s : I × B)
      → (index_txs env in_trial block txs s).0 ≡ ok tt
      → (index_txs env in_trial block txs s).1.1 ≡ with_writes env (block_entries env block txs) s.1
  unfolding index_txs
  index_txs-entries in_trial block [] s h = refl
  index_txs-entries in_trial block ((id, t) ∷ txs) s h =
      let write = wrapped_exec (
        on_batch env (
          env.kv.batch_set (typed_key tx_block (env.cids.to_string id ∷ []))
            (env.cids.to_bytes block))) in
      let apply = or_close env.kv.batch_close (apply_to env id t) in
      let (_, w, h1) = >>=-eq-ok write _ s h in
      let s1 = (write s).1 in
      let (_, applied, h2) = >>=-eq-ok (wrapped_exec (on_batch env apply)) _ s1 h1 in
      let s2 = (on_batch env apply s1).1 in
      let (_, pinned, h3) = >>=-eq-ok (maybe_pin env in_trial id) _ s2 h2 in
      let s3 = (maybe_pin env in_trial id s2).1 in
      let b2 =
        maybe_pin-batch in_trial id s2 ∙ apply_to-entries id t s1.1 (wrapped-eq-ok _ applied) in
      ap (λ p. p.1)
        (bind-state write _ s w
          ∙ bind-state (wrapped_exec (on_batch env apply)) _ s1 applied
          ∙ bind-state (maybe_pin env in_trial id) _ s2 pinned)
      ∙ index_txs-entries in_trial block txs s3 h3
      ∙ ap (with_writes env (block_entries env block txs)) b2
      ∙ sym (
          with_writes-append env (subject_entries env t.type t id) (block_entries env block txs)
            s1.1)

-- ===== src/Ipfs/Trial.antt =====
-- What a trial of the store over IPFS leaves alone (internal/storage/ipfs.go).
use didem.Base.{
  ℕ, Bool, true, false, some, List, [], ◌∷◌, Result, ok, err, panic, Exec, wrapped, continue, ◌≡◌,
  ◌⊎◌, inl, inr, refl, ap, ◌∙◌, ◌>>=◌, pure, if◌then◌else◌,
}
use didem.Tx.{Bytes, TxId, Tx}
use didem.Storage.Chain.{BlockId, BlockState}
use didem.Storage.TxSet.{ChainEnv, wrapped_exec}
use didem.Ipfs.Keys.{typed_key, tx_block, block_state, state_code, put_uint32}
use didem.Storage.Validator.{ValidatorEnv, is_tx_valid, new_in, check_txs}
use didem.Ipfs.{IpfsEnv, IpfsStorage, in_node, metadata_set}
use didem.Ipfs.Index.{
  on_batch, or_close, apply_to, apply_tx, maybe_pin, index_txs, index_found, index_in_trial,
  index_block, accept_now, accept_block, mark_block,
}
use didem.Ipfs.Keeps.{Keeps, continue-keeps, Keeps-bind, Keeps-wrapped, Keeps-lift}
use didem.Ipfs.Impl.{ipfs_store}

-- `s` is a trial over the metadata `d` and the IPFS node `i`
abbrev pub IsTrialOf : {I D B : Type 0} → D → I → IpfsStorage I D B → Type 0
IsTrialOf {B = B} d i s =
    (s.metadata ≡ d) × (s.ipfs_node ≡ i) × ((b : B) × (s.pf_tip_apply ≡ some b))

module _ {I D B : Type 0} (env : IpfsEnv I D B) where
  continue-node :
      {A C : Type 0} (r : Result A) (f : A → Exec (I × B) C) (s : I × B)
      → ((a : A) (s' : I × B) → (f a s').1.0 ≡ s'.0)
      → (continue r f s).1.0 ≡ s.0
  continue-node (ok a) f s h = h a s
  continue-node (err e) f s h = refl
  continue-node panic f s h = refl

  then-node :
      {A C : Type 0} (m : Exec B A) (f : A → Exec (I × B) C) (s : I × B)
      → ((a : A) (s' : I × B) → (f a s').1.0 ≡ s'.0)
      → ((wrapped_exec (on_batch env m) >>= f) s).1.0 ≡ s.0
  then-node m f s h = continue-node (wrapped (m s.1).0) f (s.0, (m s.1).1) h

  -- In a trial none of the transactions is pinned.
  index_txs-node :
      (block : BlockId) (txs : List (TxId × Tx)) (s : I × B)
      → (index_txs env true block txs s).1.0 ≡ s.0
  unfolding index_txs maybe_pin
  index_txs-node block [] s = refl
  index_txs-node block ((id, t) ∷ txs) s =
      let rest = index_txs env true block txs in
      then-node
        (env.kv.batch_set (typed_key tx_block (env.cids.to_string id ∷ []))
          (env.cids.to_bytes block))
        (λ _. wrapped_exec (on_batch env (or_close env.kv.batch_close (apply_to env id t))) >>= λ _.
          rest)
        s
        (λ _ s1.
          then-node (or_close env.kv.batch_close (apply_to env id t)) (λ _. rest) s1
            (λ _ s2. index_txs-node block txs s2))

  -- The trial goes on, and the node is the one from before, or that one with the block pinned.
  abbrev pub IsPinnedTrial : D → I → BlockId → IpfsStorage I D B → Type 0
  IsPinnedTrial d i id s = (IsTrialOf d i s) ⊎ (IsTrialOf d (env.api.pin id i).1 s)

module _ {I D B : Type 0} (env : IpfsEnv I D B) (fuel : ℕ) (d : D) (i : I) where
  Keeps-metadata_set : (k v : Bytes) → Keeps (IsTrialOf d i) (metadata_set env k v)
  unfolding metadata_set
  Keeps-metadata_set k v = record {
    at = λ s (same, node, (b, trying)). rw trying (same, node, ((env.kv.batch_set k v b).1, refl));
  }

  Keeps-apply_tx : (id : TxId) (t : Tx) → Keeps (IsTrialOf d i) (apply_tx env id t)
  unfolding apply_tx
  Keeps-apply_tx id t = record {
    at = λ s (same, node, (b, trying)). rw trying (same, node, (_, refl));
  }

  Keeps-index_found :
      (id : BlockId) (txs : List (TxId × Tx)) → Keeps (IsTrialOf d i) (index_found env id txs)
  unfolding index_found index_in_trial
  Keeps-index_found id txs = record {
    at = λ s (same, node, (b, trying)).
        rw trying (same, index_txs-node env id txs (s.ipfs_node, b) ∙ node, (_, refl));
  }

  check_txs-IsTrialOf :
      (chain_env : ChainEnv) (venv : ValidatorEnv) (is_new : Bool) (txs : List (TxId × Tx))
      (s : IpfsStorage I D B)
      → IsTrialOf d i s
      → IsTrialOf d i (check_txs (ipfs_store env chain_env fuel) venv is_new txs s).1
  unfolding check_txs
  check_txs-IsTrialOf chain_env venv is_new [] s h = h
  check_txs-IsTrialOf chain_env venv is_new ((id, t) ∷ txs) s h =
      let st = ipfs_store env chain_env fuel in
      let later : Keeps (IsTrialOf d i) (check_txs st venv is_new txs) = record {
        at = check_txs-IsTrialOf chain_env venv is_new txs;
      } in
      continue-keeps _ (wrapped (is_tx_valid st venv s t).0) _ s
        (λ _. Keeps-bind _ _ _ (Keeps-lift _ (new_in st venv is_new s id)) (λ _.
          Keeps-bind _ _ _ (Keeps-wrapped _ _ (Keeps-apply_tx id (is_tx_valid st venv s t).1))
            (λ _. later)))
        h

module _ {I D B : Type 0} (env : IpfsEnv I D B) (fuel : ℕ) (d : D) (i : I) (id : BlockId) where
  abbrev Pins : IpfsStorage I D B → Type 0
  Pins = IsPinnedTrial env d i id

  continue-Pins :
      {A C : Type 0} (r : Result A) (f : A → Exec (IpfsStorage I D B) C) (s : IpfsStorage I D B)
      → Pins s
      → ((a : A) → Pins (f a s).1)
      → Pins (continue r f s).1
  continue-Pins (ok a) f s h k = k a
  continue-Pins (err e) f s h k = h
  continue-Pins panic f s h k = h

  if-Pins :
      {A : Type 0} (b : Bool) (f g : Exec (IpfsStorage I D B) A) (s : IpfsStorage I D B)
      → Pins (f s).1
      → Pins (g s).1
      → Pins ((if b then f else g) s).1
  if-Pins true f g s h k = h
  if-Pins false f g s h k = k

  Keeps-metadata_set-Pins : (k v : Bytes) → Keeps Pins (metadata_set env k v)
  Keeps-metadata_set-Pins k v = record {
    at = λ s h. elim h [
      | inl h ↦ inl ((Keeps-metadata_set env fuel d i k v).at s h)
      | inr h ↦ inr ((Keeps-metadata_set env fuel d (env.api.pin id i).1 k v).at s h)
    ];
  }

  index_block-Pins : (s : IpfsStorage I D B) → IsTrialOf d i s → Pins (index_block env fuel id s).1
  unfolding index_block
  index_block-Pins s h =
      let pin : Exec (IpfsStorage I D B) Unit = in_node (env.api.pin id) in
      let find : List (TxId × Tx) → Exec (IpfsStorage I D B) Unit =
        λ txs. index_found env id (env.codec.range_order txs) in
      continue-Pins _ (λ txs. wrapped_exec pin >>= λ _. find txs) s (inl h)
        (λ txs. inr (
          continue-keeps (IsTrialOf d (env.api.pin id i).1) (wrapped (pin s).0) (λ _. find txs)
            (pin s).1
            (λ _. Keeps-index_found env fuel d (env.api.pin id i).1 id (env.codec.range_order txs))
            (h.0, ap (λ n. (env.api.pin id n).1) h.1, h.2)))

  accept_block-Pins :
      (s : IpfsStorage I D B) → IsTrialOf d i s → Pins (accept_block env fuel id s).1
  unfolding accept_block
  accept_block-Pins s h =
      continue-keeps Pins _ _ (index_block env fuel id s).1
        (λ _. Keeps-wrapped _ _ (Keeps-metadata_set-Pins _ _)) (index_block-Pins s h)

  mark_block-Pins :
      (state : BlockState) (s : IpfsStorage I D B)
      → IsTrialOf d i s
      → Pins (mark_block env fuel id state s).1
  unfolding mark_block
  mark_block-Pins state s h =
      let k = typed_key block_state (env.cids.to_string id ∷ []) in
      let set : Exec (IpfsStorage I D B) Unit =
        metadata_set env k (put_uint32 (state_code state)) in
      let finish : ℕ → Exec (IpfsStorage I D B) Unit =
        λ old. if accept_now env fuel old state then accept_block env fuel id else pure tt in
      let h1 = (Keeps-metadata_set env fuel d i k (put_uint32 (state_code state))).at s h in
      continue-Pins _ (λ old. wrapped_exec set >>= λ _. finish old) s (inl h)
        (λ old.
          continue-Pins (wrapped (set s).0) (λ _. finish old) (set s).1 (inl h1)
            (λ _.
              if-Pins (accept_now env fuel old state) (accept_block env fuel id) (pure tt) (set s).1
                (accept_block-Pins (set s).1 h1) (inl h1)))

  -- On a trial store, whatever the outcome is, checking the transactions of a block, new or not,
  -- leaves the metadata of the store and the IPFS node alone. Marking a block in any way leaves the
  -- metadata alone, also where the block is indexed, and leaves the IPFS node as it was but for a pin of
  -- that block, with no pin of its transactions. The trial goes on in either case.
  pub trial_isolated :
      (chain_env : ChainEnv) (venv : ValidatorEnv) (state : BlockState) (is_new : Bool)
      (txs : List (TxId × Tx)) (s : IpfsStorage I D B)
      → IsTrialOf d i s
      → IsPinnedTrial env d i id (mark_block env fuel id state s).1
        × IsTrialOf d i (check_txs (ipfs_store env chain_env fuel) venv is_new txs s).1
  trial_isolated chain_env venv state is_new txs s h =
      (mark_block-Pins state s h, check_txs-IsTrialOf env fuel d i chain_env venv is_new txs s h)

-- ===== src/Storage/Validator/BlockLaws.antt =====
-- Lemmas on `IsBlockValid` of pkg/storage/validator.go over the in-memory store.
use didem.Base.{
  Bool, true, false, some, List, [], ◌∷◌, Result, ok, err, panic, ◌≡◌, arith, refl, Error,
  is_not_found, >>=-eq-ok, wrapped, lookup-insert, beq_refl, continue-eq-ok, wrapped-eq-ok, insert,
  lookup, nat_eq, All,
}
use didem.Tx.{undef, TxId, Tx}
use didem.Storage.Chain.{BlockState, Block, unvalidated, validated, accepted}
use didem.Storage.Codec.{Codec}
use didem.Storage.MemStore.{MemStore, start_test, complete_test, get_tx_block, get_block, get_obj}
use didem.Storage.MemStore.Walk.{all_tx}
use didem.Storage.MemStore.Apply.{apply_tx, mark_block, or_unvalidated, is_acceptance}
use didem.Storage.MemStore.Impl.{mem_store}
use didem.Storage.TxSet.{wrapped_exec}
use didem.Storage.Validator.{
  ValidatorEnv, not_in_block, is_tx_valid, check_txs, trial, finish_trial, is_block_valid,
}
use didem.Storage.Validator.TxLaws.{IsWellFormed, is_tx_valid-IsWellFormed}

module _ (c : Codec) (env : ValidatorEnv) (b : Block) (is_new : Bool) (m : MemStore) where
  abbrev pub marked_unvalidated : MemStore
  marked_unvalidated = record m { b_state = insert b.id unvalidated m.b_state }

  not_acceptance : (s : BlockState) → is_acceptance s unvalidated ≡ false
  not_acceptance unvalidated = refl
  not_acceptance validated = refl
  not_acceptance accepted = refl

  pub mark_unvalidated : mark_block c b.id unvalidated m ≡ (ok tt, marked_unvalidated)
  unfolding mark_block
  mark_unvalidated = rw (not_acceptance (or_unvalidated (lookup b.id m.b_state)))

  -- Whatever its result is, `IsBlockValid` leaves the in-memory store as it was, but for the state
  -- of the block, which is unvalidated afterwards.
  pub is_block_valid_isolated : (is_block_valid (mem_store c) env b is_new m).1 ≡ marked_unvalidated
  unfolding is_block_valid finish_trial complete_test start_test
  is_block_valid_isolated = rw mark_unvalidated (ground arith)

  lookup-marked : lookup b.id marked_unvalidated.b_state ≡ some unvalidated
  lookup-marked = rw lookup-insert (rw (beq_refl b.id))

  -- After `IsBlockValid`, with any result, marking the block as accepted indexes nothing: the
  -- transactions of the block, the nodes and the DIDs are those from before.
  pub accepted_after_validation :
      mark_block c b.id accepted (is_block_valid (mem_store c) env b is_new m).1
      ≡ (ok tt, record m { b_state = insert b.id accepted (insert b.id unvalidated m.b_state) })
  unfolding mark_block
  accepted_after_validation = rw (is_block_valid_isolated, lookup-marked)

-- The error of a lookup that found nothing.
abbrev pub IsAbsent : Result Block → Type 0
IsAbsent r = (e : Error) × (r ≡ err e) × (is_not_found e ≡ true)

not_in_block-IsAbsent : (r : Result Block) → not_in_block r ≡ ok tt → IsAbsent r
not_in_block-IsAbsent (ok b) h = cc
not_in_block-IsAbsent (err e) h = (e, refl, ground arith)
not_in_block-IsAbsent panic h = cc

module _ (c : Codec) (env : ValidatorEnv) (m : MemStore) where
  -- the trial store finds blocks and their transactions as `m` does
  abbrev SameBlocks : MemStore → Type 0
  SameBlocks s = (s.objects ≡ m.objects) × (s.txb_index ≡ m.txb_index)

  apply_tx-SameBlocks :
      (id : TxId) (t : Tx) (s : MemStore) → SameBlocks s → SameBlocks (apply_tx c id t s).1
  unfolding apply_tx
  apply_tx-SameBlocks id t s h = ground arith

  get_tx_block-SameBlocks :
      (id : TxId) (s : MemStore) → SameBlocks s → get_tx_block c s id ≡ get_tx_block c m id
  unfolding get_tx_block get_block get_obj
  get_tx_block-SameBlocks id s h = rw (h.0, h.1)

  -- A transaction that the loop passed for a new block.
  abbrev pub IsPassed : TxId × Tx → Type 0
  IsPassed (id, t) = IsWellFormed t × IsAbsent (get_tx_block c m id)

  check_txs-IsPassed :
      (txs : List (TxId × Tx)) (s : MemStore)
      → SameBlocks s
      → (check_txs (mem_store c) env true txs s).0 ≡ ok tt
      → All IsPassed txs
  unfolding check_txs
  check_txs-IsPassed [] s same h = tt
  check_txs-IsPassed ((id, t) ∷ txs) s same h =
      let (_, valid, h1) = continue-eq-ok (wrapped (is_tx_valid (mem_store c) env s t).0) _ s h in
      let (_, new, h2) = continue-eq-ok (not_in_block (get_tx_block c s id)) _ s h1 in
      let (_, applied, h3) = >>=-eq-ok (wrapped_exec (apply_tx c id _)) _ s h2 in
      (
        (
          is_tx_valid-IsWellFormed (mem_store c) env s t (wrapped-eq-ok _ valid),
          rw (← get_tx_block-SameBlocks id s same) (not_in_block-IsAbsent _ new),
        ),
        check_txs-IsPassed txs (apply_tx c id _ s).1 (apply_tx-SameBlocks id _ s same) h3,
      )

  trial-of_valid :
      (b : Block) {txs : List (TxId × Tx)}
      → all_tx c (marked_unvalidated c env b true m) b ≡ ok txs
      → (is_block_valid (mem_store c) env b true m).0 ≡ ok tt
      → trial (mem_store c) env b true txs (record (marked_unvalidated c env b true m) {
        last_block = undef;
        genesis_applied = false;
      })
        ≡ ok tt
  unfolding is_block_valid finish_trial complete_test start_test
  trial-of_valid b found h = ground (arith, mark_unvalidated c env b true m)

  -- Every transaction of a new block that is found valid is well formed, about a DID or a claim, and
  -- in no block that the store has indexed.
  pub is_block_valid_sound :
      (b : Block) {txs : List (TxId × Tx)}
      → all_tx c (marked_unvalidated c env b true m) b ≡ ok txs
      → (is_block_valid (mem_store c) env b true m).0 ≡ ok tt
      → All IsPassed (env.range_order txs)
  unfolding trial
  is_block_valid_sound b {txs} found h =
      let test : MemStore = record (marked_unvalidated c env b true m) {
        last_block = undef;
        genesis_applied = false;
      } in
      let tried : trial (mem_store c) env b true txs test ≡ ok tt = trial-of_valid b found h in
      let (_, checked, _) =
        >>=-eq-ok (check_txs (mem_store c) env true (env.range_order txs)) _ test tried in
      check_txs-IsPassed (env.range_order txs) test (refl, refl) checked

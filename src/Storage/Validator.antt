-- ===== src/Storage/Validator.antt =====
-- pkg/storage/validator.go: what makes a transaction and a block valid, over any store.
pub mod TxLaws
pub mod BlockLaws
pub mod Shared
pub mod TipLaws
use didem.Base.{
  ℕ, zero, suc, Bool, true, false, ◌||◌, Option, none, some, List, [], ◌∷◌, String, string_eq,
  if◌then◌else◌, ◌==◌, nat_eq, nat_eqb, Error, Result, ok, err, panic, Exec, pure, fail, lift,
  ◌>>=◌, ◌>>◌, continue, wrapped, wrap, ◌then?◌, not_found, is_not_found, did_already_exists,
  did_invalid, did_invalid_signature, op_not_supported, tx_version_not_supported,
  tx_missing_timestamp, tx_missing_from, tx_unsupported_type, tx_missing_data, marshalling,
  tx_in_previous_block, out_of_fuel,
}
use didem.W3cdid.Document.{Document}
use didem.W3cdid.Url.{Url}
use didem.W3cdid.Valid.{is_valid, signed, Validators}
use didem.Tx.{
  Cid, undef, Bytes, Int64, pos, negsuc, TxId, Tx, TxType, TxAction, TxData, no_data, tx_type_did,
  tx_type_vc, tx_type_node, other_type, tx_action_add, tx_action_update, tx_action_revoke, version1,
}
use didem.Storage.Chain.{BlockId, unvalidated, validated, accepted, Block}
use didem.Storage.MemStore.{document_of}
use didem.Storage.Store.{Store}
use didem.Storage.TxSet.{wrapped_exec}

pub record ValidatorEnv : Type 0 where
  pub marshal_tx : Tx → Option Bytes
  pub validators : Validators
  -- the judgement of `url.Parse` on the part of a URL behind `//`
  pub authority : Url → Bool
  pub range_order : List (TxId × Tx) → List (TxId × Tx)

abbrev pub is_zero : Int64 → Bool
is_zero (pos n) = nat_eqb n 0
is_zero (negsuc n) = false

abbrev pub is_nil : TxData → Bool
is_nil no_data = true
is_nil _ = false

-- any error of a call becomes the error given
abbrev pub or_error : Error → Result Unit → Result Unit
or_error e (ok a) = ok a
or_error e (err _) = err e
or_error e panic = panic

-- the two cases of the switch in `isDIDTxValid`, from the result of `LookupDID`
module _ (vs : Validators) where
  -- `lookupErr != ErrNotFound` compares the error itself, so a wrapped one is not it.
  unfoldable pub add_valid : Document → Result (Option Document) → Bytes → Bytes → Result Unit
  add_valid doc (err not_found) sig msg = or_error did_invalid_signature (signed vs doc sig msg)
  add_valid doc panic sig msg = panic
  add_valid doc _ sig msg = err did_already_exists

  -- Where the lookup fails the code returns `errors.Wrap(err, …)` for another `err`, which is nil.
  -- `Signed` of a nil document panics.
  unfoldable pub change_valid : Result (Option Document) → Bytes → Bytes → Result Unit
  change_valid (ok none) sig msg = panic
  change_valid (ok (some existing)) sig msg =
      or_error did_invalid_signature (signed vs existing sig msg)
  change_valid (err _) sig msg = ok tt
  change_valid panic sig msg = panic

  unfoldable pub action_valid :
      TxAction → Document → Result (Option Document) → Bytes → Bytes → Result Unit
  unfolding add_valid change_valid
  action_valid tx_action_add doc existing sig msg = add_valid doc existing sig msg
  action_valid tx_action_update doc existing sig msg = change_valid existing sig msg
  action_valid tx_action_revoke doc existing sig msg = change_valid existing sig msg
  action_valid _ doc existing sig msg = err op_not_supported

abbrev pub or_marshalling : Option Bytes → Result Bytes
or_marshalling none = err (wrap marshalling)
or_marshalling (some b) = ok b

abbrev pub unsigned : Tx → Tx
unsigned t = record t { signature = [] }

-- the check for a block that has the transaction already
abbrev pub not_in_block : Result Block → Result Unit
not_in_block (ok _) = err tx_in_previous_block
not_in_block (err e) = if is_not_found e then ok tt else err (wrap e)
not_in_block panic = panic

-- the deferred call logs an error of `CompleteTest` and goes on
abbrev pub deferred : Result Unit → Result Unit → Result Unit
deferred r panic = panic
deferred r _ = r

module _ {S : Type 0} (st : Store S) (env : ValidatorEnv) where
  -- The transaction comes back with its signature cleared.
  unfoldable pub is_did_tx_valid : S → Tx → Result Unit × Tx
  unfolding action_valid
  is_did_tx_valid s t = elim (document_of t.data_) [
    | ok doc ↦ (
      or_marshalling (env.marshal_tx (unsigned t)) then? (λ msg.
          or_error did_invalid (is_valid env.authority doc) then? λ _.
          action_valid env.validators t.action doc (st.lookup_did s doc.id) t.signature msg),
      unsigned t,
    )
    | err e ↦ (err e, t)
    | panic ↦ (panic, t)
  ]

  unfoldable pub is_vc_tx_valid : S → Tx → Result Unit
  is_vc_tx_valid s t = ok tt

  unfoldable pub is_node_tx_valid : S → Tx → Result Unit
  is_node_tx_valid s t = err op_not_supported

  unfoldable pub type_valid : TxType → S → Tx → Result Unit × Tx
  unfolding is_did_tx_valid is_vc_tx_valid is_node_tx_valid
  type_valid tx_type_did s t = is_did_tx_valid s t
  type_valid tx_type_vc s t = (is_vc_tx_valid s t, t)
  type_valid tx_type_node s t = (is_node_tx_valid s t, t)
  type_valid (other_type _) s t = (err tx_unsupported_type, t)

  -- `IsTxValid`
  unfoldable pub is_tx_valid : S → Tx → Result Unit × Tx
  unfolding type_valid
  is_tx_valid s t =
      if nat_eqb t.version version1
      then (if is_zero t.ts
          then (err tx_missing_timestamp, t)
          else if t.from == ""
          then (err tx_missing_from, t)
          else if is_nil t.data_
          then (err tx_missing_data, t)
          else type_valid t.type s t)
      else (err tx_version_not_supported, t)

  abbrev pub new_in : Bool → S → TxId → Result Unit
  new_in true s id = not_in_block (st.get_tx_block s id)
  new_in false s id = ok tt

  -- the loop of `IsBlockValid`, on the trial store
  unfoldable pub check_txs : Bool → List (TxId × Tx) → Exec S Unit
  unfolding is_tx_valid
  check_txs is_new [] s = (ok tt, s)
  check_txs is_new ((id, t) ∷ txs) s =
      let (valid, t') = is_tx_valid s t in
      continue (wrapped valid)
        (λ _. lift (new_in is_new s id) >>= λ _.
          wrapped_exec (st.apply_tx id t') >>= λ _. check_txs is_new txs)
        s

  -- the work on the trial store
  abbrev pub try_block : Block → Bool → List (TxId × Tx) → Exec S Unit
  try_block b is_new txs =
      check_txs is_new (env.range_order txs) >>= λ _. wrapped_exec (st.mark_block b.id validated)

  -- The trial store itself is dropped, and its result alone is kept.
  unfoldable pub trial : Block → Bool → List (TxId × Tx) → S → Result Unit
  unfolding check_txs
  trial b is_new txs t = (try_block b is_new txs t).0

  unfoldable pub finish_trial : Result Unit → Exec S Unit
  finish_trial r s = let (done, s') = st.complete_test s in (deferred r done, s')

  -- `IsBlockValid`
  unfoldable pub is_block_valid : Block → Bool → Exec S Unit
  unfolding trial finish_trial
  is_block_valid b is_new = wrapped_exec (st.mark_block b.id unvalidated) >>= λ _ s.
      continue (wrapped (st.all_tx s b))
        (λ txs s'.
          continue (wrapped (st.start_test s')) (λ t. finish_trial (trial b is_new txs t)) s')
        s

  -- The blocks from the tip back to the last one applied; putting each parent in front gives the
  -- inverted queue.
  unfoldable pub fetch : ℕ → S → BlockId → Block → List Block → Result (List Block)
  fetch zero s last tip queue =
      if nat_eqb tip.id last || nat_eqb tip.id undef then ok queue else err out_of_fuel
  fetch (suc fuel) s last tip queue =
      let older = wrapped (st.get_block s tip.parent) then? λ b. fetch fuel s last b (b ∷ queue) in
      if nat_eqb tip.id last || nat_eqb tip.id undef then ok queue else older

  -- validate and mark each block
  unfoldable pub apply_blocks : List Block → Exec S Unit
  unfolding is_block_valid
  apply_blocks [] = pure tt
  apply_blocks (b ∷ bs) = wrapped_exec (is_block_valid b true) >>= λ _.
      wrapped_exec (st.mark_block b.id accepted) >>= λ _. apply_blocks bs

  abbrev last_id : Option Block → Result BlockId
  last_id none = panic
  last_id (some b) = ok b.id

  -- `ApplyFromTip`, its loop on fuel: with no block applied yet, `lastApplied.ID` is a nil
  -- dereference.
  unfoldable pub apply_from_tip : ℕ → BlockId → Exec S Unit
  unfolding fetch apply_blocks
  apply_from_tip fuel id s =
      let blocks = wrapped (st.get_last_applied s) then? λ last.
      wrapped (st.get_block s id) then? λ tip.
      last_id last then? λ l. fetch fuel s l tip (tip ∷ []) in
      continue blocks apply_blocks s

-- ===== src/Examples/Judged.antt =====
-- Transactions and a block before the validator, over the in-memory store.
use didem.Base.{
  ℕ, true, some, List, [], ◌∷◌, ok, err, ◌≡◌, ◌≢◌, refl, arith, nat_eq, string_eq, not_found, All,
  inl, out_of_fuel,
}
use didem.W3cdid.Document.{Document}
use didem.W3cdid.Url.{
  cut, has_ctl, scheme_rest, get_scheme, unescape, hierarchical, opaque_part, parse, method, id,
}
use didem.W3cdid.Valid.{
  is_valid, url_valid, method_valid, methods_valid, validator_for, accepts, signed_loop, signed,
}
use didem.Tx.{Bytes, Tx, unmarshal}
use didem.Storage.Chain.{Block, accepted, unvalidated}
use didem.Storage.MemStore.{
  new_mem_store, get_obj, put_obj, put_block, put_set, get_block, get_set, get_tx, lookup_did,
  get_tx_block, document_of, start_test, complete_test,
}
use didem.Storage.MemStore.Walk.{all_tx}
use didem.Storage.Tree.{add_tx, walk}
use didem.Storage.MemStore.WalkLaws.{all_tx_ends, all_tx_sound, AreStored}
use didem.Storage.MemStore.Apply.{apply_tx, apply_type, apply_txs, index_block_tx, mark_block}
use didem.Storage.MemStore.Indexed.{IsIndexed, mark_block_indexes}
use didem.Storage.MemStore.Impl.{mem_store}
use didem.Storage.TxSet.{new_tx_set}
use didem.Storage.TreeLaws.{new_tx_set_ends}
use didem.Storage.Validator.{
  add_valid, change_valid, action_valid, is_did_tx_valid, type_valid, is_tx_valid, check_txs, trial,
  finish_trial, is_block_valid, unsigned,
}
use didem.Storage.Validator.TxLaws.{
  IsWellFormed, AcceptedBy, is_tx_valid-IsWellFormed, did_add_sound, known_did_change_sound,
  unknown_did_change_accepted,
}
use didem.Base.{get_elem?, insert}
use didem.Storage.Validator.Shared.{Stores, is_block_valid_at}
use didem.Storage.Validator.Shared.Isolated.{is_block_valid_at-isolated}
use didem.Storage.Validator.BlockLaws.{
  IsPassed, marked_unvalidated, accepted_after_validation, is_block_valid_sound,
}
use didem.Examples.Engine.{small_chain}
use didem.Examples.Objects.{
  small_codec, small_judge, a_tx, a_block, a_document, small_mem, known_mem, small_validators,
  an_update, a_forgery, document_valid,
}

add_passes : (is_tx_valid (mem_store small_codec) small_judge small_mem a_tx).0 ≡ ok tt
unfolding is_tx_valid type_valid is_did_tx_valid action_valid add_valid lookup_did get_obj signed
    signed_loop accepts validator_for is_valid url_valid method_valid methods_valid method id parse
    cut has_ctl scheme_rest get_scheme unescape opaque_part hierarchical
add_passes = refl

update_passes : (is_tx_valid (mem_store small_codec) small_judge known_mem an_update).0 ≡ ok tt
unfolding is_tx_valid type_valid is_did_tx_valid action_valid change_valid lookup_did get_obj signed
    signed_loop accepts validator_for is_valid url_valid method_valid methods_valid method id parse
    cut has_ctl scheme_rest get_scheme unescape opaque_part hierarchical
update_passes = refl

the_txs : all_tx small_codec small_mem a_block ≡ ok ((31, a_tx) ∷ [])
unfolding all_tx walk add_tx get_set get_tx get_obj unmarshal
the_txs = refl

passes_block : (is_block_valid (mem_store small_codec) small_judge a_block true small_mem).0 ≡ ok tt
unfolding is_block_valid finish_trial trial check_txs mark_block start_test complete_test all_tx
    walk add_tx get_set get_tx get_obj get_tx_block unmarshal apply_tx apply_type is_tx_valid
    type_valid is_did_tx_valid action_valid add_valid lookup_did signed signed_loop accepts
    validator_for is_valid url_valid method_valid methods_valid method id parse cut has_ctl
    scheme_rest get_scheme unescape opaque_part hierarchical
passes_block = refl

trial_txs :
    all_tx small_codec (marked_unvalidated small_codec small_judge a_block true small_mem) a_block
    ≡ ok ((31, a_tx) ∷ [])
unfolding all_tx walk add_tx get_set get_tx get_obj unmarshal
trial_txs = refl

marking_succeeds : (mark_block small_codec 7 accepted small_mem).0 ≡ ok tt
unfolding mark_block index_block_tx apply_txs apply_tx apply_type get_block all_tx walk add_tx
    get_set get_tx get_obj unmarshal
marking_succeeds = refl

known_document : (mem_store small_codec).lookup_did known_mem "did:example:1" ≡ ok (some a_document)
unfolding lookup_did get_obj
known_document = refl

unknown_document : (mem_store small_codec).lookup_did small_mem "did:example:1" ≡ err not_found
unfolding lookup_did
unknown_document = refl

object_found : get_obj small_mem 20 ≡ some (20 ∷ [])
unfolding get_obj
object_found = refl

block_put : (put_block small_codec a_block new_mem_store).0 ≡ ok 7
unfolding put_block put_obj
block_put = refl

forgery_formed : IsWellFormed a_forgery
forgery_formed = record {
  has_version = refl;
  has_time = λ h. ground arith;
  has_from = λ h. ground (arith, string_eq.same_iff a_forgery.from "");
  has_data = λ h. ground arith;
  has_type = inl refl;
}

did_add_sound_example :
    (doc : Document) × (document_of a_tx.data_ ≡ ok doc)
    × (is_valid small_judge.authority doc ≡ ok tt)
    × ((mem_store small_codec).lookup_did small_mem doc.id ≡ err not_found)
    × ((msg : Bytes) × (small_judge.marshal_tx (unsigned a_tx) ≡ some msg)
        × AcceptedBy small_validators a_tx.signature msg doc.verification_method)
did_add_sound_example =
    did_add_sound (mem_store small_codec) small_judge small_mem a_tx refl refl add_passes

known_did_change_sound_example :
    (msg : Bytes) × (small_judge.marshal_tx (unsigned an_update) ≡ some msg)
    × AcceptedBy small_validators an_update.signature msg a_document.verification_method
known_did_change_sound_example =
    known_did_change_sound (mem_store small_codec) small_judge known_mem an_update refl (inl refl)
      refl known_document update_passes

is_block_valid_sound_example : All (IsPassed small_codec small_judge small_mem) ((31, a_tx) ∷ [])
is_block_valid_sound_example =
    is_block_valid_sound small_codec small_judge small_mem a_block trial_txs passes_block

abbrev two_stores : Stores
two_stores = known_mem ∷ small_mem ∷ []

is_block_valid_at-isolated_example :
    ((is_block_valid_at small_codec small_judge a_block true 1 two_stores).0
      ≡ (is_block_valid (mem_store small_codec) small_judge a_block true small_mem).0)
    × (get_elem? (is_block_valid_at small_codec small_judge a_block true 1 two_stores).1 1
        ≡ some (record small_mem { b_state = insert 7 unvalidated small_mem.b_state }))
    × (get_elem? (is_block_valid_at small_codec small_judge a_block true 1 two_stores).1 0
        ≡ some known_mem)
is_block_valid_at-isolated_example =
    is_block_valid_at-isolated small_codec small_judge a_block true 1 small_mem two_stores 0 refl
      (omega arith) (λ e. omega (arith, e))

accepted_after_validation_example :
    mark_block small_codec 7 accepted
      (is_block_valid (mem_store small_codec) small_judge a_block true small_mem).1
    ≡ (ok tt, record small_mem { b_state = (7, accepted) ∷ [] })
accepted_after_validation_example =
    accepted_after_validation small_codec small_judge a_block true small_mem

all_tx_ends_example : all_tx small_codec small_mem a_block ≢ err out_of_fuel
all_tx_ends_example = all_tx_ends small_codec small_mem a_block

all_tx_sound_example : AreStored small_codec small_mem ((31, a_tx) ∷ [])
all_tx_sound_example = all_tx_sound small_codec small_mem a_block the_txs

new_tx_set_ends_example :
    (new_tx_set (put_set small_codec) small_chain (33 ∷ 31 ∷ 32 ∷ []) small_mem).0 ≢ err out_of_fuel
new_tx_set_ends_example =
    new_tx_set_ends (put_set small_codec) small_chain (33 ∷ 31 ∷ 32 ∷ []) small_mem

mark_block_indexes_example :
    (block : Block) × (txs : List (ℕ × Tx)) × (get_block small_codec small_mem 7 ≡ ok block)
    × (all_tx small_codec (record small_mem { b_state = (7, accepted) ∷ [] }) block ≡ ok txs)
    × All (IsIndexed small_codec 7 (mark_block small_codec 7 accepted small_mem).1) txs
mark_block_indexes_example = mark_block_indexes small_codec 7 small_mem refl marking_succeeds

is_tx_valid-IsWellFormed_example : IsWellFormed a_tx
is_tx_valid-IsWellFormed_example =
    is_tx_valid-IsWellFormed (mem_store small_codec) small_judge small_mem a_tx add_passes

unknown_did_change_accepted_example :
    (is_tx_valid (mem_store small_codec) small_judge small_mem a_forgery).0 ≡ ok tt
unknown_did_change_accepted_example =
    unknown_did_change_accepted (mem_store small_codec) small_judge small_mem a_forgery
      {doc = a_document} {e = not_found} {msg = 5 ∷ []} forgery_formed refl (inl refl) refl
      document_valid refl unknown_document

-- ===== src/Storage/Validator/TxLaws.antt =====
-- Lemmas on `IsTxValid` of pkg/storage/validator.go.
use didem.Base.{
  true, Option, none, some, List, [], ◌∷◌, Result, ok, err, panic, ◌≡◌, ◌≢◌, ◌⊎◌, inl, inr, arith,
  refl, Result-cases, did_invalid, not_found, Bool-cases, then?-eq-ok, Error, string_eq,
}
use didem.W3cdid.Document.{Document, VerificationMethod}
use didem.W3cdid.Valid.{is_valid, signed, signed_loop, accepts, Validators}
use didem.Tx.{
  Tx, no_data, tx_type_did, tx_type_vc, tx_action_add, tx_action_update, tx_action_revoke, pos,
  version1, Bytes,
}
use didem.Storage.MemStore.{document_of}
use didem.Storage.Store.{Store}
use didem.Storage.Validator.{
  ValidatorEnv, is_did_tx_valid, is_vc_tx_valid, is_node_tx_valid, type_valid, is_tx_valid,
  unsigned, add_valid, change_valid, action_valid, or_error, or_marshalling,
}

-- A signature is accepted by one of the methods.
pub data AcceptedBy (vs : Validators) (sig msg : Bytes) : List VerificationMethod → Type 0 where
  here :
      {vm : VerificationMethod} {vms : List VerificationMethod}
      → accepts vs vm sig msg ≡ true
      → AcceptedBy vs sig msg (vm ∷ vms)
  later :
      {vm : VerificationMethod} {vms : List VerificationMethod}
      → AcceptedBy vs sig msg vms
      → AcceptedBy vs sig msg (vm ∷ vms)

signed_loop-AcceptedBy :
    (vs : Validators) (sig msg : Bytes) (vms : List VerificationMethod)
    → signed_loop vs vms sig msg ≡ ok tt
    → AcceptedBy vs sig msg vms
unfolding signed_loop
signed_loop-AcceptedBy vs sig msg [] h = ground arith
signed_loop-AcceptedBy vs sig msg (vm ∷ vms) h = elim (Bool-cases (accepts vs vm sig msg)) [
  | inl yes' ↦ here yes'
  | inr no' ↦ later (signed_loop-AcceptedBy vs sig msg vms (rw no' at h))
]

signed-AcceptedBy :
    (vs : Validators) (doc : Document) (sig msg : Bytes)
    → signed vs doc sig msg ≡ ok tt
    → AcceptedBy vs sig msg doc.verification_method
unfolding signed
signed-AcceptedBy vs doc sig msg h = go doc.verification_method refl
  where
    go :
        (vms : List VerificationMethod)
        → doc.verification_method ≡ vms
        → AcceptedBy vs sig msg doc.verification_method
    go [] e = ground arith
    go (vm ∷ vms) e = rw e (signed_loop-AcceptedBy vs sig msg (vm ∷ vms) (ground arith))

pub record IsWellFormed (t : Tx) : Type 0 where
  pub has_version : t.version ≡ version1
  pub has_time : t.ts ≢ pos 0
  pub has_from : t.from ≢ ""
  pub has_data : t.data_ ≢ no_data
  pub has_type : (t.type ≡ tx_type_did) ⊎ (t.type ≡ tx_type_vc)

-- `or_error` succeeds only where its argument does.
or_error-eq-ok : (e : Error) (r : Result Unit) → or_error e r ≡ ok tt → r ≡ ok tt
or_error-eq-ok e (ok a) h = refl
or_error-eq-ok e (err x) h = cc
or_error-eq-ok e panic h = cc

add_valid-eq-ok :
    (vs : Validators) (doc : Document) (r : Result (Option Document)) (sig msg : Bytes)
    → add_valid vs doc r sig msg ≡ ok tt
    → (r ≡ err not_found) × (signed vs doc sig msg ≡ ok tt)
unfolding add_valid
add_valid-eq-ok vs doc (err not_found) sig msg h = (refl, or_error-eq-ok _ _ h)
add_valid-eq-ok vs doc panic sig msg h = cc
add_valid-eq-ok vs doc _ sig msg h = cc

or_marshalling-eq-ok : (r : Option Bytes) {b : Bytes} → or_marshalling r ≡ ok b → r ≡ some b
or_marshalling-eq-ok none h = cc
or_marshalling-eq-ok (some b) h = ground arith

module _ {S : Type 0} (st : Store S) (env : ValidatorEnv) (s : S) (t : Tx) where
  -- An accepted transaction has the supported version, a time other than 0, a sender and data, and
  -- its type is DID or VC.
  pub is_tx_valid-IsWellFormed : (is_tx_valid st env s t).0 ≡ ok tt → IsWellFormed t
  unfolding is_tx_valid type_valid is_node_tx_valid is_vc_tx_valid
  is_tx_valid-IsWellFormed h = record {
    has_version = ground arith;
    has_time = λ e. ground arith;
    has_from = λ e. ground (arith, string_eq.same_iff t.from "");
    has_data = λ e. ground arith;
    has_type = ground arith;
  }

  -- the checks that a transaction about a DID passes
  did_valid_parts :
      t.type ≡ tx_type_did
      → (is_tx_valid st env s t).0 ≡ ok tt
      → (doc : Document) × (document_of t.data_ ≡ ok doc)
        × (is_valid env.authority doc ≡ ok tt)
        × ((msg : Bytes) × (env.marshal_tx (unsigned t) ≡ some msg)
            × (action_valid env.validators t.action doc (st.lookup_did s doc.id) t.signature msg
                ≡ ok tt))
  unfolding is_tx_valid type_valid is_did_tx_valid
  did_valid_parts ty h =
      let did : (is_did_tx_valid st env s t).0 ≡ ok tt = ground arith in
      elim (Result-cases (document_of t.data_)) [
        | inl (doc, found) ↦
            let (msg, packed, more) =
              then?-eq-ok (or_marshalling (env.marshal_tx (unsigned t))) _
                (rw (found, is_did_tx_valid) at did) in
            let (_, fine, last) =
              then?-eq-ok (or_error did_invalid (is_valid env.authority doc)) _ more in
            (doc, found, or_error-eq-ok _ _ fine, (msg, or_marshalling-eq-ok _ packed, last))
        | inr (inl (e, bad)) ↦ ground arith
        | inr (inr bad) ↦ ground arith
      ]

  -- A DID is added only with a valid document, under an identifier that the store does not know,
  -- and where a verification method of the document itself accepts the signature over the
  -- transaction with its signature cleared.
  pub did_add_sound :
      t.type ≡ tx_type_did
      → t.action ≡ tx_action_add
      → (is_tx_valid st env s t).0 ≡ ok tt
      → (doc : Document) × (document_of t.data_ ≡ ok doc)
        × (is_valid env.authority doc ≡ ok tt)
        × (st.lookup_did s doc.id ≡ err not_found)
        × ((msg : Bytes) × (env.marshal_tx (unsigned t) ≡ some msg)
            × AcceptedBy env.validators t.signature msg doc.verification_method)
  unfolding action_valid add_valid
  did_add_sound ty ac h =
      let (doc, found, fine, (msg, packed, last)) = did_valid_parts ty h in
      let added : add_valid env.validators doc (st.lookup_did s doc.id) t.signature msg ≡ ok tt =
        ground arith in
      let (unknown, sig) =
        add_valid-eq-ok env.validators doc (st.lookup_did s doc.id) t.signature msg added in
      (
        doc,
        found,
        fine,
        unknown,
        (msg, packed, signed-AcceptedBy env.validators doc t.signature msg sig),
      )

  -- Where the lookup of the DID gives any error, an update or a revocation with a valid document is
  -- accepted whatever its signature is.
  pub unknown_did_change_accepted :
      {doc : Document} {e : Error} {msg : Bytes}
      → IsWellFormed t
      → t.type ≡ tx_type_did
      → (t.action ≡ tx_action_update) ⊎ (t.action ≡ tx_action_revoke)
      → document_of t.data_ ≡ ok doc
      → is_valid env.authority doc ≡ ok tt
      → env.marshal_tx (unsigned t) ≡ some msg
      → st.lookup_did s doc.id ≡ err e
      → (is_tx_valid st env s t).0 ≡ ok tt
  unfolding is_tx_valid type_valid is_did_tx_valid action_valid change_valid
  unknown_did_change_accepted wf ty ac found fine packed unknown =
      ground (arith, string_eq.same_iff t.from "")

  -- Where the DID is known, an update or a revocation is accepted only with a signature that a
  -- method of the stored document accepts.
  pub known_did_change_sound :
      {doc existing : Document}
      → t.type ≡ tx_type_did
      → (t.action ≡ tx_action_update) ⊎ (t.action ≡ tx_action_revoke)
      → document_of t.data_ ≡ ok doc
      → st.lookup_did s doc.id ≡ ok (some existing)
      → (is_tx_valid st env s t).0 ≡ ok tt
      → (msg : Bytes) × (env.marshal_tx (unsigned t) ≡ some msg)
        × AcceptedBy env.validators t.signature msg existing.verification_method
  unfolding action_valid change_valid
  known_did_change_sound {doc} {existing} ty ac found known h =
      let (doc', found', fine, (msg, packed, last)) = did_valid_parts ty h in
      let same : doc' ≡ doc = ground arith in
      let known' : st.lookup_did s doc'.id ≡ ok (some existing) = rw same known in
      let changed : change_valid env.validators (ok (some existing)) t.signature msg ≡ ok tt =
        ground arith in
      (
        msg,
        packed,
        signed-AcceptedBy env.validators existing t.signature msg (or_error-eq-ok _ _ changed),
      )

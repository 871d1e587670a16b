-- ===== src/W3cdid/Valid.antt =====
-- pkg/did/w3cdid/validation.go and crypto.go: what makes a document valid, and who signed.
pub mod Laws
use didem.Base.{
  ℕ, Bool, true, false, ◌||◌, Option, none, some, List, [], ◌∷◌, ◌++◌, String, ◌==◌, string_eq,
  if◌then◌else◌, Result, ok, err, panic, ◌then?◌, invalid, no_valid_signatures,
  no_verification_method,
}
use didem.W3cdid.Document.{VerificationMethod, Service, Document}
use didem.W3cdid.Url.{Url, text_bytes, method, id}

abbrev pub is_blank : Url → Bool
is_blank [] = true
is_blank (_ ∷ _) = false

module _ (authority : Url → Bool) where
  -- `url.Id() == "" || url.Method() == ""`, and the error of both
  unfoldable pub url_valid : Url → Result Unit
  unfolding method id
  url_valid u = id authority u then? λ i.
      if is_blank i
      then err invalid
      else method authority u then? λ m. if is_blank m then err invalid else ok tt

  unfoldable pub method_valid : VerificationMethod → Result Unit
  unfolding url_valid
  method_valid v =
      if v.type == ""
      then err invalid
      else url_valid (text_bytes v.id) then? λ _. url_valid (text_bytes v.controller)

  unfoldable pub methods_valid : List VerificationMethod → Result Unit
  unfolding method_valid
  methods_valid [] = ok tt
  methods_valid (v ∷ vms) = method_valid v then? λ _. methods_valid vms

  abbrev pub services_valid : List Service → Result Unit
  services_valid [] = ok tt
  services_valid (s ∷ rest) =
      if s.id == "" || s.type == "" || s.service_endpoint == ""
      then err invalid
      else services_valid rest

  abbrev pub all_methods : Document → List VerificationMethod
  all_methods d =
      d.verification_method
      ++ (d.authentication
          ++ (d.assertion_method
              ++ (d.key_agreement ++ (d.capability_invocation ++ d.capability_delegation))))

  -- `Document.IsValid`
  unfoldable pub is_valid : Document → Result Unit
  unfolding url_valid methods_valid
  is_valid d =
      if d.id == ""
      then err invalid
      else url_valid (text_bytes d.id) then? λ _.
          methods_valid (all_methods d) then? λ _. services_valid d.service

abbrev pub Bytes : Type 0
Bytes = List ℕ

-- The check of a signature for one kind of key (pkg/cryptography): `none` is an error.
abbrev pub SignatureValidator : Type 0
SignatureValidator = VerificationMethod → Bytes → Bytes → Option Bool

pub record Validators : Type 0 where
  pub ed25519 : SignatureValidator
  pub bls12381 : SignatureValidator
  pub ecdsa_secp256k1 : SignatureValidator

module _ (vs : Validators) where
  -- the table `validators`
  unfoldable pub validator_for : String → Option SignatureValidator
  validator_for t =
      if t == "Ed25519VerificationKey2018"
      then some vs.ed25519
      else if t == "Bls12381G2Key2020"
      then some vs.bls12381
      else if t == "EcdsaSecp256k1VerificationKey2019"
      then some vs.ecdsa_secp256k1
      else none

  -- Whether one method accepts the signature; an unknown kind and an error do not.
  abbrev pub run_validator : Option SignatureValidator → VerificationMethod → Bytes → Bytes → Bool
  run_validator none vm sig msg = false
  run_validator (some f) vm sig msg = elim (f vm sig msg) [ some true ↦ true | _ ↦ false ]

  unfoldable pub accepts : VerificationMethod → Bytes → Bytes → Bool
  unfolding validator_for
  accepts vm sig msg = run_validator (validator_for vm.type) vm sig msg

  unfoldable pub signed_loop : List VerificationMethod → Bytes → Bytes → Result Unit
  unfolding accepts
  signed_loop [] sig msg = err no_valid_signatures
  signed_loop (vm ∷ vms) sig msg = if accepts vm sig msg then ok tt else signed_loop vms sig msg

  -- `Document.Signed`
  unfoldable pub signed : Document → Bytes → Bytes → Result Unit
  unfolding signed_loop
  signed d sig msg = elim d.verification_method [
    | [] ↦ err no_verification_method
    | vm ∷ vms ↦ signed_loop (vm ∷ vms) sig msg
  ]

-- ===== src/W3cdid/Document.antt =====
-- pkg/did/w3cdid/document.go, and the verification method of pkg/cryptography/cryptography.go.
use didem.Base.{String, List}

-- `Type` keeps the text of the JSON; `PublicKeyJwk` is a type of go-jose that no modelled code reads.
pub record VerificationMethod : Type 0 where
  pub id : String
  pub type : String
  pub controller : String
  pub public_key_multibase : String

pub record Service : Type 0 where
  pub id : String
  pub type : String
  pub service_endpoint : String

pub record Document : Type 0 where
  pub context : List String
  pub id : String
  pub also_known_as : List String
  pub controller : List String
  pub verification_method : List VerificationMethod
  pub authentication : List VerificationMethod
  pub assertion_method : List VerificationMethod
  pub key_agreement : List VerificationMethod
  pub capability_invocation : List VerificationMethod
  pub capability_delegation : List VerificationMethod
  pub service : List Service

-- ===== src/Examples/Objects.antt =====
-- A store with one block, whose tree has one transaction, and the transaction's document.
use didem.Base.{
  ℕ, true, Option, none, some, [], ◌∷◌, ok, ◌≡◌, refl, nat_eq, if◌then◌else◌, ◌==◌, string_eq,
}
use didem.W3cdid.Document.{Document, VerificationMethod}
use didem.W3cdid.Url.{
  cut, has_ctl, scheme_rest, get_scheme, unescape, hierarchical, opaque_part, parse, method, id,
}
use didem.W3cdid.Valid.{is_valid, url_valid, method_valid, methods_valid, Validators}
use didem.Tx.{Bytes, Tx, pos, tx_type_did, tx_action_add, tx_action_update, did_data}
use didem.Storage.Chain.{Block, TxSet, validated}
use didem.Storage.Codec.{Codec}
use didem.Storage.MemStore.{MemStore, new_mem_store}
use didem.Storage.Validator.{ValidatorEnv}
use didem.Consensus.Handlers.{bytes_equal}

abbrev a_method : VerificationMethod
a_method = record {
  id = "did:example:1#k";
  type = "Ed25519VerificationKey2018";
  controller = "did:example:1";
  public_key_multibase = "";
}

abbrev pub a_document : Document
a_document = record {
  context = [];
  id = "did:example:1";
  also_known_as = [];
  controller = [];
  verification_method = a_method ∷ [];
  authentication = [];
  assertion_method = [];
  key_agreement = [];
  capability_invocation = [];
  capability_delegation = [];
  service = [];
}

abbrev pub a_tx : Tx
a_tx = record {
  version = 1;
  ts = pos 50;
  from = "did:example:1";
  type = tx_type_did;
  action = tx_action_add;
  data_ = did_data (record { document = some a_document });
  signature = 6 ∷ [];
}

abbrev pub a_block : Block
a_block = record {
  version = 1;
  id = 7;
  parent = 0;
  height = 1;
  created_at = pos 5;
  proposer = "p";
  signature = [];
  nonce = [];
  bloom = [];
  tx_root = 20;
}

abbrev pub first_byte : Option Bytes → ℕ
first_byte none = 0
first_byte (some []) = 1
first_byte (some (n ∷ _)) = n

abbrev pub set_at : ℕ → Option TxSet
set_at n =
    if n == 20
    then some (record { children = 21 ∷ 21 ∷ []; tx = none; cid = 0 })
    else if n == 21
    then some (record { children = []; tx = some 31; cid = 0 })
    else none

-- an object is one byte, which is its CID as well
abbrev pub small_codec : Codec
small_codec = record {
  marshal_tx = λ t. some (31 ∷ []);
  marshal_block = λ b. some (7 ∷ []);
  marshal_set = λ t. some (20 ∷ []);
  decoder = record {
    into_raw = λ d. if first_byte (some d) == 31 then some a_tx else none;
    into_did = λ d. if first_byte (some d) == 31 then some a_tx else none;
    into_node = λ d. none;
    into_any = λ d. none;
  };
  unmarshal_block = λ d. if first_byte (some d) == 7 then some a_block else none;
  unmarshal_set = λ d. set_at (first_byte (some d));
  unmarshal_document = λ d. if first_byte (some d) == 40 then some a_document else none;
  cid_of = first_byte;
  parse_cid = λ c. some c;
  range_order = λ l. l;
}

abbrev pub small_mem : MemStore
small_mem = record new_mem_store {
  objects =
      (7, some (7 ∷ [])) ∷ (20, some (20 ∷ [])) ∷ (21, some (21 ∷ [])) ∷ (31, some (31 ∷ [])) ∷ [];
  b_state = (7, validated) ∷ [];
}

-- the document is known
abbrev pub known_mem : MemStore
known_mem = record new_mem_store {
  objects = (40, some (40 ∷ [])) ∷ [];
  dids = ("did:example:1", 40) ∷ [];
}

abbrev pub small_validators : Validators
small_validators = record {
  ed25519 = λ vm sig msg. some (bytes_equal sig (6 ∷ []));
  bls12381 = λ vm sig msg. none;
  ecdsa_secp256k1 = λ vm sig msg. none;
}

abbrev pub small_judge : ValidatorEnv
small_judge = record {
  marshal_tx = λ t. some (5 ∷ []);
  validators = small_validators;
  authority = λ u. true;
  range_order = λ l. l;
}

abbrev pub an_update : Tx
an_update = record a_tx { action = tx_action_update }

-- an update with a signature that no key made
abbrev pub a_forgery : Tx
a_forgery = record a_tx { action = tx_action_update; signature = [] }

pub document_valid : is_valid (λ u. true) a_document ≡ ok tt
unfolding is_valid url_valid method_valid methods_valid method id parse cut has_ctl scheme_rest
    get_scheme unescape opaque_part hierarchical
document_valid = refl

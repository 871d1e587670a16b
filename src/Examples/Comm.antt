-- ===== src/Examples/Comm.antt =====
-- A receiver and a sender whose signatures are accepted where they are not empty.
use didem.Base.{Bool, true, false, none, some, [], ◌∷◌, ok, ◌≢◌, refl, arith}
use didem.Tx.{Bytes, pos}
use didem.Comm.{ed25519, ed25519_private, PublicIdentity, Message, CommEnv}
use didem.Comm.Server.{ServerHandler, empty_message, handle}
use didem.Comm.Client.{ClientStream, deliver}
use didem.Comm.Laws.{RejectsEmpty, no_message_delivered}

abbrev pub alice : PublicIdentity
alice = record { id = "did:example:1"; public_keys = ed25519 (1 ∷ []) ∷ [] }

abbrev pub hello : Message
hello = record empty_message {
  created_time = pos 5;
  from = some alice;
  to = some alice ∷ [];
  nonce = 9 ∷ [];
  signature = 6 ∷ [];
}

abbrev not_empty : Bytes → Bool
not_empty [] = false
not_empty (b ∷ l) = true

abbrev pub small_comm : CommEnv Unit
small_comm = record {
  read = λ w. (ok (1 ∷ []), w);
  write = λ b w. (ok tt, w);
  write_raw = λ b w. (ok tt, w);
  close = λ w. w;
  add_to_inbox = λ m w. (ok tt, w);
  rand_nonce = λ w. (ok (9 ∷ []), w);
  marshal = λ m. some (1 ∷ []);
  unmarshal = λ b. some hello;
  find = λ id. ok (ed25519_private (1 ∷ []));
  resolve_pi = λ id. ok (record { id = "did:example:1"; public_keys = [] });
  sum512 = λ b. b;
  rsa_verify = λ k h s. false;
  ecdsa_verify = λ k h s. not_empty s;
  ed25519_verify = λ k b s. ok (not_empty s);
  rsa_sign = λ k h. none;
  ecdsa_sign = λ k h. some (6 ∷ []);
  ed25519_sign = λ k b. 6 ∷ [];
  before_window = λ t. false;
  after_window = λ t. false;
}

small-RejectsEmpty : RejectsEmpty small_comm
small-RejectsEmpty = record { of_ecdsa = λ k h. refl; of_ed25519 = λ k b h. ground arith }

abbrev receiver : ServerHandler Unit
receiver = record {
  resolver = true;
  id_store = true;
  stream = tt;
  client_hello = none;
  identity = none;
  received = none;
}

abbrev sender : ClientStream Unit
sender = record {
  email = hello;
  identity = ed25519_private (1 ∷ []);
  recipient = record { id = "did:example:1"; public_keys = [] };
  stream = tt;
  server_hello = none;
}

no_message_delivered_example :
    ((handle small_comm receiver).0 ≢ ok tt) × ((deliver small_comm sender).0 ≢ ok tt)
no_message_delivered_example = no_message_delivered small_comm small-RejectsEmpty receiver sender

-- ===== src/Comm.antt =====
-- internal/comm: messages between nodes. The records of pkg/comm/msg.go and pkg/did/publicIdentity.go,
-- the signatures of internal/comm/signatures.go, and what the handlers take from outside.
pub mod Server
pub mod Client
pub mod Laws
pub mod Sending
use didem.Base.{
  ℕ, Bool, true, false, ◌&&◌, Option, none, some, List, [], ◌∷◌, String, nat_eqb, string_eq, ◌==◌,
  nat_eq, if◌then◌else◌, Result, ok, err, panic, Exec, ◌then?◌, invalid_signature, unknown_key_type,
  wrap, marshalling,
}
use didem.Tx.{Bytes, Int64}

-- `crypto.PublicKey`: pointers to keys of RSA and of curves, a slice of bytes, or anything else.
pub data PublicKey : Type 0 where
  rsa : ℕ → PublicKey
  ecdsa : ℕ → PublicKey
  ed25519 : Bytes → PublicKey
  other_key : ℕ → PublicKey

pub data PrivateKey : Type 0 where
  rsa_private : ℕ → PrivateKey
  ecdsa_private : ℕ → PrivateKey
  ed25519_private : Bytes → PrivateKey
  other_private : ℕ → PrivateKey

pub record PublicIdentity : Type 0 where
  pub id : String
  pub public_keys : List PublicKey

pub record Message : Type 0 where
  pub type : String
  pub id : String
  pub thread_id : String
  pub created_time : Int64
  pub expires_time : Int64
  pub from : Option PublicIdentity
  pub to : List (Option PublicIdentity)
  pub nonce : Bytes
  pub signature : Bytes
  pub body : List (String × String)
  pub attachments : List Bytes

-- The libraries, the stores and the stream, over the state of what is outside. `read` and `write` are
-- those of stream.RW, which frames what it writes; `write_raw` is the stream's own.
pub record CommEnv (W : Type 0) : Type 0 where
  pub read : Exec W Bytes
  pub write : Bytes → Exec W Unit
  pub write_raw : Bytes → Exec W Unit
  pub close : W → W
  pub add_to_inbox : Message → Exec W Unit
  pub rand_nonce : Exec W Bytes
  pub marshal : Message → Option Bytes
  pub unmarshal : Bytes → Option Message
  pub find : String → Result PrivateKey
  pub resolve_pi : String → Result PublicIdentity
  pub sum512 : Bytes → Bytes
  pub rsa_verify : ℕ → Bytes → Bytes → Bool
  pub ecdsa_verify : ℕ → Bytes → Bytes → Bool
  pub ed25519_verify : Bytes → Bytes → Bytes → Result Bool
  pub rsa_sign : ℕ → Bytes → Option Bytes
  pub ecdsa_sign : ℕ → Bytes → Option Bytes
  pub ed25519_sign : Bytes → Bytes → Bytes
  -- the two comparisons of `CreatedTime` with the clock
  pub before_window : Int64 → Bool
  pub after_window : Int64 → Bool

-- `==` on two `crypto.PublicKey`: pointers are compared, and two slices panic
abbrev pub key_equal : PublicKey → PublicKey → Result Bool
key_equal (rsa a) (rsa b) = ok (nat_eqb a b)
key_equal (ecdsa a) (ecdsa b) = ok (nat_eqb a b)
key_equal (ed25519 a) (ed25519 b) = panic
key_equal (other_key a) (other_key b) = ok (nat_eqb a b)
key_equal _ _ = ok false

-- the inner loop of `Matches`, which goes on behind a match
unfoldable pub has_key : PublicKey → List PublicKey → Bool → Result Bool
has_key k [] found = ok found
has_key k (j ∷ keys) found =
    key_equal j k then? λ same. has_key k keys (if same then true else found)

unfoldable pub has_keys : List PublicKey → List PublicKey → Result Bool
unfolding has_key
has_keys [] keys = ok true
has_keys (k ∷ ks) keys =
    has_key k keys false then? λ found. if found then has_keys ks keys else ok false

-- `PublicIdentity.Matches`
unfoldable pub matches : PublicIdentity → PublicIdentity → Result Bool
unfolding has_keys
matches pi p = if pi.id == p.id then has_keys pi.public_keys p.public_keys else ok false

-- a nil pointer, and `to[0]`
abbrev pub deref : {A : Type 0} → Option A → Result A
deref none = panic
deref (some a) = ok a

abbrev pub first : List (Option PublicIdentity) → Result PublicIdentity
first [] = panic
first (p ∷ l) = deref p

abbrev pub or_marshalling : Option Bytes → Result Bytes
or_marshalling none = err (wrap marshalling)
or_marshalling (some b) = ok b

module _ {W : Type 0} (env : CommEnv W) where
  abbrev pub valid : Bool → Result Unit
  valid b = if b then ok tt else err invalid_signature

  -- `valid` stays false for a key of RSA
  unfoldable pub verify : PublicKey → Bytes → Bytes → Result Unit
  verify (rsa k) b sig =
      if env.rsa_verify k (env.sum512 b) sig then valid false else err invalid_signature
  verify (ed25519 k) b sig = env.ed25519_verify k b sig then? valid
  verify (ecdsa k) b sig = valid (env.ecdsa_verify k (env.sum512 b) sig)
  verify (other_key k) b sig = err unknown_key_type

  abbrev pub signed_with : Option Bytes → Result Bytes
  signed_with none = err marshalling
  signed_with (some s) = ok s

  unfoldable pub sign : PrivateKey → Bytes → Result Bytes
  sign (ecdsa_private k) b = signed_with (env.ecdsa_sign k (env.sum512 b))
  sign (ed25519_private k) b = ok (env.ed25519_sign k b)
  sign (rsa_private k) b = signed_with (env.rsa_sign k (env.sum512 b))
  sign (other_private k) b = err unknown_key_type

  abbrev pub is_nil : Result Unit → Result Bool
  is_nil (ok a) = ok true
  is_nil (err e) = ok false
  is_nil panic = panic

  -- the loop for a key that verifies
  unfoldable pub has_matching_signature : List PublicKey → Bytes → Bytes → Result Bool
  unfolding verify
  has_matching_signature [] b sig = ok false
  has_matching_signature (k ∷ keys) b sig = is_nil (verify k b sig) then? λ good.
      if good then ok true else has_matching_signature keys b sig

  -- `sign` of a handler: the signature over the message, which goes into it
  unfoldable pub sign_message : PrivateKey → Message → Result Message
  unfolding sign
  sign_message k e =
      or_marshalling (env.marshal e) then? λ b. sign k b then? λ s. ok (record e { signature = s })

-- ===== src/Host/Boot.antt =====
-- How a node comes up: NewNode of internal/node/node.go with options.go, and the identity of identity.go
-- in its file.
pub mod FirstRun
use didem.Base.{
  Bool, true, false, ◌||◌, Option, none, some, List, [], ◌∷◌, String, Error, Result, ok, err, panic,
  Exec, wrapped, wrap, ◌>>=◌, ◌then?◌, lift, continue, not_found, invalid_key, if◌then◌else◌, ◌≡◌,
  ◌≢◌, refl, arith, Bool-cases, inl, inr,
}
use didem.Tx.{Bytes}
use didem.Storage.TxSet.{wrapped_exec}

-- the identity file, or none
abbrev pub IdentityFile : Type 0
IdentityFile = Option Bytes

-- The file system, keys, IPFS and the other parts of a node; `none` is an error.
pub record BootEnv : Type 0 where
  -- an error of `os.Stat` other than a missing file
  pub stat_error : Option Error
  -- a new private key, encoded
  pub new_key : Result Bytes
  pub mkdir : Result Unit
  pub write_error : Option Error
  pub unmarshal_key : Bytes → Option Bytes
  -- the base64 of the key, and the identifier of its peer
  pub peer_identity : Bytes → Result (String × String)
  pub ipfs_storage : String × String → Result Unit
  -- the host, the random source, the handlers and the bootstrap peers
  pub host : Bytes → Result Unit
  pub handlers : Result Unit

pub data NodeOption : Type 0 where
  with_storage with_identity_store with_default_options : NodeOption

abbrev pub or_invalid : Option Bytes → Result Bytes
or_invalid none = err (wrap invalid_key)
or_invalid (some k) = ok k

-- `ioutil.ReadFile`
unfoldable pub read_file : Exec IdentityFile Bytes
read_file none = (err not_found, none)
read_file (some b) = (ok b, some b)

module _ (env : BootEnv) where
  abbrev pub write_file : Option Error → Bytes → Exec IdentityFile Unit
  write_file none b f = (ok tt, some b)
  write_file (some e) b f = (err e, f)

  -- `generateIdentity`
  unfoldable pub generate_identity : Exec IdentityFile Unit
  generate_identity = lift (wrapped env.new_key) >>= λ b.
      lift (wrapped env.mkdir) >>= λ _. write_file env.write_error b

  -- the three cases of `os.Stat`
  abbrev pub ensure : Option Error → Exec IdentityFile Unit
  ensure (some e) f = (err (wrap e), f)
  ensure none none = wrapped_exec generate_identity none
  ensure none (some b) = (ok tt, some b)

  -- `getIdentity`
  unfoldable pub get_identity : Exec IdentityFile Bytes
  unfolding generate_identity read_file
  get_identity = ensure env.stat_error >>= λ _.
      wrapped_exec read_file >>= λ b. lift (or_invalid (env.unmarshal_key b))

  -- `identityToIPFSConfigIdentity`
  unfoldable pub identity_to_ipfs : Exec IdentityFile (String × String)
  unfolding read_file
  identity_to_ipfs = wrapped_exec read_file >>= λ b.
      lift (or_invalid (env.unmarshal_key b)) >>= λ k. lift (env.peer_identity k)

  unfoldable pub set_option : NodeOption → Exec IdentityFile Unit
  unfolding identity_to_ipfs
  set_option with_storage f = (ok tt, f)
  set_option with_identity_store f = (ok tt, f)
  set_option with_default_options f =
      (wrapped_exec identity_to_ipfs >>= λ i. lift (wrapped (env.ipfs_storage i))) f

  unfoldable pub set_options : List NodeOption → Exec IdentityFile Unit
  unfolding set_option
  set_options [] f = (ok tt, f)
  set_options (o ∷ opts) f = (set_option o >>= λ _. set_options opts) f

  -- `NewNode`, from the loaded configuration on: the options come before the host, which makes the
  -- identity
  unfoldable pub new_node : List NodeOption → Exec IdentityFile Unit
  unfolding set_options get_identity
  new_node opts = set_options opts >>= λ _.
      get_identity >>= λ k. lift (env.host k) >>= λ _. lift (wrapped env.handlers)

  abbrev pub is_default : NodeOption → Bool
  is_default with_default_options = true
  is_default _ = false

  abbrev pub has_default : List NodeOption → Bool
  has_default [] = false
  has_default (o ∷ opts) = is_default o || has_default opts

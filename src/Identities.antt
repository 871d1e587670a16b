-- ===== src/Identities.antt =====
-- internal/did/fileStore.go: the private identities of a node, in a file of YAML.
pub mod Laws
use didem.Base.{
  ℕ, Option, none, some, List, [], ◌∷◌, ◌++◌, String, string_eq, ◌==◌, if◌then◌else◌, lookup,
  insert, Result, ok, err, panic, Exec, fail, pure, ◌>>=◌, continue, lift, wrapped, wrap, ◌then?◌,
  unmarshalling, marshalling, unknown_key_type, identity_not_found,
}
use didem.Tx.{Bytes}
use didem.Storage.TxSet.{wrapped_exec}

-- `did.PrivateIdentity`, by the type of its pointer
pub data PrivateIdentity : Type 0 where
  ed25519_identity : Bytes → PrivateIdentity
  other_identity : ℕ → PrivateIdentity

pub record IdentityFileStoreId : Type 0 where
  pub type : String
  pub data_ : String

-- The file, YAML, multibase, and the public forms of the identities.
pub record FileEnv (F : Type 0) : Type 0 where
  pub read_all : F → Result Bytes
  pub write_all : Bytes → Exec F Unit
  pub unmarshal : Bytes → Option (List IdentityFileStoreId)
  pub marshal : List IdentityFileStoreId → Option Bytes
  pub decode_base : String → Option Bytes
  pub encode_base : Bytes → Option String
  pub public_id : PrivateIdentity → Result String
  -- the order of `range` over the index
  pub range_order : List PrivateIdentity → List PrivateIdentity

pub record FileStore (F : Type 0) : Type 0 where
  pub file : F
  pub ids : List IdentityFileStoreId
  pub idx : List (String × PrivateIdentity)

abbrev pub or_error : {A : Type 0} → Option A → Result A
or_error none = err (wrap unmarshalling)
or_error (some a) = ok a

abbrev pub identities : List (String × PrivateIdentity) → List PrivateIdentity
identities [] = []
identities ((k, i) ∷ l) = i ∷ identities l

unfoldable pub find : {F : Type 0} → FileStore F → String → Result PrivateIdentity
find s id = elim (lookup id s.idx) [ none ↦ err identity_not_found | some i ↦ ok i ]

module _ {F : Type 0} (env : FileEnv F) where
  unfoldable pub decode_type : String → String → Result PrivateIdentity
  decode_type t d = or_error (env.decode_base d) then? λ raw.
      if t == "ed25519" then ok (ed25519_identity raw) else err unknown_key_type

  -- `buildIdx`; a later entry with the same identifier replaces the one before
  unfoldable pub build_idx :
      List IdentityFileStoreId
      → List (String × PrivateIdentity)
      → Result (List (String × PrivateIdentity))
  unfolding decode_type
  build_idx [] idx = ok idx
  build_idx (f ∷ fs) idx = wrapped (decode_type f.type f.data_) then? λ i.
      wrapped (env.public_id i) then? λ id. build_idx fs (insert id i idx)

  -- `NewFileStore`, which reads the file
  unfoldable pub new_file_store : F → Result (FileStore F)
  unfolding build_idx
  new_file_store file = wrapped (env.read_all file) then? λ d.
      or_error (env.unmarshal d) then? λ ids.
      build_idx ids [] then? λ idx. ok (record { file = file; ids = ids; idx = idx })

  unfoldable pub write : Exec (FileStore F) Unit
  write s = elim (env.marshal s.ids) [
    | none ↦ (err (wrap marshalling), s)
    | some d ↦ let (r, file) = env.write_all d s.file in (r, record s { file = file })
  ]

  abbrev pub encoded : Option String → Result String
  encoded none = err (wrap marshalling)
  encoded (some t) = ok t

  abbrev pub append_id : String → Exec (FileStore F) Unit
  append_id raw s =
      (ok tt, record s { ids = s.ids ++ (record { type = "ed25519"; data_ = raw } ∷ []) })

  unfoldable pub add_new : PrivateIdentity → Exec (FileStore F) Unit
  unfolding write
  add_new (ed25519_identity k) =
      lift (encoded (env.encode_base k)) >>= λ raw. append_id raw >>= λ _. write
  add_new (other_identity n) = fail unknown_key_type

  -- `Add`: the index stays as it is
  unfoldable pub add : PrivateIdentity → Exec (FileStore F) Unit
  unfolding add_new
  add i s =
      continue (env.public_id i)
        (λ id t. elim (lookup id t.idx) [ none ↦ add_new i t | some j ↦ (ok tt, t) ]) s

  unfoldable pub list : FileStore F → Result (List PrivateIdentity)
  list s = ok (env.range_order (identities s.idx))

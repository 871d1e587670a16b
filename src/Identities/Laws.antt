-- ===== src/Identities/Laws.antt =====
-- Lemmas on the file of identities (internal/did/fileStore.go).
use didem.Base.{
  none, some, List, [], ◌∷◌, ◌++◌, String, string_eq, if◌then◌else◌, lookup, insert, lookup-insert,
  beq_refl, ok, err, wrapped, then?-eq-ok, identity_not_found, ◌≡◌, refl, sym, ap, ◌∙◌, arith,
  ok-injective, Option-cases, inl, inr,
}
use didem.Tx.{Bytes}
use didem.Identities.{
  PrivateIdentity, ed25519_identity, IdentityFileStoreId, FileEnv, FileStore, find, decode_type,
  build_idx, new_file_store, write, add_new, add,
}

-- What is written to the file is read again, and what YAML and multibase encode is decoded.
pub record ReadsBack {F : Type 0} (env : FileEnv F) : Type 0 where
  pub of_file :
      (d : Bytes) (f : F)
      → (env.write_all d f).0 ≡ ok tt
      → env.read_all (env.write_all d f).1 ≡ ok d
  pub of_yaml :
      (ids : List IdentityFileStoreId) (d : Bytes)
      → env.marshal ids ≡ some d
      → env.unmarshal d ≡ some ids
  pub of_base : (k : Bytes) (t : String) → env.encode_base k ≡ some t → env.decode_base t ≡ some k

module _ {F : Type 0} (env : FileEnv F) (back : ReadsBack env) where
  build_idx-append :
      (fs : List IdentityFileStoreId) (raw : String) (k : Bytes) (id : String)
      (idx idx' : List (String × PrivateIdentity))
      → build_idx env fs idx ≡ ok idx'
      → env.decode_base raw ≡ some k
      → env.public_id (ed25519_identity k) ≡ ok id
      → build_idx env (fs ++ (record { type = "ed25519"; data_ = raw } ∷ [])) idx
        ≡ ok (insert id (ed25519_identity k) idx')
  unfolding build_idx decode_type
  build_idx-append [] raw k id idx idx' built decoded known =
      rw (decoded, known) (ap (λ l. ok (insert id (ed25519_identity k) l)) (ok-injective built))
  build_idx-append (f ∷ fs) raw k id idx idx' built decoded known =
      let (i, decoded_f, h1) = then?-eq-ok (wrapped (decode_type env f.type f.data_)) _ built in
      let (j, known_f, h2) = then?-eq-ok (wrapped (env.public_id i)) _ h1 in
      rw (decoded_f, known_f) (build_idx-append fs raw k id (insert j i idx) idx' h2 decoded known)

  find-insert :
      (f : F) (ids : List IdentityFileStoreId) (id : String) (i : PrivateIdentity)
      (idx : List (String × PrivateIdentity))
      → find (record { file = f; ids = ids; idx = insert id i idx }) id ≡ ok i
  unfolding find
  find-insert f ids id i idx =
      ap (λ o. elim o [ none ↦ err identity_not_found | some j ↦ ok j ])
        (lookup-insert id id i idx ∙ ap (λ b. if b then some i else lookup id idx) (beq_refl id))

  reads :
      (file : F) (d : Bytes) (ids : List IdentityFileStoreId)
      (idx : List (String × PrivateIdentity))
      → env.read_all file ≡ ok d
      → env.unmarshal d ≡ some ids
      → build_idx env ids [] ≡ ok idx
      → new_file_store env file ≡ ok (record { file = file; ids = ids; idx = idx })
  unfolding new_file_store
  reads file d ids idx there yaml built = rw (there, yaml, built) refl

  adds :
      (k d : Bytes) (id raw : String) (s : FileStore F)
      → env.public_id (ed25519_identity k) ≡ ok id
      → lookup id s.idx ≡ none
      → env.encode_base k ≡ some raw
      → env.marshal (s.ids ++ (record { type = "ed25519"; data_ = raw } ∷ [])) ≡ some d
      → ((add env (ed25519_identity k) s).0 ≡ (env.write_all d s.file).0)
        × ((add env (ed25519_identity k) s).1.file ≡ (env.write_all d s.file).1)
  unfolding add add_new write
  adds k d id raw s known new packed yaml = (ground arith, ground arith)

  -- An identity of ed25519 that the store does not have and adds without an error is found in a store
  -- that reads the file again, where the entries from before could be read.
  pub find-new_file_store :
      (k : Bytes) (id : String) (s : FileStore F) (before : List (String × PrivateIdentity))
      → build_idx env s.ids [] ≡ ok before
      → env.public_id (ed25519_identity k) ≡ ok id
      → lookup id s.idx ≡ none
      → (add env (ed25519_identity k) s).0 ≡ ok tt
      → (t : FileStore F) × (new_file_store env (add env (ed25519_identity k) s).1.file ≡ ok t)
        × (find t id ≡ ok (ed25519_identity k))
  unfolding add add_new write
  find-new_file_store k id s before built known new h = elim (Option-cases (env.encode_base k)) [
    | inl none_raw ↦ absurd (ground arith)
    | inr (raw, packed) ↦
        let ids' = s.ids ++ (record { type = "ed25519"; data_ = raw } ∷ []) in
        elim (Option-cases (env.marshal ids')) [
          | inl none_d ↦ absurd (ground arith)
          | inr (d, yaml) ↦
              let (result, file) = adds k d id raw s known new packed yaml in
              let written : (env.write_all d s.file).0 ≡ ok tt = sym result ∙ h in
              let idx' = insert id (ed25519_identity k) before in
              let f = (env.write_all d s.file).1 in
              let t : FileStore F = record { file = f; ids = ids'; idx = idx' } in
              (
                t,
                ap (new_file_store env) file
                    ∙ reads f d ids' idx' (back.of_file d s.file written) (back.of_yaml ids' d yaml)
                        (build_idx-append s.ids raw k id [] before built (back.of_base k raw packed)
                          known),
                find-insert f ids' id (ed25519_identity k) before,
              )
        ]
  ]

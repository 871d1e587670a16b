-- ===== src/Examples/Identities.antt =====
-- A file of identities that can hold one key.
use didem.Base.{
  zero, suc, Option, none, some, List, [], ◌∷◌, String, string_eq, ◌==◌, if◌then◌else◌, ok, ◌≡◌,
  refl, sym, ap, arith, Bool-cases, inl, inr, eq_of_beq,
}
use didem.Tx.{Bytes}
use didem.Identities.{
  ed25519_identity, IdentityFileStoreId, FileEnv, FileStore, find, build_idx, new_file_store, add,
  add_new, write,
}
use didem.Identities.Laws.{ReadsBack, find-new_file_store}

abbrev one_key : String → IdentityFileStoreId
one_key d = record { type = "ed25519"; data_ = d }

abbrev encode_list : List IdentityFileStoreId → Option Bytes
encode_list (f ∷ []) =
    if f.type == "ed25519" then (if f.data_ == "k" then some (1 ∷ []) else none) else none
encode_list _ = none

abbrev encode_key : Bytes → Option String
encode_key (zero ∷ []) = some "k"
encode_key _ = none

abbrev small_files : FileEnv Bytes
small_files = record {
  read_all = λ f. ok f;
  write_all = λ d f. (ok tt, d);
  unmarshal = λ d. some (one_key "k" ∷ []);
  marshal = encode_list;
  decode_base = λ t. some (0 ∷ []);
  encode_base = encode_key;
  public_id = λ i. ok "did:example:1";
  range_order = λ l. l;
}

yaml_back :
    (ids : List IdentityFileStoreId) (d : Bytes) → encode_list ids ≡ some d → ids ≡ one_key "k" ∷ []
yaml_back [] d h = absurd (ground arith)
yaml_back (f ∷ []) d h = elim (Bool-cases (f.type == "ed25519")) [
  | inl is_ed ↦ elim (Bool-cases (f.data_ == "k")) [
    | inl is_k ↦
        let a : f.type ≡ "ed25519" = eq_of_beq f.type "ed25519" is_ed in
        let b : f.data_ ≡ "k" = eq_of_beq f.data_ "k" is_k in
        λ i. record { type = a i; data_ = b i } ∷ []
    | inr other ↦ absurd (ground arith)
  ]
  | inr other ↦ absurd (ground arith)
]
yaml_back (f ∷ g ∷ l) d h = absurd (ground arith)

base_back : (k : Bytes) (t : String) → encode_key k ≡ some t → some (0 ∷ []) ≡ some k
base_back [] t h = absurd (ground arith)
base_back (zero ∷ []) t h = refl
base_back (zero ∷ b ∷ k) t h = absurd (ground arith)
base_back (suc a ∷ k) t h = absurd (ground arith)

small-ReadsBack : ReadsBack small_files
small-ReadsBack = record {
  of_file = λ d f h. refl;
  of_yaml = λ ids d h. ap some (sym (yaml_back ids d h));
  of_base = base_back;
}

abbrev empty_store : FileStore Bytes
empty_store = record { file = []; ids = []; idx = [] }

adds_key : (add small_files (ed25519_identity (0 ∷ [])) empty_store).0 ≡ ok tt
unfolding add add_new write
adds_key = refl

nothing_read : build_idx small_files [] [] ≡ ok []
unfolding build_idx
nothing_read = refl

find-new_file_store_example :
    (t : FileStore Bytes) × (new_file_store small_files
        (add small_files (ed25519_identity (0 ∷ [])) empty_store).1.file
      ≡ ok t)
    × (find t "did:example:1" ≡ ok (ed25519_identity (0 ∷ [])))
find-new_file_store_example =
    find-new_file_store small_files small-ReadsBack (0 ∷ []) "did:example:1" empty_store []
      nothing_read refl refl adds_key

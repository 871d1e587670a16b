-- ===== src/Examples/Hosts.antt =====
-- A node's names, its first start, the resolver and the sending of a message, on concrete inputs.
use didem.Base.{
  ℕ, true, false, none, some, [], ◌∷◌, length, same_bytes, same_bytes_eq, if◌then◌else◌, Bool-cases,
  inl, inr, not_found, wrap, ok, err, ◌≡◌, ◌≢◌, refl, arith,
}
use didem.W3cdid.Url.{text_bytes}
use didem.Tx.{Bytes, pos}
use didem.Comm.Sending.{Network, SendConfig, send}
use didem.Comm.Sending.Outcomes.{send-fails}
use didem.Comm.{ed25519_private}
use didem.Examples.Comm.{small_comm, alice, hello}
use didem.Examples.Objects.{a_document}
use didem.Host.Advertise
use didem.Host.Advertise.{
  Identity, ed25519_identity, Published, public_identity, provided_cid, lookup_cid,
}
use didem.Host.Advertise.Naming.{Documented, lookup-ne-provided}
use didem.Host.Boot.{BootEnv, with_default_options, has_default, new_node}
use didem.Host.Boot.FirstRun.{new_node-first_run}
use didem.Resolver.{Dns, uri, resolve}
use didem.Resolver.Ends.{resolve-fails}

abbrev raw : Bytes → ℕ
raw m = if same_bytes m (1 ∷ []) then 1 else 0

-- a digest is the length, and the encoding is the digest itself
abbrev lengths : Advertise.Names
lengths = record {
  sum384 = λ b. length b ∷ [];
  multihash_sum = λ b. some (length b ∷ []);
  multihash_encode = λ d. some d;
  base58 = λ m. "zzzz";
  from_base58 = λ s. some (1 ∷ []);
  raw_cid = raw;
}

raw_one : (m : Bytes) → raw m ≡ raw (1 ∷ []) → m ≡ 1 ∷ []
raw_one m h = elim (Bool-cases (same_bytes m (1 ∷ []))) [
  | inl t ↦ same_bytes_eq m (1 ∷ []) t
  | inr f ↦ let no : 0 ≡ raw (1 ∷ []) = rw f at h in absurd (omega arith)
]

lengths-Documented : Documented lengths (9 ∷ []) (1 ∷ [])
lengths-Documented = record {
  summed = refl;
  encoded = refl;
  read_back = refl;
  cids = raw_one;
  encodings = λ d e. cc;
  no_collision = λ e. absurd (ground arith);
  longer = omega arith;
}

abbrev four_z : Published
four_z = record { id = "zzzz"; key = 9 ∷ [] }

names_it : public_identity lengths (ed25519_identity (9 ∷ [])) ≡ ok four_z
unfolding public_identity
names_it = refl

provides_one : provided_cid lengths (ed25519_identity (9 ∷ [])) ≡ ok 1
unfolding provided_cid
provides_one = refl

looks_elsewhere : lookup_cid lengths "zzzz" ≡ ok 0
unfolding lookup_cid
looks_elsewhere = refl

lookup-ne-provided_example : ◌≢◌ {A = ℕ} 0 1
lookup-ne-provided_example =
    lookup-ne-provided lengths (9 ∷ []) (1 ∷ []) lengths-Documented four_z 1 0 names_it provides_one
      looks_elsewhere

abbrev boot_env : BootEnv
boot_env = record {
  stat_error = none;
  new_key = ok (5 ∷ []);
  mkdir = ok tt;
  write_error = none;
  unmarshal_key = λ b. some b;
  peer_identity = λ k. ok ("key", "peer");
  ipfs_storage = λ i. ok tt;
  host = λ k. ok tt;
  handlers = ok tt;
}

new_node-first_run_example : new_node boot_env (with_default_options ∷ []) none ≡ (
    if has_default boot_env (with_default_options ∷ [])
    then (err (wrap (wrap not_found)), none)
    else new_node boot_env (with_default_options ∷ []) (some (5 ∷ [])))
new_node-first_run_example =
    new_node-first_run boot_env (with_default_options ∷ []) (5 ∷ []) refl refl refl refl

abbrev small_dns : Dns
small_dns = record {
  has_config = true;
  exchange = λ name. ok (uri (text_bytes "did:key:1") ∷ []);
  authority = λ u. true;
  text = λ u. "text";
}

resolve-fails_example : resolve small_dns 7 (text_bytes "did:dns:example.com") ≢ ok a_document
resolve-fails_example = resolve-fails small_dns 7 (text_bytes "did:dns:example.com") a_document

abbrev one_provider : Network Unit ℕ
one_provider = record {
  recipient_cid = λ id. ok 1;
  find_provider = λ c. ok (1 ∷ []);
  connect = λ a. true;
  open_stream = λ a. some tt;
  now = pos 5;
  nonce = ok (1 ∷ []);
  done_first = false;
}

abbrev full_config : SendConfig
full_config = record {
  id = some (ed25519_private (1 ∷ []));
  public_resolver = some (λ id. ok alice);
}

send-fails_example : send one_provider small_comm true hello full_config ≢ ok tt
send-fails_example = send-fails one_provider small_comm true hello full_config

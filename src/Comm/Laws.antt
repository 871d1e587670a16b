-- ===== src/Comm/Laws.antt =====
-- The handshake of internal/comm.
use didem.Base.{
  ℕ, Error, Bool, true, false, List, [], ◌∷◌, ok, Exec, >>=-eq-ok, continue-eq-ok, wrapped-eq-ok,
  then?-eq-ok, ◌≡◌, ◌≢◌, refl, arith, inl, inr, Result-cases, no_matching_signature,
}
use didem.Tx.{Bytes}
use didem.Storage.TxSet.{wrapped_exec}
use didem.Comm.{
  PublicKey, rsa, ecdsa, ed25519, other_key, PublicIdentity, Message, CommEnv, deref, first,
  or_marshalling, verify, has_matching_signature,
}
use didem.Comm.Server.{
  ServerHandler, require, find_identity, keep_identity, check_sender, check_signature, unsigned,
  validate_hello, validate_client_hello, read_client_hello, exchange, guarded, handle,
}
use didem.Comm.Client
use didem.Comm.Client.{ClientStream, handshake, deliver, validate_server_hello}

-- No scheme accepts an empty signature.
pub record RejectsEmpty {W : Type 0} (env : CommEnv W) : Type 0 where
  pub of_ecdsa : (k : ℕ) (h : Bytes) → env.ecdsa_verify k h [] ≡ false
  pub of_ed25519 : (k b : Bytes) → env.ed25519_verify k b [] ≢ ok true

require-eq-ok : (e : Error) (b : Bool) → require e b ≡ ok tt → b ≡ true
require-eq-ok e true h = refl
require-eq-ok e false h = cc

module _ {W : Type 0} (env : CommEnv W) (rejects : RejectsEmpty env) where
  verify-empty : (k : PublicKey) (b : Bytes) → verify env k b [] ≢ ok tt
  unfolding verify
  verify-empty (rsa k) b h = ground arith
  verify-empty (ecdsa k) b h = ground (arith, rejects.of_ecdsa k (env.sum512 b))
  verify-empty (ed25519 k) b h =
      let (v, checked, good) = then?-eq-ok (env.ed25519_verify k b []) _ h in
      let yes : v ≡ true = ground arith in rejects.of_ed25519 k b (rw yes at checked)
  verify-empty (other_key k) b h = cc

  has_matching_signature-empty :
      (keys : List PublicKey) (b : Bytes) → has_matching_signature env keys b [] ≢ ok true
  unfolding has_matching_signature
  has_matching_signature-empty [] b h = ground arith
  has_matching_signature-empty (k ∷ keys) b h = elim (Result-cases (verify env k b [])) [
    | inl (_, q) ↦ verify-empty k b q
    | inr (inl (e, q)) ↦ has_matching_signature-empty keys b (rw q at h)
    | inr (inr q) ↦ absurd (ground arith)
  ]

  server_signature : (m : Message) → check_signature env (unsigned m) ≢ ok tt
  unfolding check_signature
  server_signature m h =
      let (b, _, h1) = then?-eq-ok (or_marshalling (env.marshal (unsigned m))) _ h in
      let (to, _, h2) = then?-eq-ok (first m.to) _ h1 in
      let (found, matched, h3) =
        then?-eq-ok (has_matching_signature env to.public_keys b []) _ h2 in
      let yes : found ≡ true = require-eq-ok no_matching_signature found h3 in
      has_matching_signature-empty to.public_keys b (rw yes at matched)

  client_signature :
      (known : PublicIdentity) (m : Message) → Client.check_signature env known (unsigned m) ≢ ok tt
  unfolding Client.check_signature
  client_signature known m h =
      let (b, _, h1) = then?-eq-ok (or_marshalling (env.marshal (unsigned m))) _ h in
      let (found, matched, h2) =
        then?-eq-ok (has_matching_signature env known.public_keys b []) _ h1 in
      let yes : found ≡ true = require-eq-ok no_matching_signature found h2 in
      has_matching_signature-empty known.public_keys b (rw yes at matched)

  hello_refused : (s : ServerHandler W) → (validate_client_hello env s).0 ≢ ok tt
  unfolding validate_client_hello validate_hello
  hello_refused s h =
      let (m, _, h1) = continue-eq-ok (deref s.client_hello) _ s h in
      let (k, _, h2) = continue-eq-ok (find_identity env m) _ s h1 in
      let (_, _, h3) = continue-eq-ok (check_sender env m) _ (keep_identity env k s).1 h2 in
      server_signature m h3

  server_hello_refused : (c : ClientStream W) → (validate_server_hello env c).0 ≢ ok tt
  unfolding validate_server_hello
  server_hello_refused c h =
      let (m, _, h1) = continue-eq-ok (deref c.server_hello) _ c h in
      let (known, _, h2) =
        continue-eq-ok (Client.check_identities env c.email c.recipient m) _ c h1 in
      client_signature known m h2

  exchange_fails : (s : ServerHandler W) → (exchange env s).0 ≢ ok tt
  unfolding exchange
  exchange_fails s h =
      let (_, _, h1) = >>=-eq-ok (wrapped_exec (read_client_hello env)) _ s h in
      let (_, checked, _) =
        >>=-eq-ok (wrapped_exec (validate_client_hello env)) _ (read_client_hello env s).1 h1 in
      hello_refused (read_client_hello env s).1 (wrapped-eq-ok _ checked)

  guarded_fails :
      (r i : Bool) (f : Exec (ServerHandler W) Unit) (s : ServerHandler W)
      → (f s).0 ≢ ok tt
      → (guarded env r i f s).0 ≢ ok tt
  guarded_fails true true f s fails h = fails h
  guarded_fails true false f s fails h = cc
  guarded_fails false i f s fails h = cc

  server_fails : (s : ServerHandler W) → (handle env s).0 ≢ ok tt
  unfolding handle
  server_fails s = guarded_fails s.resolver s.id_store (exchange env) s (exchange_fails s)

  client_fails : (c : ClientStream W) → (deliver env c).0 ≢ ok tt
  unfolding deliver handshake
  client_fails c h =
      let (_, shaken, _) = >>=-eq-ok (wrapped_exec (handshake env)) _ c h in
      let (_, _, h1) = >>=-eq-ok (Client.send_hello env) _ c (wrapped-eq-ok _ shaken) in
      let (_, _, h2) = >>=-eq-ok (Client.read_server_hello env) _ (Client.send_hello env c).1 h1 in
      server_hello_refused (Client.read_server_hello env (Client.send_hello env c).1).1 h2

  -- Where no scheme accepts an empty signature, no receiver ever accepts a message, in any state of its
  -- handler, and no sender gets past the handshake of any of its streams: both verify the signature of
  -- the hello that they have just cleared.
  pub no_message_delivered :
      (s : ServerHandler W) (c : ClientStream W)
      → ((handle env s).0 ≢ ok tt) × ((deliver env c).0 ≢ ok tt)
  no_message_delivered s c = (server_fails s, client_fails c)

-- ===== src/Comm/Sending/Outcomes.antt =====
-- What Send of internal/comm/handler.go and the client's handler come to.
use didem.Base.{
  Bool, false, Option, none, some, List, [], ◌∷◌, Error, Result, ok, err, panic, wrapped,
  then?-eq-ok, no_public_resolver, no_sender_identity, no_resolver, no_sender, if◌then◌else◌, ◌≡◌,
  ◌≢◌, refl, All,
}
use didem.Tx.{Bytes}
use didem.Comm.{PrivateKey, Message, CommEnv, first}
use didem.Comm.Client.{deliver}
use didem.Comm.Sending.{
  Network, ClientHandler, SendConfig, SendOption, with_identity, set_options, connect_end_providers,
  stream_of, deliver_each, or_error, outcome, handle, send, or_no_sender, has_recipient, present,
}

set_options-public_resolver :
    (opts : List SendOption) (cfg : SendConfig)
    → (set_options opts cfg).public_resolver ≡ cfg.public_resolver
unfolding set_options
set_options-public_resolver [] cfg = refl
set_options-public_resolver (with_identity k ∷ l) cfg =
    set_options-public_resolver l (record cfg { id = some k })

module _ {W A : Type 0} (net : Network W A) (env : CommEnv W) where
  handle-no_identity : (c : ClientHandler) → c.identity ≡ none → handle net env c ≢ ok tt
  unfolding handle
  handle-no_identity c e h =
      let (_, _, h1) = then?-eq-ok (if c.resolver then ok tt else err no_resolver) _ h in
      let (k, h2, _) = then?-eq-ok (or_no_sender net env c.identity) _ h1 in
      let no : err no_sender ≡ ok k = rw e at h2 in cc

  -- `send` never sends: with any configuration and any recipient it gives an error, at the latest
  -- because the client that it makes has no sender's identity.
  pub send-fails :
      (has_resolver : Bool) (m : Message) (cfg : SendConfig)
      → send net env has_resolver m cfg ≢ ok tt
  unfolding send
  send-fails has_resolver m cfg h =
      let (_, _, h1) = then?-eq-ok (present net env no_sender_identity cfg.id) _ h in
      let (_, _, h2) = then?-eq-ok (has_recipient net env m) _ h1 in
      let (resolve, _, h3) =
        then?-eq-ok (present net env no_public_resolver cfg.public_resolver) _ h2 in
      let (to, _, h4) = then?-eq-ok (first m.to) _ h3 in
      let (r, _, h5) = then?-eq-ok (wrapped (resolve to.id)) _ h4 in
      handle-no_identity
        (record { email = m; identity = none; recipient = r; resolver = has_resolver }) refl h5

  or_no_sender-eq-ok :
      (o : Option PrivateKey) {k : PrivateKey} → or_no_sender net env o ≡ ok k → o ≡ some k
  or_no_sender-eq-ok none h = cc
  or_no_sender-eq-ok (some k) h = cc

  -- every stream's delivery has succeeded
  abbrev pub Delivered : ClientHandler → PrivateKey → Message → List W → Type 0
  Delivered c k m ss = All (λ s. (deliver env (stream_of net env c k m s)).0 ≡ ok tt) ss

  or_error-nil :
      (r : Result Unit) (l : Result (List Error))
      → or_error net env r l ≡ ok []
      → (r ≡ ok tt) × (l ≡ ok [])
  or_error-nil (ok _) l h = (refl, h)
  or_error-nil (err e) (ok l) h = cc
  or_error-nil (err e) (err x) h = cc
  or_error-nil (err e) panic h = cc
  or_error-nil panic l h = cc

  deliver_each-Delivered :
      (c : ClientHandler) (k : PrivateKey) (m : Message) (ss : List W)
      → deliver_each net env c k m ss ≡ ok []
      → Delivered c k m ss
  unfolding deliver_each
  deliver_each-Delivered c k m [] h = tt
  deliver_each-Delivered c k m (s ∷ l) h =
      let (one, rest) =
        or_error-nil (deliver env (stream_of net env c k m s)).0 (deliver_each net env c k m l) h in
      (one, deliver_each-Delivered c k m l rest)

  outcome-ok : (l : List Error) → net.done_first ≡ false → outcome net env l ≡ ok tt → l ≡ []
  outcome-ok [] first h = refl
  outcome-ok (e ∷ []) first h = let no : err e ≡ ok tt = rw first at h in cc
  outcome-ok (e ∷ x ∷ l) first h = cc

  -- Where an error is seen before the end, the client's success means that it had an identity and a
  -- resolver, that it found and reached a provider of the recipient, and that on every stream it could
  -- open the message was delivered, with the time and the nonce that were given to it.
  pub handle-Delivered :
      (c : ClientHandler)
      → net.done_first ≡ false
      → handle net env c ≡ ok tt
      → (k : PrivateKey) × (n : Bytes) × (ss : List W) × (c.identity ≡ some k)
        × (connect_end_providers net c.recipient ≡ ok ss)
        × Delivered c k (record c.email { created_time = net.now; nonce = n }) ss
  unfolding handle
  handle-Delivered c first h =
      let (_, _, h1) = then?-eq-ok (if c.resolver then ok tt else err no_resolver) _ h in
      let (k, sender, h2) = then?-eq-ok (or_no_sender net env c.identity) _ h1 in
      let (n, _, h3) = then?-eq-ok (wrapped net.nonce) _ h2 in
      let (ss, found, h4) = then?-eq-ok (connect_end_providers net c.recipient) _ h3 in
      let m : Message = record c.email { created_time = net.now; nonce = n } in
      let (l, errors, h5) = then?-eq-ok (deliver_each net env c k m ss) _ h4 in
      let none' : l ≡ [] = outcome-ok l first h5 in
      (
        k,
        n,
        ss,
        or_no_sender-eq-ok c.identity sender,
        found,
        deliver_each-Delivered c k m ss (rw none' at errors),
      )

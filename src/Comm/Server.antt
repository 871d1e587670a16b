-- ===== src/Comm/Server.antt =====
-- internal/comm/serverHandler.go: the receiving side of a message.
use didem.Base.{
  Bool, true, false, Option, none, some, List, [], ◌∷◌, Result, ok, err, panic, Exec, pure, fail,
  lift, ◌>>=◌, continue, wrapped, wrap, ◌then?◌, unmarshalling, no_resolver, no_identity_store,
  unexpected_body, unexpected_attachments, identity_mismatch, no_matching_signature, Error,
}
use didem.Tx.{Bytes, pos}
use didem.Storage.TxSet.{wrapped_exec}
use didem.Comm.{
  PrivateKey, Message, CommEnv, matches, deref, first, or_marshalling, has_matching_signature,
  sign_message,
}

pub record ServerHandler (W : Type 0) : Type 0 where
  -- whether the two are set
  pub resolver : Bool
  pub id_store : Bool
  pub stream : W
  pub client_hello : Option Message
  pub identity : Option PrivateKey
  pub received : Option Message

abbrev pub empty_message : Message
empty_message = record {
  type = "";
  id = "";
  thread_id = "";
  created_time = pos 0;
  expires_time = pos 0;
  from = none;
  to = [];
  nonce = [];
  signature = [];
  body = [];
  attachments = [];
}

-- `NewServerHandler`, which sets no resolver
abbrev pub new_server_handler : {W : Type 0} → W → Bool → ServerHandler W
new_server_handler nstream id_store = record {
  resolver = false;
  id_store = id_store;
  stream = nstream;
  client_hello = none;
  identity = none;
  received = none;
}

abbrev pub unsigned : Message → Message
unsigned m = record m { signature = [] }

abbrev pub when_empty : {A B : Type 0} → Error → List A → Result B → Result B
when_empty e [] r = r
when_empty e (x ∷ l) r = err e

abbrev pub require : Error → Bool → Result Unit
require e true = ok tt
require e false = err e

module _ {W : Type 0} (env : CommEnv W) where
  abbrev pub outside : {A : Type 0} → Exec W A → Exec (ServerHandler W) A
  outside f s = let (r, w) = f s.stream in (r, record s { stream = w })

  abbrev pub decoded : Bytes → Result Message
  decoded b = elim (env.unmarshal b) [ none ↦ err (wrap unmarshalling) | some m ↦ ok m ]

  abbrev pub keep_hello : Result Message → Exec (ServerHandler W) Unit
  keep_hello (ok m) s = (ok tt, record s { client_hello = some m })
  keep_hello (err e) s = (err e, record s { client_hello = some empty_message })
  keep_hello panic s = (panic, s)

  unfoldable pub read_client_hello : Exec (ServerHandler W) Unit
  read_client_hello = wrapped_exec (outside env.read) >>= λ b. keep_hello (decoded b)

  -- the checks before the identity is kept
  abbrev pub find_identity : Message → Result PrivateKey
  find_identity h = when_empty unexpected_body h.body (
      when_empty unexpected_attachments h.attachments
        (first h.to then? λ to. wrapped (env.find to.id)))

  -- the sender is the one that the resolver knows
  unfoldable pub check_sender : Message → Result Unit
  unfolding matches
  check_sender h = deref h.from then? λ from.
      wrapped (env.resolve_pi from.id) then? λ pk. matches pk from then? require identity_mismatch

  -- a key of the recipient verifies the signature of the message
  unfoldable pub check_signature : Message → Result Unit
  unfolding has_matching_signature
  check_signature hd = or_marshalling (env.marshal hd) then? λ b. first hd.to then? λ to.
      has_matching_signature env to.public_keys b hd.signature then? require no_matching_signature

  -- `hd := s.clientHello; hd.Signature = nil`: the hello itself loses its signature
  abbrev pub clear_signature : Message → Exec (ServerHandler W) Message
  clear_signature h s = (ok (unsigned h), record s { client_hello = some (unsigned h) })

  abbrev pub keep_identity : PrivateKey → Exec (ServerHandler W) Unit
  keep_identity k s = (ok tt, record s { identity = some k })

  unfoldable pub validate_hello : Message → Exec (ServerHandler W) Unit
  unfolding check_sender check_signature
  validate_hello h = lift (find_identity h) >>= λ k. keep_identity k >>= λ _.
      lift (check_sender h) >>= λ _. clear_signature h >>= λ hd. lift (check_signature hd)

  unfoldable pub validate_client_hello : Exec (ServerHandler W) Unit
  unfolding validate_hello
  validate_client_hello s = continue (deref s.client_hello) validate_hello s

  -- From and To are swapped, the nonce is new.
  unfoldable pub make_hello : Exec (ServerHandler W) Message
  make_hello s =
      continue (deref s.client_hello)
        (λ h. lift (first h.to) >>= λ to. wrapped_exec (outside env.rand_nonce) >>= λ n.
          pure (record empty_message {
            created_time = h.created_time;
            from = some to;
            to = h.from ∷ [];
            nonce = n;
          }))
        s

  unfoldable pub send_hello : Exec (ServerHandler W) Unit
  unfolding make_hello sign_message
  send_hello s =
      (make_hello >>= λ hello. lift (deref s.identity) >>= λ k.
      lift (wrapped (sign_message env k hello)) >>= λ signed.
      lift (or_marshalling (env.marshal signed)) >>= λ b. outside (env.write b))
        s

  -- sender and recipient are those of the hello
  unfoldable pub check_peers : Message → Message → Result Unit
  unfolding matches
  check_peers h m = deref h.from then? λ from. deref m.from then? λ sender.
      matches from sender then? require identity_mismatch then? λ _. first h.to then? λ to.
      first m.to then? λ recipient. matches to recipient then? require identity_mismatch

  -- the signature that is looked at is the one of the hello again
  unfoldable pub validate_email : Exec (ServerHandler W) Unit
  unfolding check_peers check_signature
  validate_email s =
      continue (deref s.client_hello)
        (λ h. lift (deref s.received then? check_peers h) >>= λ _.
          clear_signature h >>= λ hd. lift (check_signature hd))
        s

  abbrev pub keep_received : Result Message → Exec (ServerHandler W) Unit
  keep_received (ok m) s = (ok tt, record s { received = some m })
  keep_received (err e) s = (err e, record s { received = some empty_message })
  keep_received panic s = (panic, s)

  unfoldable pub read_email : Exec (ServerHandler W) Unit
  unfolding validate_email
  read_email = outside env.read >>= λ b. keep_received (decoded b) >>= λ _. validate_email

  unfoldable pub deliver : Exec (ServerHandler W) Unit
  deliver s = continue (deref s.received) (λ m. outside (env.add_to_inbox m)) s

  -- `defer s.stream.Close()`
  abbrev pub closing : Exec (ServerHandler W) Unit → Exec (ServerHandler W) Unit
  closing f s = let (r, t) = f s in (r, record t { stream = env.close t.stream })

  unfoldable pub exchange : Exec (ServerHandler W) Unit
  unfolding read_client_hello validate_client_hello send_hello read_email deliver
  exchange = wrapped_exec read_client_hello >>= λ _. wrapped_exec validate_client_hello >>= λ _.
      wrapped_exec send_hello >>= λ _. wrapped_exec read_email >>= λ _. deliver

  -- the two checks before the exchange
  abbrev pub guarded : Bool → Bool → Exec (ServerHandler W) Unit → Exec (ServerHandler W) Unit
  guarded true true f = closing f
  guarded true false f = fail no_identity_store
  guarded false _ f = fail no_resolver

  -- `handle`
  unfoldable pub handle : Exec (ServerHandler W) Unit
  unfolding exchange
  handle s = guarded s.resolver s.id_store exchange s

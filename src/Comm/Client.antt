-- ===== src/Comm/Client.antt =====
-- internal/comm/clientHandler.go: the sending side of a message, on one stream.
use didem.Base.{
  ℕ, ◌+◌, Bool, true, false, ◌||◌, not, Option, none, some, List, [], ◌∷◌, ◌==◌, string_eq, nat_eqb,
  Result, ok, err, panic, Exec, pure, lift, ◌>>=◌, continue, wrapped, wrap, ◌then?◌, unmarshalling,
  hello_too_old, empty_nonce, no_identity, unexpected_recipient, unexpected_sender,
  identity_mismatch, no_matching_signature, unknown_identity,
}
use didem.Tx.{Bytes}
use didem.Storage.TxSet.{wrapped_exec}
use didem.Comm.{
  PrivateKey, PublicIdentity, Message, CommEnv, matches, deref, first, or_marshalling,
  has_matching_signature, sign_message,
}
use didem.Comm.Server.{empty_message, require, unsigned}

-- `ClientStream` with what it uses of its handler
pub record ClientStream (W : Type 0) : Type 0 where
  pub email : Message
  pub identity : PrivateKey
  pub recipient : PublicIdentity
  pub stream : W
  pub server_hello : Option Message

abbrev pub sum : Bytes → ℕ
sum [] = 0
sum (b ∷ bs) = b + sum bs

abbrev pub is_empty : {A : Type 0} → List A → Bool
is_empty [] = true
is_empty (x ∷ l) = false

-- any error of the resolver becomes another one
abbrev pub resolved : Result PublicIdentity → Result PublicIdentity
resolved (ok p) = ok p
resolved (err e) = err unknown_identity
resolved panic = panic

module _ {W : Type 0} (env : CommEnv W) where
  abbrev pub outside : {A : Type 0} → Exec W A → Exec (ClientStream W) A
  outside f s = let (r, w) = f s.stream in (r, record s { stream = w })

  unfoldable pub make_hello : Exec (ClientStream W) Message
  make_hello s =
      (wrapped_exec (outside env.rand_nonce) >>= λ n. pure (record empty_message {
        created_time = s.email.created_time;
        from = s.email.from;
        to = s.email.to;
        nonce = n;
      }))
        s

  unfoldable pub send_hello : Exec (ClientStream W) Unit
  unfolding make_hello sign_message
  send_hello s =
      (wrapped_exec make_hello >>= λ hello.
      lift (wrapped (sign_message env s.identity hello)) >>= λ signed.
      lift (or_marshalling (env.marshal signed)) >>= λ b. outside (env.write b))
        s

  abbrev pub decoded : Bytes → Result Message
  decoded b = elim (env.unmarshal b) [ none ↦ err (wrap unmarshalling) | some m ↦ ok m ]

  abbrev pub keep_hello : Message → Exec (ClientStream W) Unit
  keep_hello m s = (ok tt, record s { server_hello = some m })

  unfoldable pub read_server_hello : Exec (ClientStream W) Unit
  read_server_hello = wrapped_exec (outside env.read) >>= λ b. lift (decoded b) >>= keep_hello

  abbrev pub check_window : Message → Result Unit
  check_window h =
      require hello_too_old
        (not (env.before_window h.created_time || env.after_window h.created_time))

  -- the identities of the hello, and the keys of its sender as the resolver knows them
  unfoldable pub check_identities : Message → PublicIdentity → Message → Result PublicIdentity
  unfolding matches
  check_identities email recipient h = check_window h then? λ _.
      require empty_nonce (not (nat_eqb (sum h.nonce) 0)) then? λ _. first h.to then? λ to.
      require no_identity (not (to.id == "" || is_empty to.public_keys)) then? λ _.
      deref h.from then? λ from. require unexpected_recipient (from.id == recipient.id) then? λ _.
      matches recipient from then? require identity_mismatch then? λ _.
      deref email.from then? λ sender.
      require unexpected_sender (to.id == sender.id) then? λ _. resolved (env.resolve_pi from.id)

  abbrev pub clear_signature : Message → Exec (ClientStream W) Message
  clear_signature h s = (ok (unsigned h), record s { server_hello = some (unsigned h) })

  -- a known key of the recipient verifies the signature of the message
  unfoldable pub check_signature : PublicIdentity → Message → Result Unit
  unfolding has_matching_signature
  check_signature known hd = or_marshalling (env.marshal hd) then? λ b.
      has_matching_signature env known.public_keys b hd.signature
      then? require no_matching_signature

  unfoldable pub validate_server_hello : Exec (ClientStream W) Unit
  unfolding check_identities check_signature
  validate_server_hello s =
      continue (deref s.server_hello)
        (λ h. lift (check_identities s.email s.recipient h) >>= λ known.
          clear_signature h >>= λ hd. lift (check_signature known hd))
        s

  unfoldable pub handshake : Exec (ClientStream W) Unit
  unfolding send_hello read_server_hello validate_server_hello
  handshake = send_hello >>= λ _. read_server_hello >>= λ _. validate_server_hello

  unfoldable pub send : Exec (ClientStream W) Unit
  send s =
      (lift (or_marshalling (env.marshal s.email)) >>= λ b.
      wrapped_exec (outside (env.write_raw b)))
        s

  -- what the client does on each of its streams
  unfoldable pub deliver : Exec (ClientStream W) Unit
  unfolding handshake send
  deliver = wrapped_exec handshake >>= λ _. send

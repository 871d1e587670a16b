-- ===== src/Comm/Sending.antt =====
-- internal/comm: Send of handler.go with pkg/comm/sendOptions.go, and what clientHandler.go does around
-- its streams: finding the recipient's providers, connecting to them, one delivery on each stream.
pub mod Outcomes
use didem.Base.{
  ℕ, suc, ◌+◌, Bool, true, false, Option, none, some, List, [], ◌∷◌, String, if◌then◌else◌, Error,
  Result, ok, err, panic, wrapped, wrap, ◌then?◌, no_resolver, no_sender, no_sender_identity,
  no_recipient, no_public_resolver, no_providers, no_provider_connected,
}
use didem.Tx.{Bytes, Cid, Int64}
use didem.Comm.{PrivateKey, PublicIdentity, Message, CommEnv, first}
use didem.Comm.Client.{ClientStream, deliver}

-- The node: the CID of a recipient's name, who provides it, and the streams to them, in the order in
-- which connecting and opening end; the clock and the random source.
pub record Network (W A : Type 0) : Type 0 where
  pub recipient_cid : String → Result Cid
  pub find_provider : Cid → Result (List A)
  pub connect : A → Bool
  pub open_stream : A → Option W
  pub now : Int64
  pub nonce : Result Bytes
  -- whether the end of all deliveries is seen before an error that is there at the same time
  pub done_first : Bool

-- `ClientHandler`
pub record ClientHandler : Type 0 where
  pub email : Message
  pub identity : Option PrivateKey
  pub recipient : PublicIdentity
  -- whether it is set
  pub resolver : Bool

-- `SendConfig`, and `SendOption` with the one option there is
pub record SendConfig : Type 0 where
  pub id : Option PrivateKey
  pub public_resolver : Option (String → Result PublicIdentity)

pub data SendOption : Type 0 where
  with_identity : PrivateKey → SendOption

-- `NewDefaultSendConfig`
abbrev pub default_config : SendConfig
default_config = record { id = none; public_resolver = none }

unfoldable pub set_options : List SendOption → SendConfig → SendConfig
set_options [] cfg = cfg
set_options (with_identity k ∷ l) cfg = set_options l (record cfg { id = some k })

module _ {W A : Type 0} (net : Network W A) where
  -- `findProviders`
  unfoldable pub find_providers : PublicIdentity → Result (List A)
  find_providers r = net.recipient_cid r.id then? λ c. wrapped (net.find_provider c)

  unfoldable pub connected : List A → List A
  connected [] = []
  connected (a ∷ l) = let rest = connected l in if net.connect a then a ∷ rest else rest

  abbrev pub or_skip : Option W → List W → List W
  or_skip none l = l
  or_skip (some s) l = s ∷ l

  -- an address whose stream cannot be opened is left out
  unfoldable pub streams : List A → List W
  streams [] = []
  streams (a ∷ l) = or_skip (net.open_stream a) (streams l)

  abbrev pub non_empty : Error → List A → Result (List A)
  non_empty e [] = err e
  non_empty e (a ∷ l) = ok (a ∷ l)

  -- `connectEndProviders`
  unfoldable pub connect_end_providers : PublicIdentity → Result (List W)
  unfolding find_providers connected streams
  connect_end_providers r = wrapped (find_providers r) then? λ addrs.
      non_empty no_providers addrs then? λ some_addrs.
      non_empty no_provider_connected (connected some_addrs) then? λ there. ok (streams there)

  module _ (env : CommEnv W) where
    abbrev pub stream_of : ClientHandler → PrivateKey → Message → W → ClientStream W
    stream_of c k m s = record {
      email = m;
      identity = k;
      recipient = c.recipient;
      stream = s;
      server_hello = none;
    }

    abbrev pub or_error : Result Unit → Result (List Error) → Result (List Error)
    or_error (ok _) l = l
    or_error (err e) (ok l) = ok (e ∷ l)
    or_error (err e) l = l
    or_error panic l = panic

    -- the goroutines, each on its own stream: the errors that they give
    unfoldable pub deliver_each :
        ClientHandler → PrivateKey → Message → List W → Result (List Error)
    deliver_each c k m [] = ok []
    deliver_each c k m (s ∷ l) = or_error (deliver env (stream_of c k m s)).0 (deliver_each c k m l)

    -- The wait for an error or for the end of all. The channel holds one error: a goroutine with a
    -- second one never ends, and neither does the wait for all.
    abbrev pub outcome : List Error → Result Unit
    outcome [] = ok tt
    outcome (e ∷ []) = if net.done_first then ok tt else err e
    outcome (e ∷ _ ∷ _) = err e

    abbrev pub or_no_sender : Option PrivateKey → Result PrivateKey
    or_no_sender none = err no_sender
    or_no_sender (some k) = ok k

    -- `ClientHandler.handle`
    unfoldable pub handle : ClientHandler → Result Unit
    unfolding connect_end_providers deliver_each
    handle c = (if c.resolver then ok tt else err no_resolver) then? λ _.
        or_no_sender c.identity then? λ k. wrapped net.nonce then? λ n.
        connect_end_providers c.recipient then? λ ss.
        deliver_each c k (record c.email { created_time = net.now; nonce = n }) ss then? outcome

    abbrev pub present : {B : Type 0} → Error → Option B → Result B
    present e none = err e
    present e (some b) = ok b

    abbrev pub has_recipient : Message → Result Unit
    has_recipient m = elim m.to [ [] ↦ err no_recipient | _ ↦ ok tt ]

    -- `Handler.send`: the identity of the configuration is not handed on to the client
    unfoldable pub send : Bool → Message → SendConfig → Result Unit
    unfolding handle
    send has_resolver m cfg = present no_sender_identity cfg.id then? λ _.
        has_recipient m then? λ _. present no_public_resolver cfg.public_resolver then? λ resolve.
        first m.to then? λ to. wrapped (resolve to.id) then? λ r.
        handle (record { email = m; identity = none; recipient = r; resolver = has_resolver })

    -- `Handler.Send`
    unfoldable pub send_with : Bool → Message → List SendOption → Result Unit
    unfolding send set_options
    send_with has_resolver m opts = send has_resolver m (set_options opts default_config)

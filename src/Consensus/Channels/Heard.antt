-- ===== src/Consensus/Channels/Heard.antt =====
-- What pkg/did/consensus/p2p.go lets an engine hear and publish.
use didem.Base.{
  Option, none, some, List, [], ◌∷◌, String, string_eq, nat_eq, beq_refl, if◌then◌else◌, Result, ok,
  err, panic, continue, lookup, lookup-insert, not_subscribed, same_bytes, ◌≡◌, ◌∙◌, refl, ap,
}
use didem.Tx.{Bytes}
use didem.Storage.TxSet.{wrapped_exec}
use didem.Consensus.Msg.{PeerId, Msg}
use didem.Consensus.Channels.{
  Received, Router, P2p, forward, topic_of, keep_topic, on_router, msgs, publish_context,
}

-- a message that a peer publishes, with the key that the router sends along
pub record Published : Type 0 where
  pub by : PeerId
  pub msg : Msg
  pub key : Bytes

module _ {R T : Type 0} (net : Router R T) where
  -- The encoding is read back, and peers are told apart by theirs.
  pub record IsFaithful : Type 0 where
    pub encode : Msg → Bytes
    pub marshalled : (m : Msg) → net.marshal_msg m ≡ some (encode m)
    pub read_back : (m : Msg) → net.unmarshal_msg (encode m) ≡ some m

  -- what the others hear of it
  unfoldable pub received : (Msg → Bytes) → List Published → List Received
  received encode [] = []
  received encode (p ∷ ps) =
      record { from = net.marshal_peer p.by; contents = encode p.msg; key = p.key }
      ∷ received encode ps

  abbrev pub heard_one : PeerId → Published → List Msg → List Msg
  heard_one self p l =
      if same_bytes (net.marshal_peer self) (net.marshal_peer p.by)
      then l
      else record p.msg { key = p.key } ∷ l

  -- the messages of the others, in order
  unfoldable pub heard : PeerId → List Published → List Msg
  heard self [] = []
  heard self (p ∷ ps) = heard_one self p (heard self ps)

  -- Where the encoding is read back, an engine hears the messages that the other peers published, in
  -- their order, each with the key that the router gives, and none of its own.
  pub forward-received :
      (faithful : IsFaithful) (self : PeerId) (ps : List Published)
      → forward net self (received faithful.encode ps) ≡ heard self ps
  unfolding forward received heard
  forward-received faithful self [] = refl
  forward-received faithful self (p ∷ ps) =
      rw (faithful.read_back p.msg, forward-received faithful self ps) refl

  joined :
      (channel : String) (r : Result T) (p : P2p R T) {t : T}
      → (continue r (keep_topic net channel) p).0 ≡ ok t
      → lookup channel (continue r (keep_topic net channel) p).1.topics ≡ some t
  joined channel (ok a) p h = rw (lookup-insert channel channel a p.topics, beq_refl channel) (cc)
  joined channel (err e) p h = cc
  joined channel panic p h = cc

  topic_of-lookup :
      (channel : String) (o : Option T) (p : P2p R T) {t : T}
      → lookup channel p.topics ≡ o
      → (topic_of net channel o p).0 ≡ ok t
      → lookup channel (topic_of net channel o p).1.topics ≡ some t
  topic_of-lookup channel (some t) p e h = cc
  topic_of-lookup channel none p e h =
      let (r, q) = wrapped_exec (on_router net (net.join channel)) p in joined channel r q h

  subscribed :
      (r : Result T) (p : P2p R T)
      → (continue r (λ t. wrapped_exec (on_router net (net.subscribe t))) p).0 ≡ ok tt
      → (t : T) × (r ≡ ok t)
        × ((continue r (λ t. wrapped_exec (on_router net (net.subscribe t))) p).1.topics ≡ p.topics)
  subscribed (ok t) p h = (t, refl, refl)
  subscribed (err e) p h = cc
  subscribed panic p h = cc

  msgs-lookup :
      (channel : String) (p : P2p R T)
      → (msgs net channel p).0 ≡ ok tt
      → (t : T) × (lookup channel (msgs net channel p).1.topics ≡ some t)
  unfolding msgs
  msgs-lookup channel p h =
      let o = lookup channel p.topics in
      let found = topic_of net channel o p in
      let (t, got, same) = subscribed found.0 found.1 h in
      (t, ap (lookup channel) same ∙ topic_of-lookup channel o p refl got)

  -- On a channel that was never joined nothing is published, and nothing changes; once `Msgs` has
  -- succeeded for it, every message is given to the router under the channel's topic, encoded.
  pub publish-msgs :
      (faithful : IsFaithful) (channel : String) (p : P2p R T) (m : Msg)
      → (lookup channel p.topics ≡ none → publish_context net channel m p ≡ (err not_subscribed, p))
        × ((msgs net channel p).0 ≡ ok tt
            → (t : T) × (publish_context net channel m (msgs net channel p).1
                ≡ on_router net (net.publish t (faithful.encode m)) (msgs net channel p).1))
  unfolding publish_context
  publish-msgs faithful channel p m = (
    λ e. rw e refl,
    λ h. let (t, e) = msgs-lookup channel p h in (t, rw (e, faithful.marshalled m) refl),
  )

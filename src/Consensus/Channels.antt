-- ===== src/Consensus/Channels.antt =====
-- pkg/did/consensus/p2p.go: the topics that an engine has joined, what it hears and what it publishes;
-- and `Start` of consensus.go, which subscribes to two of them.
pub mod Heard
use didem.Base.{
  Bool, true, false, ◌&&◌, Option, none, some, List, [], ◌∷◌, String, Result, ok, err, panic, Exec,
  wrapped, wrap, ◌>>=◌, ◌==◌, string_eq, nat_eq, Comparable, if◌then◌else◌, lookup, insert, Error,
  not_subscribed, lift, continue, same_bytes,
}
use didem.Tx.{Bytes}
use didem.Storage.TxSet.{wrapped_exec}
use didem.Consensus.Msg.{PeerId, Msg}
use didem.Consensus.Engine.{Engine, stopped}
use didem.Consensus.Send.{or_marshalling}

-- a message of a topic, as the router hands it over
pub record Received : Type 0 where
  pub from : Bytes
  pub contents : Bytes
  pub key : Bytes

-- The router, with a type for its topics; publishing waits until another node is in the topic.
pub record Router (R T : Type 0) : Type 0 where
  pub join : String → Exec R T
  pub subscribe : T → Exec R Unit
  pub publish : T → Bytes → Exec R Unit
  pub marshal_peer : PeerId → Bytes
  pub marshal_msg : Msg → Option Bytes
  pub unmarshal_msg : Bytes → Option Msg

-- `p2p`
pub record P2p (R T : Type 0) : Type 0 where
  pub router : R
  pub self : PeerId
  pub topics : List (String × T)

-- `newP2P`
abbrev pub new_p2p : {R T : Type 0} → PeerId → R → P2p R T
new_p2p id router = record { router = router; self = id; topics = [] }

-- a message that cannot be decoded is left out; the key is the router's
abbrev pub with_key : Bytes → Option Msg → List Msg → List Msg
with_key k none l = l
with_key k (some m) l = record m { key = k } ∷ l

module _ {R T : Type 0} (net : Router R T) where
  -- the loop of `Msgs` over what the subscription gives: what goes into the channel, in order
  unfoldable pub forward : PeerId → List Received → List Msg
  forward self [] = []
  forward self (m ∷ ms) =
      let rest = forward self ms in
      if same_bytes (net.marshal_peer self) m.from
      then rest
      else with_key m.key (net.unmarshal_msg m.contents) rest

  abbrev pub on_router : {A : Type 0} → Exec R A → Exec (P2p R T) A
  on_router f p = let (r, s) = f p.router in (r, record p { router = s })

  abbrev pub keep_topic : String → T → Exec (P2p R T) T
  keep_topic channel t p = (ok t, record p { topics = insert channel t p.topics })

  -- a topic is joined once
  abbrev pub topic_of : String → Option T → Exec (P2p R T) T
  topic_of channel (some t) p = (ok t, p)
  topic_of channel none p =
      (wrapped_exec (on_router (net.join channel)) >>= λ t. keep_topic channel t) p

  -- `Msgs` up to its channel
  unfoldable pub msgs : String → Exec (P2p R T) Unit
  msgs channel p =
      (topic_of channel (lookup channel p.topics) >>= λ t.
      wrapped_exec (on_router (net.subscribe t)))
        p

  abbrev pub or_not_subscribed : Option T → Result T
  or_not_subscribed none = err not_subscribed
  or_not_subscribed (some t) = ok t

  -- `PublishContext`
  unfoldable pub publish_context : String → Msg → Exec (P2p R T) Unit
  publish_context channel m p =
      (lift (or_not_subscribed (lookup channel p.topics)) >>= λ t.
      lift (or_marshalling (net.marshal_msg m)) >>= λ b. on_router (net.publish t b))
        p

  abbrev pub msgs_chan_name : String
  msgs_chan_name = "/did/msgs"

  abbrev pub tx_chan_name : String
  tx_chan_name = "/did/tx"

  -- `subscribeMsgs`, then `subscribeTx`
  unfoldable pub subscribe_all : Exec (P2p R T) Unit
  unfolding msgs
  subscribe_all = wrapped_exec (wrapped_exec (msgs msgs_chan_name)) >>= λ _.
      wrapped_exec (wrapped_exec (msgs tx_chan_name))

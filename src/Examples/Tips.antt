-- ===== src/Examples/Tips.antt =====
-- Two nodes of a test chain, one of which asks the other for its tip, and a main net.
use didem.Base.{
  ℕ, true, false, not, ◌&&◌, Option, none, some, List, [], ◌∷◌, String, string_eq, ◌==◌, length,
  take, lookup, nat_eqb, if◌then◌else◌, eof, ctx_timeout, wrap, same_bytes, Result, ok, err, ◌≡◌,
  ◌≢◌, refl, arith, pure,
}
use didem.W3cdid.Url.{text_bytes}
use didem.Tx.{Bytes}
use didem.Consensus.Msg.{PeerId}
use didem.Consensus.State.{State}
use didem.Consensus.Channels.{Router, new_p2p}
use didem.Stream
use didem.Stream.{wire}
use didem.Stream.Laws.{delivered, fresh, read-write}
use didem.Did.Tips.{ConsensusRequest, tip, other_request, Codec, or_zero, req_tip, ask_for_tip}
use didem.Did.Tips.Counts.{answered, count, ask_for_tip-counts}
use didem.Did.Exchange.{IsFaithful, asking, replies, req_tip-handle}
use didem.Did.Start.{Attempt, Handler, TipEnv, gather, start, use_tip}
use didem.Did.Start.Attempts.{start-main_net, start-keeps_state}
use didem.Did.Start.TestNet.{start-test_net}
use didem.Examples.Engine.{small_store, new_engine}
use didem.Examples.Objects.{small_judge}

abbrev test_chain : Bytes
test_chain = text_bytes "test1"

-- the tip of the node that is asked
abbrev seven : String
seven = "7"

abbrev marshal : ConsensusRequest → Option Bytes
marshal (tip r) = some r.chain_id
marshal other_request = none

abbrev tip_codec : Codec
tip_codec = record {
  marshal_request = marshal;
  unmarshal_request = λ b. some (tip (record { chain_id = b }));
  marshal_response = λ r. some r.chain_id;
  unmarshal_response = λ b. some (record { tip = seven; chain_id = b });
}

tip-IsFaithful : IsFaithful tip_codec test_chain seven test_chain
tip-IsFaithful = record {
  request = test_chain;
  response = test_chain;
  asks = refl;
  asked = refl;
  answers = refl;
  answered = refl;
  request_fits = omega arith;
  response_fits = omega arith;
}

-- one peer of the chain, one of drand
abbrev meeting : Attempt Stream.Wire
meeting = record {
  rounds = (("q", false) ∷ ("d", true) ∷ []) ∷ [];
  shuffled = λ l. l;
  answering = λ l. l;
  streams = asking tip_codec (replies tip_codec test_chain seven);
  late = false;
}

abbrev quiet_router : Router Unit Unit
quiet_router = record {
  join = λ channel. pure tt;
  subscribe = λ t. pure tt;
  publish = λ t b. pure tt;
  marshal_peer = λ p. text_bytes p;
  marshal_msg = λ m. none;
  unmarshal_msg = λ b. none;
}

abbrev tip_env : TipEnv
tip_env = record { cid_string = λ c. "0"; cid_parse = λ s. some 7; fuel = 4 }

abbrev node_on : Bytes → Handler Unit Unit Unit Unit
node_on chain = record { engine = record new_engine { chain = chain }; channels = new_p2p "me" tt }

one_found : gather 1 [] meeting.rounds ≡ some ("q" ∷ [])
unfolding gather
one_found = refl

abbrev ask_two : PeerId → Result String
ask_two p = if p == "a" then ok seven else err eof

asks_return : (p : PeerId) → ask_two p ≢ Result.panic
asks_return p = ground arith

read-write_example :
    (Stream.read wire (delivered (Stream.write wire (1 ∷ 2 ∷ 3 ∷ []) fresh).1.stream)).0
    ≡ ok (take 4092 (1 ∷ 2 ∷ 3 ∷ []))
read-write_example = read-write (1 ∷ 2 ∷ 3 ∷ []) (omega arith)

req_tip-handle_example :
    req_tip (asking tip_codec (replies tip_codec test_chain seven)) test_chain "q"
    ≡ (if same_bytes test_chain test_chain then ok seven else err (wrap eof))
req_tip-handle_example = req_tip-handle tip_codec test_chain seven test_chain tip-IsFaithful "q"

abbrev two_peers : List PeerId
two_peers = "a" ∷ "b" ∷ []

ask_for_tip-counts_example :
    (tips : List (String × ℕ)) × (ask_for_tip ask_two false two_peers ≡ (
      if nat_eqb (length (answered ask_two two_peers)) (length two_peers) && not false
      then ok tips
      else err ctx_timeout))
    × ((t : String) → or_zero (lookup t tips) ≡ count t (answered ask_two two_peers))
ask_for_tip-counts_example = ask_for_tip-counts ask_two asks_return false two_peers

start-main_net_example :
    ((start small_store small_judge quiet_router tip_env
        (meeting ∷ [])
        (node_on (text_bytes "main"))).0
      ≢ ok tt)
    × ((start small_store small_judge quiet_router tip_env
          (meeting ∷ [])
          (node_on (text_bytes "main"))).1
        ≡ node_on (text_bytes "main"))
start-main_net_example =
    start-main_net small_store small_judge quiet_router tip_env (meeting ∷ [])
      (node_on (text_bytes "main")) refl

abbrev handler_state : Handler Unit Unit Unit Unit → State
handler_state h = h.engine.state

start-keeps_state_example :
    handler_state
      (start small_store small_judge quiet_router tip_env (meeting ∷ []) (node_on test_chain)).1
    ≡ handler_state (node_on test_chain)
start-keeps_state_example =
    start-keeps_state small_store small_judge quiet_router tip_env (meeting ∷ [])
      (node_on test_chain)

start-test_net_example :
    start small_store small_judge quiet_router tip_env (meeting ∷ []) (node_on test_chain)
    ≡ use_tip small_store small_judge quiet_router tip_env seven (node_on test_chain)
start-test_net_example =
    start-test_net small_store small_judge quiet_router tip_env tip_codec seven meeting []
      (node_on test_chain) "q" ("q" ∷ []) [] tip-IsFaithful refl one_found refl refl refl refl

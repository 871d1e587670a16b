-- ===== src/Did/Tips.antt =====
-- internal/did/handler.go: a request for the tip of a chain and its answer (ReqTip, Handle,
-- handleTipReq), and the requests to several peers (askForTip).
pub mod Counts
use didem.Base.{
  ℕ, suc, ◌+◌, ◌&&◌, Bool, true, false, Option, none, some, List, [], ◌∷◌, String, string_eq,
  length, nat_eqb, if◌then◌else◌, Error, Result, ok, err, panic, Exec, pure, fail, lift, ◌>>=◌,
  continue, wrapped, wrap, ◌then?◌, lookup, insert, same_bytes, marshalling, unmarshalling,
  chain_id_mismatch, unsupported_request, ctx_timeout,
}
use didem.Tx.{Bytes}
use didem.Storage.TxSet.{wrapped_exec}
use didem.Consensus.Msg.{PeerId}
use didem.Consensus.Engine.{log_error}
use didem.Stream
use didem.Stream.{NetStream, Rw, new_rw}

pub record TipRequest : Type 0 where
  pub chain_id : Bytes

pub record TipResponse : Type 0 where
  pub tip : String
  pub chain_id : Bytes

-- `api.ConsensusRequest`: a request for a tip, or none that is known
pub data ConsensusRequest : Type 0 where
  tip : TipRequest → ConsensusRequest
  other_request : ConsensusRequest

-- The generated encodings; `none` is an error.
pub record Codec : Type 0 where
  pub marshal_request : ConsensusRequest → Option Bytes
  pub unmarshal_request : Bytes → Option ConsensusRequest
  pub marshal_response : TipResponse → Option Bytes
  pub unmarshal_response : Bytes → Option TipResponse

-- the host's streams
pub record Peers (S : Type 0) : Type 0 where
  pub open_stream : PeerId → Result S
  pub net : NetStream S
  pub close : S → S
  pub code : Codec

abbrev pub or_error : {A : Type 0} → Error → Option A → Result A
or_error e none = err (wrap e)
or_error e (some a) = ok a

module _ {S : Type 0} (peers : Peers S) (chain : Bytes) where
  abbrev pub check_reply : TipResponse → Result String
  check_reply resp = if same_bytes resp.chain_id chain then ok resp.tip else err chain_id_mismatch

  -- `ReqTip` on its stream
  unfoldable pub talk : Exec (Rw S) String
  talk =
      lift (or_error marshalling (peers.code.marshal_request (tip (record { chain_id = chain }))))
      >>= λ b. wrapped_exec (Stream.write peers.net b) >>= λ _.
          wrapped_exec (Stream.read peers.net) >>= λ br.
          lift (or_error unmarshalling (peers.code.unmarshal_response br) then? check_reply)

  -- `ReqTip`
  unfoldable pub req_tip : PeerId → Result String
  unfolding talk
  req_tip p = wrapped (peers.open_stream p) then? λ s. (talk (new_rw s)).0

  -- `handleTipReq`, for the tip of the node that answers: another chain gets no answer
  unfoldable pub handle_tip_req : String → TipRequest → Exec (Rw S) Unit
  handle_tip_req own req c =
      if same_bytes req.chain_id chain
      then (lift (
              or_error marshalling
                (peers.code.marshal_response (record { tip = own; chain_id = chain })))
            >>= λ b. Stream.write peers.net b)
          c
      else (ok tt, c)

  abbrev pub dispatch : String → ConsensusRequest → Exec (Rw S) Unit
  dispatch own (tip req) = handle_tip_req own req
  dispatch own other_request = fail unsupported_request

  -- `Handle` up to what it logs
  unfoldable pub serve : String → Exec (Rw S) Unit
  unfolding handle_tip_req
  serve own = Stream.read peers.net >>= λ msg.
      lift (or_error unmarshalling (peers.code.unmarshal_request msg)) >>= λ req. dispatch own req

  -- `Handle`: an error is logged, the stream is closed
  unfoldable pub handle : String → Exec S Unit
  unfolding serve
  handle own s = let (r, c) = serve own (new_rw s) in (log_error r, peers.close c.stream)

-- the tips that were answered, with their counts, and the calls of `wg.Done`
pub record Asked : Type 0 where
  pub tips : List (String × ℕ)
  pub finished : ℕ

abbrev pub or_zero : Option ℕ → ℕ
or_zero none = 0
or_zero (some n) = n

-- One round of a worker: after an error it goes on to the next peer, and the peer is never done.
abbrev pub count_answer : Result String → Asked → Result Asked
count_answer (ok t) a =
    ok
      (record { tips = insert t (or_zero (lookup t a.tips) + 1) a.tips; finished = a.finished + 1 })
count_answer (err e) a = ok a
count_answer panic a = panic

-- The three workers, which share the peers and keep the answers under a lock: the answers count in
-- the order in which they come.
unfoldable pub ask_each : (PeerId → Result String) → List PeerId → Asked → Result Asked
ask_each ask [] a = ok a
ask_each ask (p ∷ ps) a = count_answer (ask p) a then? λ a'. ask_each ask ps a'

-- The wait for all of them, or for the end of the context, which comes first where one is never done.
abbrev pub await : Bool → ℕ → Asked → Result (List (String × ℕ))
await late n a =
    if nat_eqb a.finished n && (if late then false else true) then ok a.tips else err ctx_timeout

-- `askForTip`, its peers in the order in which they answer
unfoldable pub ask_for_tip :
    (PeerId → Result String) → Bool → List PeerId → Result (List (String × ℕ))
unfolding ask_each
ask_for_tip ask late ps =
    ask_each ask ps (record { tips = []; finished = 0 }) then? await late (length ps)

-- ===== src/Consensus/Send.antt =====
-- The sending half of pkg/did/consensus/consensus.go, and crypto.go.
use didem.Base.{
  true, Option, none, some, List, [], ◌∷◌, ◌++◌, String, Result, ok, err, panic, Exec, continue,
  wrapped, wrap, ◌>>=◌, ◌>>◌, pure, ◌then?◌, insert, string_eq, marshalling, signing, invalid_key,
  if◌then◌else◌, pure,
}
use didem.Tx.{Bytes, Node}
use didem.Storage.Store.{Store}
use didem.Consensus.Msg.{
  PeerId, Msg, msg_type_consensus, ConsensusMsg, type_new_round, type_proposal, type_vote,
  type_block, type_evidence, ConsensusMsgNewRound, ConsensusMsgProposal, ConsensusMsgVote,
  ConsensusMsgEvidence, ConsensusMsgBlock, VoteType, vote_type_pre_vote, vote_type_pre_commit,
}
use didem.Consensus.State.{State}
use didem.Consensus.Engine.{Engine, Env, on_propsal}

-- The messages that `sendMsg` takes, and how it wraps each.
pub data Outgoing : Type 0 where
  new_round : ConsensusMsgNewRound → Outgoing
  proposal : ConsensusMsgProposal → Outgoing
  vote : ConsensusMsgVote → Outgoing
  evidence : ConsensusMsgEvidence → Outgoing
  block : ConsensusMsgBlock → Outgoing

abbrev pub empty_msg : ConsensusMsg
empty_msg = record {
  type = type_new_round;
  new_round = none;
  proposal = none;
  vote = none;
  block = none;
  evidence = none;
}

unfoldable pub wrapper : Outgoing → ConsensusMsg
wrapper (new_round m) = record empty_msg { type = type_new_round; new_round = some m }
wrapper (proposal m) = record empty_msg { type = type_proposal; proposal = some m }
wrapper (vote m) = record empty_msg { type = type_vote; vote = some m }
wrapper (evidence m) = record empty_msg { type = type_evidence; evidence = some m }
wrapper (block m) = record empty_msg { type = type_block; block = some m }

-- `signatureData` encodes the message with its signature taken out, and puts it back.
unfoldable pub signature_data : Env → Msg → Option Bytes
signature_data env m = env.marshal_msg (record m { signature = [] })

abbrev pub or_signing : Option Bytes → Result Bytes
or_signing none = err (wrap signing)
or_signing (some b) = ok b

abbrev pub or_marshalling : Option Bytes → Result Bytes
or_marshalling none = err (wrap marshalling)
or_marshalling (some b) = ok b

-- the evidence is kept under the name of the validator that voted
abbrev pub keep_evidence : VoteType → String → ConsensusMsgEvidence → State → State
keep_evidence vote_type_pre_vote k m s = record s {
  pre_votes_evidence = insert k m s.pre_votes_evidence;
}
keep_evidence vote_type_pre_commit k m s = record s {
  pre_commits_evidence = insert k m s.pre_commits_evidence;
}
keep_evidence _ k m s = s

abbrev firsts : List (Bytes × Bytes) → List Bytes
firsts [] = []
firsts ((k, _) ∷ l) = k ∷ firsts l

abbrev seconds : List (Bytes × Bytes) → List Bytes
seconds [] = []
seconds ((_, g) ∷ l) = g ∷ seconds l

module _ {S : Type 0} (env : Env) (st : Store S) where
  abbrev node_key : Option Node → Result Bytes
  node_key none = panic
  node_key (some n) = if env.is_public_key n.key then ok n.key else err (wrap invalid_key)

  -- the keys and signatures of the precommits; the key is read as it is stored
  unfoldable pub collect : S → List (PeerId × Msg) → Result (List (Bytes × Bytes))
  collect s [] = ok []
  collect s ((p, m) ∷ votes) = wrapped (st.node s (env.peer_string p)) then? λ n.
      node_key n then? λ k. collect s votes then? λ rest. ok ((k, m.signature) ∷ rest)

module _ {S M : Type 0} (env : Env) where
  abbrev pub header : Engine S M → Outgoing → Msg
  header e m = record {
    type = msg_type_consensus;
    from = e.id;
    chain = e.chain;
    tx = none;
    block = none;
    consensus = some (wrapper m);
    timestamp = env.now;
    signature = [];
    key = [];
  }

  -- what is signed: the sender's bytes, then the message's
  unfoldable pub signed_msg : Engine S M → Bytes → Outgoing → Result Msg
  unfolding signature_data wrapper
  signed_msg e key m = or_marshalling (env.peer_bytes e.id) then? λ d.
      or_marshalling (signature_data env (header e m)) then? λ sd.
      or_signing (env.sign key (d ++ sd)) then? λ sig. ok (record (header e m) { signature = sig })

  abbrev pub publish : Msg → Exec (Engine S M) Unit
  publish m e = (env.publish m, record e { sent = m ∷ e.sent })

  -- `sendMsg`: with no key nothing is sent, and that is no error
  unfoldable pub send_msg : Outgoing → Exec (Engine S M) Unit
  unfolding signed_msg
  send_msg m e = elim e.signing_key [
    | none ↦ (ok tt, e)
    | some key ↦ continue (signed_msg e key m) publish e
  ]

  unfoldable pub send_new_round : Exec (Engine S M) Unit
  unfolding send_msg
  send_new_round e =
      send_msg
        (new_round (record {
          height = e.propsal_state.height;
          round = e.propsal_state.round;
          last_commit_round = e.state.round;
          timestamp = env.now;
        }))
        e

  unfoldable pub send_proposal : Exec (Engine S M) Unit
  unfolding send_msg
  send_proposal e =
      send_msg
        (proposal (record {
          height = e.propsal_state.height;
          round = e.propsal_state.round;
          block_id = env.cid_string e.propsal_state.block_;
          timestamp = env.now;
        }))
        e

  unfoldable pub send_vote : VoteType → String → Exec (Engine S M) Unit
  unfolding send_msg
  send_vote t value e =
      send_msg
        (vote (record {
          type = t;
          height = e.propsal_state.height;
          round = e.propsal_state.round;
          block_id = value;
          timestamp = env.now;
          validator = env.peer_string e.id;
        }))
        e

  unfoldable pub send_evidence : ConsensusMsgVote → Exec (Engine S M) Unit
  unfolding send_msg
  send_evidence m =
      let msg : ConsensusMsgEvidence = record { vote = m; accepted = true } in
      on_propsal (keep_evidence m.type m.validator msg) >> send_msg (evidence msg)

  module _ (st : Store S) where
    -- the block message, before it is sent
    unfoldable pub block_msg : Engine S M → Result ConsensusMsgBlock
    unfolding collect
    block_msg e = collect env st e.store e.propsal_state.pre_commits then? λ l.
        or_marshalling (env.aggregate_keys (firsts l)) then? λ v.
        or_signing (env.aggregate_signatures (seconds l)) then? λ g. ok (record {
          height = e.propsal_state.height;
          round = e.propsal_state.locked_round;
          cid = env.cid_string e.propsal_state.locked_value;
          validators = v;
          signature = g;
        })

    -- `sendBlock`: a failed send is an error, and the caller drops the message
    unfoldable pub send_block : Exec (Engine S M) ConsensusMsgBlock
    unfolding block_msg send_msg
    send_block e = continue (block_msg e) (λ m. send_msg (block m) >>= λ _. pure m) e

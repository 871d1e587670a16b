-- ===== src/Consensus/Received.antt =====
-- What a message that is received does to the state of the round and to the last block of the chain.
use didem.Base.{
  Bool, ◌&&◌, Option, none, some, String, string_eq, ◌≡◌, refl, Result, ok, err, panic, continue,
  ◌>>=◌, ◌>>◌, ◌==◌, nat_eq, inl, sym, subst, ap, ◌∙◌, lift,
}
use didem.Tx.{Cid}
use didem.Storage.Store.{Store}
use didem.Consensus.Msg.{
  Msg, MsgType, ConsensusMsg, ConsensusMsgProposal, ConsensusMsgNewRound, ConsensusMsgType, TxMsg,
  type_new_round, type_proposal, type_vote, type_block, type_evidence, other_consensus, msg_type_tx,
  msg_type_block, msg_type_consensus, other_msg,
}
use didem.Consensus.State.{propose}
use didem.Consensus.Engine.{
  Engine, Env, MemPool, Validator, do_pv_once, on_propsal, restart_timer, timer_propose,
}
use didem.Consensus.Votes.{is_step, given, when}
use didem.Consensus.Handlers.{
  follow, on_new_round, on_proposal, take_proposal, validate, or_undef, accept_proposal,
  by_consensus_type, by_msg_type, on_msg, on_tx, is_authentic, bytes_equal,
}
use didem.Consensus.Frame.{Frames-validate}
use didem.Consensus.Keeps.{Keeps-do_pv_once}
use didem.Consensus.Invariant.{IsFresh, IsFresh-IsConsistent, IsConsistent-IsFresh, follow-IsFresh}
use didem.Consensus.Safety.{is_step-eq}
use didem.Consensus.Rounds.{Keeps-accept_proposal, set_pv-IsFresh}
use didem.Consensus.Handled.{
  Moves, fresh-Moves, skip-Moves, when-Moves, on_vote-Moves, on_evidence-Moves, on_block-Moves,
  and-right,
}

module _ {S M : Type 0} (st : Store S) (mp : MemPool M) (env : Env) (vd : Validator S) where
  follow-Moves :
      (v : Option ConsensusMsgNewRound) (e : Engine S M)
      → Moves env e (given v (λ m. on_propsal (follow m) >> restart_timer timer_propose) e).1
  unfolding restart_timer
  follow-Moves none e = skip-Moves env e
  follow-Moves (some m) e =
      fresh-Moves env (on_propsal (follow m) >> restart_timer timer_propose) e
        (follow-IsFresh m e.propsal_state) refl

  on_new_round-Moves :
      (v : Option ConsensusMsgNewRound) (from : String) (e : Engine S M)
      → Moves env e (on_new_round st mp env vd v from e).1
  unfolding on_new_round
  on_new_round-Moves v from e =
      when-Moves env (from == e.state.proposer)
        (given v (λ m. on_propsal (follow m) >> restart_timer timer_propose)) e
        (λ _. follow-Moves v e)

  Keeps-vote_once :
      (block_id : String) (r : Result Cid) (e : Engine S M)
      → IsFresh e.propsal_state
      → IsFresh
          (continue r
            (λ cv. do_pv_once (accept_proposal st mp env vd block_id cv))
            e).1.propsal_state
  Keeps-vote_once block_id (ok cv) e h =
      (Keeps-do_pv_once IsFresh set_pv-IsFresh _
          (Keeps-accept_proposal st mp env vd block_id cv)).at
        e h
  Keeps-vote_once block_id (err _) e h = h
  Keeps-vote_once block_id panic e h = h

  vote_once-state :
      (block_id : String) (r : Result Cid) (e : Engine S M)
      → (continue r (λ cv. do_pv_once (accept_proposal st mp env vd block_id cv)) e).1.state
        ≡ e.state
  vote_once-state block_id (ok cv) e =
      (Keeps-do_pv_once IsFresh set_pv-IsFresh _
          (Keeps-accept_proposal st mp env vd block_id cv)).state
        e
  vote_once-state block_id (err _) e = refl
  vote_once-state block_id panic e = refl

  take_proposal-Moves :
      (v : Option ConsensusMsgProposal) (e : Engine S M)
      → e.propsal_state.step ≡ propose
      → Moves env e (given v (take_proposal st mp env vd) e).1
  take_proposal-Moves none e h = skip-Moves env e
  take_proposal-Moves (some m) e h =
      let l = Frames-validate env st mp vd m.block_id in
      let r = validate st mp env vd m.block_id e in
      let s = vote_once-state m.block_id (or_undef r.0) r.1 ∙ l.state e in
      record {
        keeps = λ c. IsFresh-IsConsistent env _ _ (
            Keeps-vote_once m.block_id (or_undef r.0) r.1 (
              subst IsFresh (sym (l.propsal e))
                (IsConsistent-IsFresh env e.propsal_state e.state.proposer c h)));
        commits = inl (ap (λ c. c.block_) s);
      }

  on_proposal-Moves :
      (v : Option ConsensusMsgProposal) (from : String) (e : Engine S M)
      → Moves env e (on_proposal st mp env vd v from e).1
  unfolding on_proposal
  on_proposal-Moves v from e =
      when-Moves env (from == e.state.proposer && is_step e.propsal_state.step propose)
        (given v (take_proposal st mp env vd)) e
        (λ h. take_proposal-Moves v e (is_step-eq _ _ (and-right _ _ h)))

  by_consensus_type-Moves :
      (t : ConsensusMsgType) (m : Msg) (cm : ConsensusMsg) (e : Engine S M)
      → m.consensus ≡ some cm
      → Moves env e (by_consensus_type st mp env vd t m cm (env.peer_string m.from) e).1
  unfolding by_consensus_type
  by_consensus_type-Moves type_new_round m cm e h = on_new_round-Moves cm.new_round _ e
  by_consensus_type-Moves type_proposal m cm e h = on_proposal-Moves cm.proposal _ e
  by_consensus_type-Moves type_vote m cm e h = on_vote-Moves env m cm.vote e (rw h refl)
  by_consensus_type-Moves type_block m cm e h = on_block-Moves env st cm.block _ e
  by_consensus_type-Moves type_evidence m cm e h = on_evidence-Moves env cm.evidence _ e
  by_consensus_type-Moves (other_consensus _) m cm e h = skip-Moves env e

  consensus-Moves :
      (m : Msg) (cm : Option ConsensusMsg) (e : Engine S M)
      → m.consensus ≡ cm
      → Moves env e
          (given cm (λ c. by_consensus_type st mp env vd c.type m c (env.peer_string m.from)) e).1
  consensus-Moves m none e h = skip-Moves env e
  consensus-Moves m (some cm) e h = by_consensus_type-Moves cm.type m cm e h

  on_tx-Moves : (v : Option TxMsg) (e : Engine S M) → Moves env e (on_tx st mp env vd v e).1
  unfolding on_tx
  on_tx-Moves none e = skip-Moves env e
  on_tx-Moves (some m) e = record { keeps = λ h. h; commits = inl refl }

  by_msg_type-Moves :
      (t : MsgType) (m : Msg) (e : Engine S M) → Moves env e (by_msg_type st mp env vd t m e).1
  unfolding by_msg_type
  by_msg_type-Moves msg_type_consensus m e = consensus-Moves m m.consensus e refl
  by_msg_type-Moves msg_type_tx m e = on_tx-Moves m.tx e
  by_msg_type-Moves msg_type_block m e = skip-Moves env e
  by_msg_type-Moves (other_msg _) m e = skip-Moves env e

  checked-Moves :
      (m : Msg) (r : Result Bool) (e : Engine S M)
      → Moves env e (continue r (λ good. when good (by_msg_type st mp env vd m.type m)) e).1
  checked-Moves m (ok good) e =
      when-Moves env good (by_msg_type st mp env vd m.type m) e (λ _. by_msg_type-Moves m.type m e)
  checked-Moves m (err _) e = skip-Moves env e
  checked-Moves m panic e = skip-Moves env e

  pub on_msg-Moves : (m : Msg) (e : Engine S M) → Moves env e (on_msg st mp env vd m e).1
  unfolding on_msg
  on_msg-Moves m e =
      when-Moves env (bytes_equal m.chain e.chain)
        (lift (is_authentic st mp env vd m e) >>= λ good.
          when good (by_msg_type st mp env vd m.type m))
        e (λ _. checked-Moves m (is_authentic st mp env vd m e) e)

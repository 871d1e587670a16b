-- ===== src/Consensus/Reachable.antt =====
-- Lemmas on the events of an engine (pkg/did/consensus/consensus.go).
use didem.Base.{
  ℕ, ◌-◌, Bool, true, false, some, List, String, string_eq, ◌≡◌, refl, arith, Result, ok, err,
  panic, continue, nat_eq, inl, inr, sym, subst, ap, ◌∙◌,
}
use didem.Resync.{Once}
use didem.Storage.Store.{Store}
use didem.Consensus.State.{State, prevote, precommit, set_step}
use didem.Consensus.Engine.{
  Engine, Env, MemPool, Validator, Timer, logged, timer_propose, timer_prevote, timer_precommit,
}
use didem.Consensus.Round.{
  begin_among, begin, on_beacon, set_proposer, start_round, select_proposer,
}
use didem.Consensus.Votes.{on_block}
use didem.Consensus.Handlers.{
  on_timeout_proposal, on_timeout_prevote, on_timeout_precommit, on_timeout_block, on_grace,
}
use didem.Consensus.Frame.{frame_rules, Frames-send_vote}
use didem.Consensus.Keeps.{Keeps, keeps_rules, Keeps-do_pv_once, Keeps-do_pc_once}
use didem.Consensus.Invariant.{
  IsConsistent, IsFresh, IsFresh-IsConsistent, set_step-IsConsistent, others-IsConsistent,
}
use didem.Consensus.Safety.{Consistent}
use didem.Consensus.Rounds.{Leads-start_round}
use didem.Consensus.Handled.{Holds, Moves, Keeps-Moves, fresh-Moves, skip-Moves, on_block-Moves}
use didem.Consensus.Received.{on_msg-Moves}
use didem.Consensus.Engine.{stop_timer}
use didem.Consensus.State.{zero_state}
use didem.Consensus.Send.{send_block}
use didem.Consensus.Frame.{Frames-send_block}
use didem.Consensus.Events.{
  Event, message, beacon, timeout, grace_over, outside, handle, by_timer, IsNew,
}
use didem.Consensus.Engine.{timer_block}
use didem.Consensus.Msg.{ConsensusMsgBlock}

zero-IsFresh : IsFresh zero_state
zero-IsFresh = ground arith

module _ (env : Env) (proposer : String) where
  set_prevote-Consistent :
      (s : State) → Consistent env proposer s → Consistent env proposer (set_step prevote s)
  set_prevote-Consistent s h =
      set_step-IsConsistent env proposer s h prevote (λ e. ground arith) (λ e. ground arith)

  set_precommit-Consistent :
      (s : State) → Consistent env proposer s → Consistent env proposer (set_step precommit s)
  set_precommit-Consistent s h =
      set_step-IsConsistent env proposer s h precommit (λ e. ground arith) (λ e. ground arith)

  set_pv-Consistent :
      (s : State) (o : Once)
      → Consistent env proposer s
      → Consistent env proposer (record s { pv_once = o })
  set_pv-Consistent s o h =
      others-IsConsistent env proposer s h o s.pc_once s.sb_once s.pre_votes_evidence
        s.pre_commits_evidence

  set_pc-Consistent :
      (s : State) (o : Once)
      → Consistent env proposer s
      → Consistent env proposer (record s { pc_once = o })
  set_pc-Consistent s o h =
      others-IsConsistent env proposer s h s.pv_once o s.sb_once s.pre_votes_evidence
        s.pre_commits_evidence

module _ {S M : Type 0} (st : Store S) (mp : MemPool M) (env : Env) (vd : Validator S) where
  Keeps-timeout_proposal :
      (proposer : String)
      → Keeps (Consistent env proposer) (on_timeout_proposal {S = S} {M = M} st mp env vd)
  unfolding on_timeout_proposal
  Keeps-timeout_proposal proposer =
      search
        (
          keeps_rules, frame_rules, Frames-send_vote, Keeps-do_pv_once, set_prevote-Consistent,
          set_pv-Consistent,
        )
        depth 14

  Keeps-timeout_prevote :
      (proposer : String)
      → Keeps (Consistent env proposer) (on_timeout_prevote {S = S} {M = M} st mp env vd)
  unfolding on_timeout_prevote
  Keeps-timeout_prevote proposer =
      search
        (
          keeps_rules, frame_rules, Frames-send_vote, Keeps-do_pc_once, set_precommit-Consistent,
          set_pc-Consistent,
        )
        depth 14

  start-Moves : (inc : Bool) (e : Engine S M) → Moves env e (logged (start_round st mp env inc) e).1
  start-Moves inc e =
      let l = Leads-start_round st mp env inc in
      fresh-Moves env (logged (start_round st mp env inc)) e (l.at e tt)
        (ap (λ s. s.block_) (l.state e))

  begin-Moves : (p : String) (e : Engine S M) → Moves env e (begin st mp env p e).1
  begin-Moves p e =
      let l = Leads-start_round st mp env false in
      fresh-Moves env (begin st mp env p) e (l.at (set_proposer st mp env p e) tt)
        (ap (λ s. s.block_) (l.state (set_proposer st mp env p e)))

  chosen-Moves :
      (r : Result String) (e : Engine S M) → Moves env e (continue r (begin st mp env) e).1
  chosen-Moves (ok p) e = begin-Moves p e
  chosen-Moves (err _) e = skip-Moves env e
  chosen-Moves panic e = skip-Moves env e

  among-Moves :
      (b : ℕ) (nodes : Result (List String)) (e : Engine S M)
      → Moves env e (begin_among st mp env b nodes e).1
  among-Moves b (ok nodes) e = chosen-Moves (select_proposer b nodes) e
  among-Moves b (err _) e = skip-Moves env e
  among-Moves b panic e = skip-Moves env e

  on_beacon-Moves : (b : ℕ) (e : Engine S M) → Moves env e (on_beacon st mp env b e).1
  unfolding on_beacon
  on_beacon-Moves b e = among-Moves b (st.nodes e.store) e

  finish-Moves :
      (r : Result ConsensusMsgBlock) (e : Engine S M)
      → Moves env e (continue r (λ m e'. on_block env st (some m) (env.peer_string e'.id) e') e).1
  finish-Moves (ok m) e = on_block-Moves env st (some m) (env.peer_string e.id) e
  finish-Moves (err _) e = skip-Moves env e
  finish-Moves panic e = skip-Moves env e

  -- two engines with the same states
  framed-Moves :
      (e e' e'' : Engine S M)
      → e'.state ≡ e.state
      → e'.propsal_state ≡ e.propsal_state
      → Moves env e' e''
      → Moves env e e''
  framed-Moves e e' e'' s p h = record {
    keeps = λ c. h.keeps (
        subst (λ n. IsConsistent env e'.propsal_state n.proposer) (sym s)
          (subst (λ q. IsConsistent env q e.state.proposer) (sym p) c));
    commits = elim h.commits [
      | inl q ↦ inl (q ∙ ap (λ c. c.block_) s)
      | inr c ↦ inr (record {
        step = sym (ap (λ q. q.step) p) ∙ c.step;
        chosen = c.chosen ∙ ap (λ q. q.locked_value) p;
        height = c.height ∙ ap (λ q. q.height) p;
      })
    ];
  }

  on_grace-Moves : (e : Engine S M) → Moves env e (on_grace st mp env vd e).1
  unfolding on_grace
  on_grace-Moves e =
      let r = send_block env st e in
      let l = Frames-send_block env st in
      framed-Moves e r.1 _ (l.state e) (l.propsal e) (finish-Moves r.0 r.1)

  by_timer-Moves : (t : Timer) (e : Engine S M) → Moves env e (by_timer st mp env vd t e).1
  unfolding by_timer on_timeout_precommit on_timeout_block
  by_timer-Moves timer_propose e = Keeps-Moves env _ e (Keeps-timeout_proposal e.state.proposer)
  by_timer-Moves timer_prevote e = Keeps-Moves env _ e (Keeps-timeout_prevote e.state.proposer)
  by_timer-Moves timer_precommit e = start-Moves true e
  by_timer-Moves timer_block e = skip-Moves env e

  pub handle-Moves : (ev : Event S M) (e : Engine S M) → Moves env e (handle st mp env vd ev e).1
  unfolding handle stop_timer
  handle-Moves (message m) e = on_msg-Moves st mp env vd m e
  handle-Moves (beacon b) e = on_beacon-Moves b e
  handle-Moves (timeout t) e = framed-Moves e _ _ refl refl (by_timer-Moves t (stop_timer t e).1)
  handle-Moves grace_over e =
      framed-Moves e _ _ refl refl (on_grace-Moves (record e { grace = e.grace - 1 }))
  handle-Moves (outside s p) e = record { keeps = λ h. h; commits = inl refl }

  pub new-Holds : (e : Engine S M) → IsNew e → Holds env e
  new-Holds e h =
      IsFresh-IsConsistent env e.propsal_state e.state.proposer
        (subst IsFresh (sym h.0) zero-IsFresh)

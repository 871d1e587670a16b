-- ===== src/Consensus/Rounds.antt =====
-- Lemmas on `startRound` and `onProposal` (pkg/did/consensus/consensus.go) and fresh rounds.
use didem.Base.{
  ℕ, Bool, true, false, Option, none, some, String, string_eq, arith, ◌==◌, nat_eq, inl, inr,
  Bool-cases,
}
use didem.Resync.{Once}
use didem.Tx.{Cid}
use didem.Storage.Chain.{Block}
use didem.Storage.Store.{Store}
use didem.Consensus.State.{State, prevote, set_step}
use didem.Consensus.Engine.{Env, MemPool, Validator}
use didem.Consensus.Round.{
  count_others, put_made, build_block, lead_round, follow_round, start_round,
}
use didem.Consensus.Handlers.{accept_proposal}
use didem.Consensus.Frame.{
  frame_rules, Frames-send_new_round, Frames-send_proposal, Frames-send_vote, Frames-make_block,
}
use didem.Consensus.Keeps.{Keeps, keeps_rules, Leads}
use didem.Consensus.Invariant.{
  IsFresh, enter_round-IsFresh, await_proposal-IsFresh, set_step-IsFresh,
}

set_f-IsFresh : (n : ℕ) (s : State) → IsFresh s → IsFresh (record s { f = n })
set_f-IsFresh n s h = ground arith

set_block-IsFresh : (b : Cid) (s : State) → IsFresh s → IsFresh (record s { block_ = b })
set_block-IsFresh b s h = ground arith

pub set_pv-IsFresh : (s : State) (o : Once) → IsFresh s → IsFresh (record s { pv_once = o })
set_pv-IsFresh s o h = ground arith

set_prevote-IsFresh : (s : State) → IsFresh s → IsFresh (set_step prevote s)
set_prevote-IsFresh s h = set_step-IsFresh prevote s (λ e. ground arith) h

module _ {S M : Type 0} (st : Store S) (mp : MemPool M) (env : Env) where
  Keeps-count_others : Keeps IsFresh (count_others {S = S} {M = M} st mp env)
  unfolding count_others
  Keeps-count_others = search (keeps_rules, frame_rules, set_f-IsFresh) depth 12

  Keeps-put_made : (b : Option Block) → Keeps IsFresh (put_made {S = S} {M = M} st mp env b)
  Keeps-put_made none = search (keeps_rules, frame_rules) depth 6
  Keeps-put_made (some b) = search (keeps_rules, frame_rules, set_block-IsFresh) depth 12

  Keeps-build_block : Keeps IsFresh (build_block {S = S} {M = M} st mp env)
  unfolding build_block
  Keeps-build_block = search (keeps_rules, frame_rules, Keeps-put_made, Frames-make_block) depth 12

  Keeps-lead_round : Keeps IsFresh (lead_round {S = S} {M = M} st mp env)
  unfolding lead_round
  Keeps-lead_round =
      search
        (
          keeps_rules, frame_rules, Keeps-count_others, Keeps-build_block, Frames-send_new_round,
          Frames-send_proposal, set_prevote-IsFresh,
        )
        depth 14

  Keeps-follow_round : Keeps IsFresh (follow_round {S = S} {M = M} st mp env)
  unfolding follow_round
  Keeps-follow_round = search (keeps_rules, frame_rules, await_proposal-IsFresh) depth 10

  -- Any state leads to a fresh round.
  pub Leads-start_round :
      (inc : Bool) → Leads {S = S} {M = M} (λ _. Unit {0}) IsFresh (start_round st mp env inc)
  unfolding start_round
  Leads-start_round inc = record {
    at = λ e _. elim (Bool-cases (e.state.proposer == env.peer_string e.id)) [
      | inl y ↦
          rw y (Keeps-lead_round.at _ (enter_round-IsFresh inc true e.state.height e.propsal_state))
      | inr n ↦
          rw n
            (Keeps-follow_round.at _ (enter_round-IsFresh inc false e.state.height e.propsal_state))
    ];
    state = λ e. elim (Bool-cases (e.state.proposer == env.peer_string e.id)) [
      | inl y ↦ rw y (Keeps-lead_round.state _)
      | inr n ↦ rw n (Keeps-follow_round.state _)
    ];
  }

  pub Keeps-accept_proposal :
      (vd : Validator S) (block_id : String) (bc : Cid)
      → Keeps IsFresh (accept_proposal {S = S} {M = M} st mp env vd block_id bc)
  unfolding accept_proposal
  Keeps-accept_proposal vd block_id bc =
      search (keeps_rules, frame_rules, Frames-send_vote, set_block-IsFresh, set_prevote-IsFresh)
        depth 14

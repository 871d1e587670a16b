-- ===== src/Consensus/Votes.antt =====
-- Collecting votes, evidence and block messages (pkg/did/consensus/consensus.go).
use didem.Base.{
  ◌+◌, Bool, true, false, ◌&&◌, not, Option, none, some, String, ok, panic, Exec, ◌>>◌, pure, lift,
  ◌==◌, nat_eq, string_eq, nat_eqb, if◌then◌else◌, ltb, length, insert,
}
use didem.Tx.{Cid, undef}
use didem.Storage.Chain.{accepted}
use didem.Storage.Store.{Store}
use didem.Consensus.Msg.{
  Msg, ConsensusMsgVote, ConsensusMsgEvidence, ConsensusMsgBlock, VoteType, vote_type_pre_vote,
  vote_type_pre_commit,
}
use didem.Consensus.State.{State, Step, propose, prevote, precommit, block, set_step}
use didem.Consensus.Engine.{
  Engine, Env, modify, reading, on_propsal, in_store, logged, timer_prevote, timer_precommit,
  timer_block, restart_timer, stop_timer, do_pc_once, do_sb_once,
}
use didem.Consensus.Send.{send_vote, send_evidence, keep_evidence}

abbrev pub is_step : Step → Step → Bool
is_step propose propose = true
is_step prevote prevote = true
is_step precommit precommit = true
is_step block block = true
is_step _ _ = false

abbrev pub when : {S M : Type 0} → Bool → Exec (Engine S M) Unit → Exec (Engine S M) Unit
when b f e = if b then f e else (ok tt, e)

-- A pointer is followed: with none the node panics.
abbrev pub given :
    {S M A : Type 0} → Option A → (A → Exec (Engine S M) Unit) → Exec (Engine S M) Unit
given none f = lift panic
given (some a) f = f a

-- the guard on a vote: height, block and round are those of the round at hand
abbrev pub is_current : Env → ConsensusMsgVote → State → Bool
is_current env v s =
    nat_eqb v.height s.height && v.block_id == env.cid_string s.block_ && nat_eqb v.round s.round

-- the guard of `onBlock` behind its check of the sender
abbrev pub is_final : Env → ConsensusMsgBlock → State → Bool
is_final env m s =
    is_step s.step block && m.cid == env.cid_string s.locked_value && nat_eqb s.locked_round m.round

abbrev pub enough_votes : State → Bool
enough_votes s = ltb s.f (length s.pre_votes)

abbrev pub enough_commits : State → Bool
enough_commits s = ltb s.f (length s.pre_commits)

-- the chain's state behind the commit of a round
abbrev pub last_state : State → State → State
last_state c p = record c { height = p.height; parent_block = c.block_; block_ = p.locked_value }

module _ {S M : Type 0} where
  -- the call of `time.AfterFunc`
  abbrev pub schedule_block : Exec (Engine S M) Unit
  schedule_block = modify (λ e. record e { grace = e.grace + 1 })

  abbrev pub set_last : Engine S M → Engine S M
  set_last e = record e { state = last_state e.state e.propsal_state }

module _ {S M : Type 0} (env : Env) where
  -- the action of `pcOnce` in `onPreVote`: its errors are logged, and end it
  unfoldable pub lock_block : Exec (Engine S M) Unit
  lock_block = logged (
      stop_timer timer_prevote
      >> (on_propsal
            (λ s. record s { step = precommit; locked_value = s.block_; locked_round = s.round })
          >> reading (λ e.
            send_vote env vote_type_pre_commit (env.cid_string e.propsal_state.block_)
            >> restart_timer timer_precommit)))

  abbrev pub add_vote : Msg → Bool → Exec (Engine S M) Unit
  add_vote m proposing =
      when proposing (restart_timer timer_precommit)
      >> (on_propsal (λ s. record s { pre_votes = insert m.from m s.pre_votes })
          >> reading (λ e. when (enough_votes e.propsal_state) (do_pc_once lock_block)))

  unfoldable pub on_pre_vote : Msg → Exec (Engine S M) Unit
  on_pre_vote m =
      reading
        (λ e. when (is_step e.propsal_state.step prevote) (add_vote m e.propsal_state.am_proposer))

  -- the action of `sbOnce`: the proposer waits out the grace period
  unfoldable pub await_block : Exec (Engine S M) Unit
  await_block =
      stop_timer timer_precommit
      >> (on_propsal (set_step block)
          >> reading (λ e.
            if e.propsal_state.am_proposer then schedule_block else restart_timer timer_block))

  abbrev pub add_commit : Msg → Bool → Exec (Engine S M) Unit
  add_commit m proposing =
      when proposing (restart_timer timer_precommit)
      >> (on_propsal (λ s. record s { pre_commits = insert m.from m s.pre_commits })
          >> reading (λ e. when (enough_commits e.propsal_state) (do_sb_once await_block)))

  unfoldable pub on_pre_commit : Msg → Exec (Engine S M) Unit
  on_pre_commit m = reading (λ e.
      when (is_step e.propsal_state.step precommit) (add_commit m e.propsal_state.am_proposer))

  abbrev pub by_type : VoteType → Msg → Exec (Engine S M) Unit
  by_type vote_type_pre_vote m = on_pre_vote m
  by_type vote_type_pre_commit m = on_pre_commit m
  by_type _ m = pure tt

  -- the proposer confirms a vote
  abbrev pub confirm : ConsensusMsgVote → Exec (Engine S M) Unit
  confirm v = reading (λ e. when e.propsal_state.am_proposer (logged (send_evidence env v)))

  abbrev pub take_vote : Msg → ConsensusMsgVote → Exec (Engine S M) Unit
  take_vote m v = by_type v.type m >> confirm v

  -- `onVote`, for the vote in the message
  unfoldable pub count_vote : Msg → ConsensusMsgVote → Exec (Engine S M) Unit
  count_vote m v = reading (λ e. when (is_current env v e.propsal_state) (take_vote m v))

  unfoldable pub on_vote : Msg → Option ConsensusMsgVote → String → Exec (Engine S M) Unit
  on_vote m v from = reading (λ e. when (not (from == e.state.proposer)) (given v (count_vote m)))

  -- `onEvidence`: it is kept under the sender's name, who is the proposer
  unfoldable pub on_evidence : Option ConsensusMsgEvidence → String → Exec (Engine S M) Unit
  on_evidence v from = reading (λ e.
      when (from == e.state.proposer)
        (given v (λ m. on_propsal (keep_evidence m.vote.type from m))))

  module _ (st : Store S) where
    -- `LockedValue.Defined()`: only then is there a block to mark
    abbrev pub accept_block : Cid → Exec (Engine S M) Unit
    accept_block b = when (not (b == undef)) (logged (in_store (st.mark_block b accepted)))

    abbrev pub apply_last : Cid → Exec (Engine S M) Unit
    apply_last b = logged (in_store (st.update_last_applied b))

    -- the locked block is marked, and becomes the chain's last one
    unfoldable pub commit_block : Exec (Engine S M) Unit
    commit_block = reading (λ e.
        accept_block e.propsal_state.locked_value
        >> (stop_timer timer_block >> (apply_last e.propsal_state.locked_value >> modify set_last)))

    unfoldable pub on_block : Option ConsensusMsgBlock → String → Exec (Engine S M) Unit
    on_block v from = reading (λ e.
        when (from == e.state.proposer && is_step e.propsal_state.step block)
          (given v (λ m. when (is_final env m e.propsal_state) commit_block)))

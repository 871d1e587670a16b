-- ===== src/Consensus/Progress.antt =====
-- How a follower of pkg/did/consensus/consensus.go comes from votes to a new block: which messages it
-- counts, and one vote at a time.
pub mod Locking
pub mod Deciding
pub mod Proposal
pub mod Whole
pub mod Round
use didem.Base.{
  ℕ, ◌+◌, ◌≤◌, ◌<◌, Bool, true, false, Option, none, some, List, [], ◌∷◌, Result, ok, err, panic,
  Exec, continue, ◌>>◌, ◌==◌, nat_eq, string_eq, ◌≡◌, refl, ap, ◌∙◌, sym, subst, arith, ltb, length,
  insert, lookup, All, Bool-cases, inl, inr, if◌then◌else◌, nat_eqb,
}
use didem.Resync.{do_once}
use didem.Storage.Store.{Store}
use didem.Consensus.Msg.{
  PeerId, Msg, ConsensusMsg, ConsensusMsgVote, VoteType, msg_type_consensus, type_vote,
  vote_type_pre_vote, vote_type_pre_commit,
}
use didem.Consensus.State.{State, Step, propose, prevote, precommit, block}
use didem.Consensus.Engine.{
  Engine, Env, MemPool, Validator, set_timer, timer_block, timer_precommit, do_pc_once, do_sb_once,
  restart_timer, stop_timer,
}
use didem.Consensus.Send.{send_vote, send_msg, signed_msg}
use didem.Consensus.Votes.{
  is_current, enough_votes, enough_commits, on_vote, count_vote, on_pre_vote, on_pre_commit,
  lock_block, await_block, by_type, confirm, take_vote, when, is_step,
}
use didem.Consensus.Handlers.{bytes_equal, is_authentic, on_msg, by_msg_type, by_consensus_type}

module _ {S M : Type 0} (st : Store S) (mp : MemPool M) (env : Env) (vd : Validator S) where
  -- The message carries a vote of type `t` for the height, the round and the block at hand, for the
  -- engine's chain, and signed by a known node that is not the proposer.
  pub record Counts (t : VoteType) (e : Engine S M) (m : Msg) : Type 0 where
    pub content : ConsensusMsg
    pub vote : ConsensusMsgVote
    pub chain : bytes_equal m.chain e.chain ≡ true
    pub authentic : is_authentic st mp env vd m e ≡ ok true
    pub carried : (m.type ≡ msg_type_consensus) × (m.consensus ≡ some content)
    pub form : (content.type ≡ type_vote) × (content.vote ≡ some vote)
    pub type : vote.type ≡ t
    pub current : is_current env vote e.propsal_state ≡ true
    pub other : (env.peer_string m.from == e.state.proposer) ≡ false

  pub on_msg-Counts :
      (t : VoteType) (m : Msg) (e : Engine S M) (h : Counts t e m)
      → on_msg st mp env vd m e ≡ (by_type env t m >> confirm env h.vote) e
  unfolding on_msg by_msg_type by_consensus_type on_vote count_vote
  on_msg-Counts t m e h =
      rw
        (
          h.chain, h.authentic, h.carried.0, h.carried.1, h.form.0, h.form.1, h.other, h.current,
          h.type,
        )
        refl

  -- What messages are judged by: the chain, the store, the states but for votes, step and lock.
  pub record Stays (e e' : Engine S M) : Type 0 where
    pub chain : e'.chain ≡ e.chain
    pub store : e'.store ≡ e.store
    pub state : e'.state ≡ e.state
    pub height : e'.propsal_state.height ≡ e.propsal_state.height
    pub round : e'.propsal_state.round ≡ e.propsal_state.round
    pub block_ : e'.propsal_state.block_ ≡ e.propsal_state.block_
    pub f : e'.propsal_state.f ≡ e.propsal_state.f
    pub following : e'.propsal_state.am_proposer ≡ e.propsal_state.am_proposer
    pub sb_once : e'.propsal_state.sb_once ≡ e.propsal_state.sb_once
    pub commits : e'.propsal_state.pre_commits ≡ e.propsal_state.pre_commits

  pub Stays-Counts :
      (t : VoteType) (m : Msg) (e e' : Engine S M) → Stays e e' → Counts t e m → Counts t e' m
  unfolding is_authentic
  Stays-Counts t m e e' h c = record {
    content = c.content;
    vote = c.vote;
    chain = rw h.chain c.chain;
    authentic = rw h.store c.authentic;
    carried = c.carried;
    form = c.form;
    type = c.type;
    current = rw (h.height, h.round, h.block_) c.current;
    other = rw h.state c.other;
  }

  confirm-follower :
      (r : Result Unit) (v : ConsensusMsgVote) (e : Engine S M)
      → e.propsal_state.am_proposer ≡ false
      → (continue r (λ _. confirm env v) e).1 ≡ e
  confirm-follower (ok _) v e h = rw h refl
  confirm-follower (err _) v e h = refl
  confirm-follower panic v e h = refl

  -- A follower does with a vote that counts what its type says, and no more.
  pub on_msg-vote :
      (t : VoteType) (m : Msg) (e : Engine S M)
      → Counts t e m
      → (by_type env t m e).1.propsal_state.am_proposer ≡ false
      → (on_msg st mp env vd m e).1 ≡ (by_type env t m e).1
  on_msg-vote t m e h follows =
      ap (λ p. p.1) (on_msg-Counts t m e h)
      ∙ confirm-follower (by_type env t m e).0 h.vote (by_type env t m e).1 follows

  -- one vote in `on_pre_commit`
  abbrev pub filed : Msg → Engine S M → Engine S M
  filed m e = record e {
    propsal_state = record (e.propsal_state) {
      pre_commits = insert m.from m e.propsal_state.pre_commits;
    };
  }

  -- the last one of them
  abbrev pub closed : Msg → Engine S M → Engine S M
  closed m e = record (filed m e) {
    propsal_state = record ((filed m e).propsal_state) {
      step = block;
      sb_once = record { done = 1 };
    };
    timers = set_timer timer_block true (set_timer timer_precommit false e.timers);
  }

  -- one vote in `on_pre_vote`
  abbrev pub noted : Msg → Engine S M → Engine S M
  noted m e = record e {
    propsal_state = record (e.propsal_state) {
      pre_votes = insert m.from m e.propsal_state.pre_votes;
    };
  }

  -- An engine that locked its block behind a vote.
  pub record Locks (e e' : Engine S M) : Type 0 where
    pub stays : Stays e e'
    pub step : e'.propsal_state.step ≡ precommit
    pub value : e'.propsal_state.locked_value ≡ e.propsal_state.block_
    pub locked_round : e'.propsal_state.locked_round ≡ e.propsal_state.round

  pub on_pre_commit-few :
      (m : Msg) (e : Engine S M)
      → e.propsal_state.step ≡ precommit
      → e.propsal_state.am_proposer ≡ false
      → enough_commits (filed m e).propsal_state ≡ false
      → (on_pre_commit env m e).1 ≡ filed m e
  unfolding on_pre_commit
  on_pre_commit-few m e step follows few = rw (step, follows, few) refl

  pub on_pre_commit-enough :
      (m : Msg) (e : Engine S M)
      → e.propsal_state.step ≡ precommit
      → e.propsal_state.am_proposer ≡ false
      → (e.propsal_state.sb_once.done == 1) ≡ false
      → enough_commits (filed m e).propsal_state ≡ true
      → (on_pre_commit env m e).1 ≡ closed m e
  unfolding on_pre_commit do_sb_once do_once await_block restart_timer stop_timer
  on_pre_commit-enough m e step follows armed enough = rw (step, follows, enough, armed) refl

  pub on_pre_vote-few :
      (m : Msg) (e : Engine S M)
      → e.propsal_state.step ≡ prevote
      → e.propsal_state.am_proposer ≡ false
      → enough_votes (noted m e).propsal_state ≡ false
      → (on_pre_vote env m e).1 ≡ noted m e
  unfolding on_pre_vote
  on_pre_vote-few m e step follows few = rw (step, follows, few) refl

  lock_block-Locks : (e : Engine S M) → Locks e (lock_block env e).1
  unfolding lock_block stop_timer restart_timer send_vote send_msg signed_msg
  lock_block-Locks e = record {
    stays = record {
      chain = ground arith;
      store = ground arith;
      state = ground arith;
      height = ground arith;
      round = ground arith;
      block_ = ground arith;
      f = ground arith;
      following = ground arith;
      sb_once = ground arith;
      commits = ground arith;
    };
    step = ground arith;
    value = ground arith;
    locked_round = ground arith;
  }

  -- the last one of them
  abbrev locked : Msg → Engine S M → Engine S M
  locked m e =
      let e' = (lock_block env (noted m e)).1 in
      record e' { propsal_state = record (e'.propsal_state) { pc_once = record { done = 1 } } }

  on_pre_vote-locked :
      (m : Msg) (e : Engine S M)
      → e.propsal_state.step ≡ prevote
      → e.propsal_state.am_proposer ≡ false
      → (e.propsal_state.pc_once.done == 1) ≡ false
      → enough_votes (noted m e).propsal_state ≡ true
      → (on_pre_vote env m e).1 ≡ locked m e
  unfolding on_pre_vote do_pc_once do_once
  on_pre_vote-locked m e step follows armed enough = rw (step, follows, enough, armed) refl

  locked-Locks : (m : Msg) (e : Engine S M) → Locks e (locked m e)
  locked-Locks m e =
      let h = lock_block-Locks (noted m e) in
      record {
        stays = record {
          chain = h.stays.chain;
          store = h.stays.store;
          state = h.stays.state;
          height = h.stays.height;
          round = h.stays.round;
          block_ = h.stays.block_;
          f = h.stays.f;
          following = h.stays.following;
          sb_once = h.stays.sb_once;
          commits = h.stays.commits;
        };
        step = h.step;
        value = h.value;
        locked_round = h.locked_round;
      }

  pub on_pre_vote-enough :
      (m : Msg) (e : Engine S M)
      → e.propsal_state.step ≡ prevote
      → e.propsal_state.am_proposer ≡ false
      → (e.propsal_state.pc_once.done == 1) ≡ false
      → enough_votes (noted m e).propsal_state ≡ true
      → Locks e (on_pre_vote env m e).1
  on_pre_vote-enough m e step follows armed enough =
      subst (Locks e) (sym (on_pre_vote-locked m e step follows armed enough)) (locked-Locks m e)

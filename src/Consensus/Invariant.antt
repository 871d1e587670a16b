-- ===== src/Consensus/Invariant.antt =====
-- What holds of the round's state between two events.
use didem.Base.{
  ℕ, ◌<◌, Bool, true, Option, none, some, List, [], String, string_eq, ◌≡◌, ◌≢◌, ◌⊎◌, inl, inr,
  refl, arith, All, length, insert, Distinct, insert-Distinct, All-insert,
}
use didem.Resync.{Once}
use didem.Tx.{undef}
use didem.Consensus.Msg.{
  PeerId, Msg, ConsensusMsgVote, VoteType, vote_type_pre_vote, vote_type_pre_commit,
  ConsensusMsgEvidence, ConsensusMsgNewRound,
}
use didem.Consensus.State.{State, Step, propose, prevote, precommit, block, set_step}
use didem.Consensus.Engine.{Env}
use didem.Consensus.Send.{keep_evidence}
use didem.Consensus.Round.{enter_round, await_proposal}
use didem.Consensus.Votes.{is_current}
use didem.Consensus.Handlers.{follow}

-- the vote that a message carries
abbrev pub vote_of : Msg → Option ConsensusMsgVote
vote_of m = elim m.consensus [ none ↦ none | some cm ↦ cm.vote ]

module _ (env : Env) where
  -- An entry of the votes: its message is from the peer that it is filed under, who is not the
  -- proposer, and carries a vote of that type for the height, the round and the block at hand.
  abbrev pub IsVoteFor : VoteType → State → String → PeerId × Msg → Type 0
  IsVoteFor type s proposer (k, m) =
      (k ≡ m.from)
      × (env.peer_string m.from ≢ proposer)
      × ((v : ConsensusMsgVote) × (vote_of m ≡ some v)
          × (v.type ≡ type)
          × (is_current env v s ≡ true))

  pub record IsConsistent (s : State) (proposer : String) : Type 0 where
    pub votes : All (IsVoteFor vote_type_pre_vote s proposer) s.pre_votes
    pub commits : All (IsVoteFor vote_type_pre_commit s proposer) s.pre_commits
    pub votes_distinct : Distinct s.pre_votes
    pub commits_distinct : Distinct s.pre_commits
    pub no_votes : s.step ≡ propose → s.pre_votes ≡ []
    pub no_commits : s.step ≡ propose → s.pre_commits ≡ []
    pub no_lock : s.step ≡ propose → (s.locked_value ≡ undef) × (s.locked_round ≡ 0)
    pub lock :
        ((s.locked_value ≡ undef) × (s.locked_round ≡ 0))
        ⊎ ((s.locked_value ≡ s.block_) × (s.locked_round ≡ s.round))
    pub quorum : s.step ≡ block → s.f < length s.pre_commits

-- The state of a round with no vote and no lock yet.
pub record IsFresh (s : State) : Type 0 where
  pub no_votes : s.pre_votes ≡ []
  pub no_commits : s.pre_commits ≡ []
  pub no_lock : s.locked_value ≡ undef
  pub no_locked_round : s.locked_round ≡ 0
  pub not_block : s.step ≢ block

pub IsFresh-IsConsistent :
    (env : Env) (s : State) (proposer : String) → IsFresh s → IsConsistent env s proposer
IsFresh-IsConsistent env s proposer h = record {
  votes = rw h.no_votes tt;
  commits = rw h.no_commits tt;
  votes_distinct = rw h.no_votes tt;
  commits_distinct = rw h.no_commits tt;
  no_votes = λ _. h.no_votes;
  no_commits = λ _. h.no_commits;
  no_lock = λ _. (h.no_lock, h.no_locked_round);
  lock = inl (h.no_lock, h.no_locked_round);
  quorum = λ e. absurd (h.not_block e);
}

pub IsConsistent-IsFresh :
    (env : Env) (s : State) (proposer : String)
    → IsConsistent env s proposer
    → s.step ≡ propose
    → IsFresh s
IsConsistent-IsFresh env s proposer h e = record {
  no_votes = h.no_votes e;
  no_commits = h.no_commits e;
  no_lock = (h.no_lock e).0;
  no_locked_round = (h.no_lock e).1;
  not_block = λ b. ground arith;
}

pub enter_round-IsFresh :
    (inc am : Bool) (height : ℕ) (s : State) → IsFresh (enter_round inc am height s)
unfolding enter_round
enter_round-IsFresh inc am height s = ground arith

pub await_proposal-IsFresh : (s : State) → IsFresh s → IsFresh (await_proposal s)
unfolding await_proposal
await_proposal-IsFresh s h = ground arith

pub follow-IsFresh : (m : ConsensusMsgNewRound) (s : State) → IsFresh (follow m s)
unfolding follow
follow-IsFresh m s = ground arith

pub set_step-IsFresh : (st : Step) (s : State) → st ≢ block → IsFresh s → IsFresh (set_step st s)
set_step-IsFresh st s b h = record {
  no_votes = h.no_votes;
  no_commits = h.no_commits;
  no_lock = h.no_lock;
  no_locked_round = h.no_locked_round;
  not_block = b;
}

module _ (env : Env) (proposer : String) (s : State) (h : IsConsistent env s proposer) where
  -- Any step but the first can be taken from there on, the last one with a quorum.
  pub set_step-IsConsistent :
      (st : Step)
      → st ≢ propose
      → (st ≡ block → s.f < length s.pre_commits)
      → IsConsistent env (set_step st s) proposer
  set_step-IsConsistent st p q = record {
    votes = h.votes;
    commits = h.commits;
    votes_distinct = h.votes_distinct;
    commits_distinct = h.commits_distinct;
    no_votes = λ e. absurd (p e);
    no_commits = λ e. absurd (p e);
    no_lock = λ e. absurd (p e);
    lock = h.lock;
    quorum = q;
  }

  -- one more vote, which passed the guard of `onVote`
  module _ (m : Msg) (v : ConsensusMsgVote) (carried : vote_of m ≡ some v)
      (from_other : env.peer_string m.from ≢ proposer) (current : is_current env v s ≡ true) where
    pub insert_vote-IsConsistent :
        v.type ≡ vote_type_pre_vote
        → s.step ≡ prevote
        → IsConsistent env (record s { pre_votes = insert m.from m s.pre_votes }) proposer
    insert_vote-IsConsistent ty st = record {
      votes =
          All-insert (IsVoteFor env vote_type_pre_vote s proposer) m.from m s.pre_votes
            (refl, from_other, (v, carried, ty, current)) h.votes;
      commits = h.commits;
      votes_distinct = insert-Distinct m.from m s.pre_votes h.votes_distinct;
      commits_distinct = h.commits_distinct;
      no_votes = λ e. ground arith;
      no_commits = h.no_commits;
      no_lock = h.no_lock;
      lock = h.lock;
      quorum = h.quorum;
    }

    pub insert_commit-IsConsistent :
        v.type ≡ vote_type_pre_commit
        → s.step ≡ precommit
        → IsConsistent env (record s { pre_commits = insert m.from m s.pre_commits }) proposer
    insert_commit-IsConsistent ty st = record {
      votes = h.votes;
      commits =
          All-insert (IsVoteFor env vote_type_pre_commit s proposer) m.from m s.pre_commits
            (refl, from_other, (v, carried, ty, current)) h.commits;
      votes_distinct = h.votes_distinct;
      commits_distinct = insert-Distinct m.from m s.pre_commits h.commits_distinct;
      no_votes = h.no_votes;
      no_commits = λ e. ground arith;
      no_lock = h.no_lock;
      lock = h.lock;
      quorum = λ e. ground arith;
    }

  -- the lock of `onPreVote`
  pub lock-IsConsistent :
      IsConsistent env
        (record s { step = precommit; locked_value = s.block_; locked_round = s.round })
        proposer
  lock-IsConsistent = record {
    votes = h.votes;
    commits = h.commits;
    votes_distinct = h.votes_distinct;
    commits_distinct = h.commits_distinct;
    no_votes = λ e. ground arith;
    no_commits = λ e. ground arith;
    no_lock = λ e. ground arith;
    lock = inr (refl, refl);
    quorum = λ e. ground arith;
  }

  -- the fields that no part of the invariant reads
  pub others-IsConsistent :
      (pv pc sb : Once) (ev ec : List (String × ConsensusMsgEvidence))
      → IsConsistent env
          (record s {
            pv_once = pv;
            pc_once = pc;
            sb_once = sb;
            pre_votes_evidence = ev;
            pre_commits_evidence = ec;
          })
          proposer
  others-IsConsistent pv pc sb ev ec = record {
    votes = h.votes;
    commits = h.commits;
    votes_distinct = h.votes_distinct;
    commits_distinct = h.commits_distinct;
    no_votes = h.no_votes;
    no_commits = h.no_commits;
    no_lock = h.no_lock;
    lock = h.lock;
    quorum = h.quorum;
  }

  pub keep_evidence-IsConsistent :
      (t : VoteType) (k : String) (m : ConsensusMsgEvidence)
      → IsConsistent env (keep_evidence t k m s) proposer
  keep_evidence-IsConsistent vote_type_pre_vote k m =
      others-IsConsistent s.pv_once s.pc_once s.sb_once (insert k m s.pre_votes_evidence)
        s.pre_commits_evidence
  keep_evidence-IsConsistent vote_type_pre_commit k m =
      others-IsConsistent s.pv_once s.pc_once s.sb_once s.pre_votes_evidence
        (insert k m s.pre_commits_evidence)
  keep_evidence-IsConsistent _ k m = h

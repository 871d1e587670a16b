-- ===== src/Consensus/State.antt =====
-- pkg/did/consensus/state.go. The mutexes are left out: a handler runs to its end before the next.
use didem.Base.{ℕ, Bool, false, List, [], String}
use didem.Resync.{Once, fresh, reset}
use didem.Tx.{Cid, undef}
use didem.Consensus.Msg.{PeerId, Msg, ConsensusMsgEvidence}

pub data Step : Type 0 where
  propose prevote precommit block : Step

pub record State : Type 0 where
  pub am_proposer : Bool
  pub proposer : String
  pub height : ℕ  -- uint64
  pub round : ℕ  -- uint32
  pub step : Step
  pub block_ : Cid
  pub parent_block : Cid
  pub f : ℕ  -- uint64
  pub pre_votes : List (PeerId × Msg)
  pub pre_commits : List (PeerId × Msg)
  pub pre_votes_evidence : List (String × ConsensusMsgEvidence)
  pub pre_commits_evidence : List (String × ConsensusMsgEvidence)
  pub locked_value : Cid
  pub locked_round : ℕ  -- uint32
  pub pv_once : Once
  pub pc_once : Once
  pub sb_once : Once

-- the zero value
abbrev pub zero_state : State
zero_state = record {
  am_proposer = false;
  proposer = "";
  height = 0;
  round = 0;
  step = propose;
  block_ = undef;
  parent_block = undef;
  f = 0;
  pre_votes = [];
  pre_commits = [];
  pre_votes_evidence = [];
  pre_commits_evidence = [];
  locked_value = undef;
  locked_round = 0;
  pv_once = fresh;
  pc_once = fresh;
  sb_once = fresh;
}

abbrev pub set_step : Step → State → State
set_step st s = record s { step = st }

unfoldable pub reset_onces : State → State
unfolding reset
reset_onces s = record s {
  pv_once = reset s.pv_once;
  pc_once = reset s.pc_once;
  sb_once = reset s.sb_once;
}

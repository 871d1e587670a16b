-- ===== src/Consensus/Msg.antt =====
-- pkg/did/consensus/msg.go. Pointers that a message may leave out are options; `time.Time` is a
-- number that nothing compares.
use didem.Base.{ℕ, Bool, Option, String}
use didem.Tx.{Bytes, Int64, Tx}
use didem.Storage.Chain.{Block}

-- `peer.ID`, a string type
abbrev pub PeerId : Type 0
PeerId = String

pub data MsgType : Type 0 where
  msg_type_tx msg_type_block msg_type_consensus : MsgType
  other_msg : ℕ → MsgType

pub data ConsensusMsgType : Type 0 where
  type_new_round type_proposal type_vote type_block type_evidence : ConsensusMsgType
  other_consensus : ℕ → ConsensusMsgType

pub data VoteType : Type 0 where
  vote_type_pre_vote vote_type_pre_commit vote_type_proposal : VoteType
  other_vote : ℕ → VoteType

pub record TxMsg : Type 0 where
  pub tx : Tx
  pub ttl : Int64

pub record BlockMsg : Type 0 where
  pub block : Block

pub record ConsensusMsgNewRound : Type 0 where
  pub height : ℕ
  pub round : ℕ
  pub last_commit_round : ℕ
  pub timestamp : ℕ

pub record ConsensusMsgProposal : Type 0 where
  pub height : ℕ
  pub round : ℕ
  pub block_id : String
  pub timestamp : ℕ

pub record ConsensusMsgVote : Type 0 where
  pub type : VoteType
  pub height : ℕ
  pub round : ℕ
  pub block_id : String
  pub timestamp : ℕ
  pub validator : String

pub record ConsensusMsgEvidence : Type 0 where
  pub vote : ConsensusMsgVote
  pub accepted : Bool

pub record ConsensusMsgBlock : Type 0 where
  pub height : ℕ
  pub round : ℕ
  pub cid : String
  pub validators : Bytes
  pub signature : Bytes

pub record ConsensusMsg : Type 0 where
  pub type : ConsensusMsgType
  pub new_round : Option ConsensusMsgNewRound
  pub proposal : Option ConsensusMsgProposal
  pub vote : Option ConsensusMsgVote
  pub block : Option ConsensusMsgBlock
  pub evidence : Option ConsensusMsgEvidence

pub record Msg : Type 0 where
  pub type : MsgType
  pub from : PeerId
  pub chain : Bytes
  pub tx : Option TxMsg
  pub block : Option BlockMsg
  pub consensus : Option ConsensusMsg
  pub timestamp : ℕ
  pub signature : Bytes
  pub key : Bytes

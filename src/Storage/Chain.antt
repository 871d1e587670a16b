-- ===== src/Storage/Chain.antt =====
-- The records of pkg/storage/chain.go and genesis.go.
use didem.Base.{ℕ, List, Option, String}
use didem.Tx.{Cid, Bytes, Int64, Tx}

-- `type BlockID cid.Cid`
abbrev pub BlockId : Type 0
BlockId = Cid

abbrev pub max_block_tx_count : ℕ
max_block_tx_count = 1000

abbrev pub version : ℕ
version = 1

pub data BlockState : Type 0 where
  unvalidated validated accepted : BlockState

pub record Block : Type 0 where
  pub version : ℕ
  pub id : BlockId
  pub parent : BlockId
  pub height : ℕ
  pub created_at : Int64
  pub proposer : String
  pub signature : Bytes
  pub nonce : Bytes
  pub bloom : Bytes
  pub tx_root : Cid

-- `cid` is not encoded: a decoded set has it undefined.
pub record TxSet : Type 0 where
  pub children : List Cid
  pub tx : Option Cid
  pub cid : Cid

pub record GenesisInfo : Type 0 where
  pub chain_id : String
  pub block : Block
  pub txs : List Tx

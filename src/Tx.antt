-- ===== src/Tx.antt =====
-- Transactions (pkg/tx/transaction.go, did.go, node.go).
use didem.Base.{
  ℕ, Option, none, some, List, String, Result, ok, err, unmarshalling, unknown_tx_data, ◌then?◌,
}
use didem.W3cdid.Document.{Document}

-- A CID is only compared and printed; `cid.Undef`, the empty one, is 0.
abbrev pub Cid : Type 0
Cid = ℕ

abbrev pub undef : Cid
undef = 0

-- `type TxID cid.Cid`
abbrev pub TxId : Type 0
TxId = Cid

abbrev pub Bytes : Type 0
Bytes = List ℕ

-- `int64` and its sign; `negsuc n` is -(n + 1).
pub data Int64 : Type 0 where
  pos : ℕ → Int64
  negsuc : ℕ → Int64

pub data TxType : Type 0 where
  tx_type_did tx_type_vc tx_type_node : TxType
  other_type : ℕ → TxType

pub data TxAction : Type 0 where
  tx_action_add tx_action_update tx_action_revoke : TxAction
  other_action : ℕ → TxAction

-- `tx.DID`; its pointer can be nil.
pub record Did : Type 0 where
  pub document : Option Document

-- `tx.Node`
pub record Node : Type 0 where
  pub id : String
  pub did : String
  pub key : Bytes

-- `Data interface{}`: nil, a typed pointer, or the raw bytes of a decoded transaction.
pub data TxData : Type 0 where
  no_data : TxData
  did_data : Did → TxData
  node_data : Node → TxData
  raw_data : Bytes → TxData

pub record Tx : Type 0 where
  pub version : ℕ
  pub ts : Int64
  pub from : String
  pub type : TxType
  pub action : TxAction
  pub data_ : TxData
  pub signature : Bytes

abbrev pub version1 : ℕ
version1 = 1

-- `msgpack.Unmarshal` into a transaction, by what its `Data` points to beforehand.
pub record TxDecoder : Type 0 where
  pub into_raw : Bytes → Option Tx
  pub into_did : Bytes → Option Tx
  pub into_node : Bytes → Option Tx
  pub into_any : Bytes → Option Tx

abbrev pub decoded : Option Tx → Result Tx
decoded none = err unmarshalling
decoded (some t) = ok t

module _ (d : TxDecoder) where
  -- the second decoding, into the type that the first one found
  abbrev pub decode_typed : TxType → Bytes → Result Tx
  decode_typed tx_type_did b = decoded (d.into_did b)
  decode_typed tx_type_vc b = decoded (d.into_raw b)
  decode_typed tx_type_node b = decoded (d.into_node b)
  decode_typed (other_type _) b = err unknown_tx_data

  -- `Tx.Unmarshal`
  unfoldable pub unmarshal : Bytes → Result Tx
  unmarshal b = decoded (d.into_raw b) then? λ t. decode_typed t.type b

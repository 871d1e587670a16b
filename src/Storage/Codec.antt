-- ===== src/Storage/Codec.antt =====
-- What the stores use of msgpack and of the CID library. `none` is an error, and the nil bytes that
-- come with it.
use didem.Base.{Option, List}
use didem.W3cdid.Document.{Document}
use didem.Tx.{Cid, Bytes, Tx, TxId, TxDecoder}
use didem.Storage.Chain.{Block, TxSet}

pub record Codec : Type 0 where
  pub marshal_tx : Tx → Option Bytes
  pub marshal_block : Block → Option Bytes
  pub marshal_set : TxSet → Option Bytes
  pub decoder : TxDecoder
  pub unmarshal_block : Bytes → Option Block
  pub unmarshal_set : Bytes → Option TxSet
  pub unmarshal_document : Bytes → Option Document
  -- `cid.NewCidV1(cid.Raw, multihash.Sum(d, SHA3_256))`
  pub cid_of : Option Bytes → Cid
  -- `cid.Parse` of a CID
  pub parse_cid : Cid → Option Cid
  -- the order in which `range` visits a map of transactions
  pub range_order : List (TxId × Tx) → List (TxId × Tx)

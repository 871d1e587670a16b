-- ===== src/Ipfs/Objects.antt =====
-- The objects of the store over IPFS (internal/storage/ipfs.go): `putRaw` to `GetSet`, and `AllTx`.
use didem.Base.{
  ℕ, Option, none, some, List, [], ◌∷◌, if◌then◌else◌, Error, Result, ok, Exec, pure, fail, ◌>>=◌,
  wrap, ◌then?◌, marshalling, unmarshalling,
}
use didem.Tx.{Cid, Bytes, TxId, Tx, unmarshal}
use didem.Storage.Chain.{BlockId, Block, TxSet}
use didem.Storage.TxSet.{wrapped_exec}
use didem.Storage.Tree.{walk}
use didem.Ipfs.{IpfsEnv, IpfsStorage, in_node, flip, or_fail}

module _ {I D B : Type 0} (env : IpfsEnv I D B) where
  unfoldable pub put_raw : Bytes → Exec (IpfsStorage I D B) Cid
  put_raw d = in_node (env.api.put d)

  unfoldable pub get_raw : IpfsStorage I D B → Cid → Result Bytes
  get_raw s id = env.api.get s.ipfs_node id

  -- bytes that msgpack gave, or its error
  abbrev put_marshalled : Error → Option Bytes → Exec (IpfsStorage I D B) Cid
  unfolding put_raw
  put_marshalled e none = fail e
  put_marshalled e (some d) = put_raw d

  unfoldable pub put_tx : Tx → Exec (IpfsStorage I D B) Cid
  unfolding put_raw
  put_tx t = put_marshalled marshalling (env.codec.marshal_tx t)

  unfoldable pub get_tx : IpfsStorage I D B → TxId → Result Tx
  unfolding get_raw unmarshal
  get_tx s id = get_raw s id then? unmarshal env.codec.decoder

  unfoldable pub put_block : Block → Exec (IpfsStorage I D B) Cid
  unfolding put_raw
  put_block b = put_marshalled (wrap marshalling) (env.codec.marshal_block b)

  -- the block is told its CID
  unfoldable pub get_block : IpfsStorage I D B → BlockId → Result Block
  unfolding get_raw
  get_block s id = get_raw s id then? λ d.
      or_fail (wrap unmarshalling) (env.codec.unmarshal_block d) then? λ b.
      ok (record b { id = id })

  abbrev pin_some : Cid → Exec (IpfsStorage I D B) Unit
  pin_some id = in_node (flip env) >>= λ heads.
      if heads then wrapped_exec (in_node (env.api.pin id)) else pure tt

  unfoldable pub put_set : TxSet → Exec (IpfsStorage I D B) Cid
  unfolding put_raw flip
  put_set t = wrapped_exec (put_marshalled marshalling (env.codec.marshal_set t)) >>= λ id.
      pin_some id >>= λ _. pure id

  unfoldable pub get_set : IpfsStorage I D B → Cid → Result TxSet
  unfolding get_raw
  get_set s id = get_raw s id then? λ d. or_fail (wrap unmarshalling) (env.codec.unmarshal_set d)

  -- `AllTx`, its loop on fuel
  unfoldable pub all_tx : ℕ → IpfsStorage I D B → Block → Result (List (TxId × Tx))
  unfolding walk get_set get_tx
  all_tx fuel s b = walk (get_set s) (get_tx s) fuel [] [] (b.tx_root ∷ [])

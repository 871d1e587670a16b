-- ===== src/Ipfs.antt =====
-- internal/storage/ipfs.go: the store over IPFS, with its metadata in a pebble database. A method
-- returns its result and the new store.
pub mod Keys
pub mod KeyLaws
pub mod Objects
pub mod Index
pub mod Genesis
pub mod Lookup
pub mod Workers
pub mod History
pub mod HistoryLaws
pub mod Impl
pub mod Refused
pub mod Entries
pub mod IndexLaws
pub mod Atomic
pub mod Keeps
pub mod Trial
pub mod Applied
use didem.Base.{
  ℕ, Bool, Option, none, some, List, String, Result, ok, err, panic, Exec, Error, pebble_not_found,
  test_already_started, true, false, nat_eqb, if◌then◌else◌, fail,
}
use didem.Tx.{Cid, Bytes, Tx}
use didem.Storage.Chain.{Block}
use didem.Storage.Codec.{Codec}

-- what reading a key gives
pub data Reading : Type 0 where
  found : Bytes → Reading
  failed : Error → Reading

-- What the store calls of pebble, over its databases and its batches. A batch reads through to the
-- database that it was made for; `close_nil` is `Close` on a nil batch.
pub record Pebble (D B : Type 0) : Type 0 where
  pub get : D → Bytes → Reading
  pub set : Bytes → Bytes → Exec D Unit
  pub iter : D → Bytes → Bytes → List (Bytes × Bytes)
  pub new_batch : D → B
  pub new_indexed_batch : D → B
  pub batch_get : D → B → Bytes → Reading
  pub batch_set : Bytes → Bytes → Exec B Unit
  pub batch_delete : Bytes → Exec B Unit
  pub batch_iter : D → B → Bytes → Bytes → List (Bytes × Bytes)
  pub batch_close : Exec B Unit
  pub close_nil : Result Unit
  pub commit : B → Exec D Unit

-- What the store calls of the IPFS node, and `rand.Intn(2)`.
pub record NodeApi (I : Type 0) : Type 0 where
  pub put : Bytes → Exec I Cid
  pub get : I → Cid → Result Bytes
  pub pin : Cid → Exec I Unit
  pub intn : I → ℕ × I

-- The forms of a CID, `string(b)`, and the orders that Go and its scheduler choose.
pub record CidForms : Type 0 where
  pub to_string : Cid → String
  pub to_bytes : Cid → Bytes
  pub cast : Bytes → Option Cid
  pub parse : Bytes → Option Cid
  pub text : Bytes → String
  -- `cid.Set.Keys`
  pub key_order : List Cid → List Cid
  -- the order in which the workers of `DIDHistory` append
  pub arrival : List Tx → List Tx

pub record IpfsEnv (I D B : Type 0) : Type 0 where
  pub kv : Pebble D B
  pub api : NodeApi I
  pub cids : CidForms
  pub codec : Codec

pub record IpfsStorage (I D B : Type 0) : Type 0 where
  pub ipfs_node : I
  pub metadata : D
  -- the batch of a trial
  pub pf_tip_apply : Option B

-- `err == pebble.ErrNotFound`
abbrev pub is_absent : Error → Bool
is_absent pebble_not_found = true
is_absent _ = false

-- `v, err := c(d)`, any error being the one given
abbrev pub or_fail : {A : Type 0} → Error → Option A → Result A
or_fail e none = err e
or_fail e (some a) = ok a

module _ {I D B : Type 0} where
  abbrev pub in_node : {A : Type 0} → Exec I A → Exec (IpfsStorage I D B) A
  in_node f s = let (r, i) = f s.ipfs_node in (r, record s { ipfs_node = i })

  abbrev pub in_metadata : {A : Type 0} → Exec D A → Exec (IpfsStorage I D B) A
  in_metadata f s = let (r, d) = f s.metadata in (r, record s { metadata = d })

  abbrev pub in_batch : {A : Type 0} → B → Exec B A → Exec (IpfsStorage I D B) A
  in_batch b f s = let (r, b') = f b in (r, record s { pf_tip_apply = some b' })

module _ {I D B : Type 0} (env : IpfsEnv I D B) where
  -- `coinflip.Flip`
  unfoldable pub flip : Exec I Bool
  flip i = let (n, j) = env.api.intn i in (ok (nat_eqb n 0), j)

  -- The trial store has a batch of its own and shares the rest.
  unfoldable pub start_test : IpfsStorage I D B → Result (IpfsStorage I D B)
  start_test s = elim s.pf_tip_apply [
    | some b ↦ err test_already_started
    | none ↦ ok (record s { pf_tip_apply = some (env.kv.new_indexed_batch s.metadata) })
  ]

  abbrev close_batch : Option B → Result Unit
  close_batch none = env.kv.close_nil
  close_batch (some b) = (env.kv.batch_close b).0

  unfoldable pub complete_test : Exec (IpfsStorage I D B) Unit
  complete_test s = (close_batch s.pf_tip_apply, record s { pf_tip_apply = none })

  unfoldable pub metadata_get : IpfsStorage I D B → Bytes → Reading
  metadata_get s k = elim s.pf_tip_apply [
    | some b ↦ env.kv.batch_get s.metadata b k
    | none ↦ env.kv.get s.metadata k
  ]

  unfoldable pub metadata_set : Bytes → Bytes → Exec (IpfsStorage I D B) Unit
  metadata_set k v s = elim s.pf_tip_apply [
    | some b ↦ in_batch b (env.kv.batch_set k v) s
    | none ↦ in_metadata (env.kv.set k v) s
  ]

  -- what an iterator between two bounds visits
  unfoldable pub metadata_iter : IpfsStorage I D B → Bytes → Bytes → List (Bytes × Bytes)
  metadata_iter s lower upper = elim s.pf_tip_apply [
    | some b ↦ env.kv.batch_iter s.metadata b lower upper
    | none ↦ env.kv.iter s.metadata lower upper
  ]

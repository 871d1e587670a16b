-- ===== src/Storage/TxSet.antt =====
-- `NewTxSet` and `NewBlock` of pkg/storage/chain.go: the Merkle tree of a block's transactions.
use didem.Base.{
  ℕ, zero, suc, ◌+◌, ◌%◌, ◌^◌, Bool, Option, none, some, List, [], ◌∷◌, if◌then◌else◌, ◌==◌, nat_eq,
  length, ltb, Result, ok, err, panic, Exec, pure, fail, lift, ◌>>=◌, wrapped, wrap, too_many_tx,
  out_of_fuel, marshalling,
}
use didem.Tx.{Cid, undef, Bytes, Int64}
use didem.Storage.Chain.{BlockId, Block, TxSet, version, max_block_tx_count}
use didem.Storage.Store.{Store}

-- What these functions read from outside: the clock, the random source, the filter of `MakeBloom`,
-- the order of CIDs by their bytes.
pub record ChainEnv : Type 0 where
  pub now : Int64
  pub nonce : Option Bytes
  pub make_bloom : List Cid → Option Bytes
  pub cid_less : Cid → Cid → Bool

-- insertion sort by `Less`, for `sort.Sort(cidList(txs))`
module _ (less : Cid → Cid → Bool) where
  abbrev pub insert_cid : Cid → List Cid → List Cid
  insert_cid a [] = a ∷ []
  insert_cid a (b ∷ l) = let rest = insert_cid a l in if less b a then b ∷ rest else a ∷ b ∷ l

  abbrev pub sort_cids : List Cid → List Cid
  sort_cids [] = []
  sort_cids (a ∷ l) = insert_cid a (sort_cids l)

abbrev pub wrapped_exec : {S A : Type 0} → Exec S A → Exec S A
wrapped_exec f s = let (r, t) = f s in (wrapped r, t)

abbrev pub leaf : Cid → TxSet
leaf id = record { children = []; tx = some id; cid = undef }

abbrev pub parent : TxSet → TxSet → TxSet
parent a b = record { children = a.cid ∷ b.cid ∷ []; tx = none; cid = undef }

module _ {S : Type 0} (put_set : TxSet → Exec S Cid) where
  -- a set is stored, and then told its CID
  abbrev pub store_set : TxSet → Exec S TxSet
  store_set set = wrapped_exec (put_set set) >>= λ id. pure (record set { cid = id })

  unfoldable pub store_leaves : List Cid → Exec S (List TxSet)
  store_leaves [] = pure []
  store_leaves (id ∷ ids) = store_set (leaf id) >>= λ n. store_leaves ids >>= λ ns. pure (n ∷ ns)

  -- One level up. The last node of an odd level stands twice, as the append before the loop over
  -- the pairs has it.
  unfoldable pub store_parents : List TxSet → Exec S (List TxSet)
  store_parents [] = pure []
  store_parents (a ∷ []) = store_set (parent a a) >>= λ n. pure (n ∷ [])
  store_parents (a ∷ b ∷ nodes) =
      store_set (parent a b) >>= λ n. store_parents nodes >>= λ ns. pure (n ∷ ns)

  -- `for len(nodes) > 1`, and `nodes[0]`, which panics where there is no node
  unfoldable pub reduce : ℕ → List TxSet → Exec S TxSet
  unfolding store_parents
  reduce fuel [] = lift panic
  reduce fuel (a ∷ []) = pure a
  reduce zero (a ∷ b ∷ nodes) = fail out_of_fuel
  reduce (suc fuel) (a ∷ b ∷ nodes) = store_parents (a ∷ b ∷ nodes) >>= λ ps. reduce fuel ps

  module _ (env : ChainEnv) where
    -- `NewTxSet`
    unfoldable pub new_tx_set : List Cid → Exec S TxSet
    unfolding store_leaves reduce
    new_tx_set txs =
        let sorted = sort_cids env.cid_less txs in
        if ltb max_block_tx_count (length txs)
        then fail too_many_tx
        else store_leaves sorted >>= λ nodes. reduce (length nodes) nodes

module _ {S : Type 0} (st : Store S) (env : ChainEnv) where
  abbrev parent_height : BlockId → S → Result ℕ
  parent_height parent s =
      if parent == undef then ok 0 else elim (wrapped (st.get_block s parent)) [
        | ok pb ↦ ok ((pb.height + 1) % 2 ^ 64)
        | err e ↦ err e
        | panic ↦ panic
      ]

  abbrev or_marshalling : Option Bytes → Result Bytes
  or_marshalling none = err (wrap marshalling)
  or_marshalling (some b) = ok b

  -- `NewBlock`
  unfoldable pub new_block : BlockId → List Cid → Exec S Block
  unfolding new_tx_set
  new_block parent txs s =
      (lift (parent_height parent s) >>= λ height. lift (or_marshalling env.nonce) >>= λ nonce.
      lift (or_marshalling (env.make_bloom txs)) >>= λ bloom.
      wrapped_exec (new_tx_set st.put_set env txs) >>= λ root. pure (record {
        version = version;
        id = undef;
        parent = parent;
        height = height;
        created_at = env.now;
        proposer = "";
        signature = [];
        nonce = nonce;
        bloom = bloom;
        tx_root = root.cid;
      }))
        s

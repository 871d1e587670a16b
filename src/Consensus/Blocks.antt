-- ===== src/Consensus/Blocks.antt =====
-- `makeBlock` of pkg/did/consensus/blocks.go.
use didem.Base.{
  ℕ, zero, suc, Option, none, some, List, [], ◌∷◌, Result, ok, err, Exec, wrap, ◌>>=◌, pure, lift,
  marshalling, ltb, if◌then◌else◌, ◌==◌, nat_eq,
}
use didem.Tx.{Cid, undef, Bytes, Tx}
use didem.Storage.Chain.{Block, version, max_block_tx_count}
use didem.Storage.Store.{Store}
use didem.Storage.TxSet.{new_tx_set}
use didem.Consensus.Engine.{Engine, Env, MemPool, in_store, wrapped_in, reading}

abbrev pub or_marshalling : Option Bytes → Result Bytes
or_marshalling none = err (wrap marshalling)
or_marshalling (some b) = ok b

module _ {M : Type 0} (mp : MemPool M) where
  -- the loop that takes `n` transactions, and stops where the pool has none
  unfoldable pub take_txs : ℕ → M → List Tx × M
  take_txs zero m = ([], m)
  take_txs (suc n) m =
      let (next, m') = mp.get_tx m in
      elim next [ none ↦ ([], m') | some t ↦ let (txs, m'') = take_txs n m' in (t ∷ txs, m'') ]

  abbrev pub block_size : M → ℕ
  block_size m = if ltb (mp.len m) max_block_tx_count then mp.len m else max_block_tx_count

module _ {S M : Type 0} (st : Store S) (mp : MemPool M) (env : Env) where
  abbrev pub take_from_pool : ℕ → Exec (Engine S M) (List Tx)
  take_from_pool n e =
      let (txs, m) = take_txs mp n e.mem_pool in (ok txs, record e { mem_pool = m })

  unfoldable pub store_txs : List Tx → Exec (Engine S M) (List Cid)
  store_txs [] = pure []
  store_txs (t ∷ txs) =
      wrapped_in (in_store (st.put_tx t)) >>= λ id. store_txs txs >>= λ ids. pure (id ∷ ids)

  abbrev new_block : Engine S M → Bytes → Bytes → Cid → Block
  new_block e nonce bloom root = record {
    version = version;
    id = undef;
    parent = e.state.block_;
    height = e.propsal_state.height;
    created_at = env.chain_env.now;
    proposer = env.peer_string e.id;
    signature = [];
    nonce = nonce;
    bloom = bloom;
    tx_root = root;
  }

  -- the transactions, the filter, the tree, and the block over them
  unfoldable pub fill_block : ℕ → Bytes → Exec (Engine S M) (Option Block)
  unfolding take_txs store_txs
  fill_block n nonce = take_from_pool n >>= λ txs. store_txs txs >>= λ ids.
      lift (or_marshalling (env.chain_env.make_bloom ids)) >>= λ bloom.
      wrapped_in (in_store (new_tx_set st.put_set env.chain_env ids)) >>= λ set.
      wrapped_in (in_store (st.put_set set)) >>= λ root.
      reading (λ e. pure (some (new_block e nonce bloom root)))

  -- `none` where there is nothing to propose
  unfoldable pub make_block : Exec (Engine S M) (Option Block)
  unfolding fill_block
  make_block = lift (or_marshalling env.chain_env.nonce) >>= λ nonce. reading (λ e.
      if block_size mp e.mem_pool == 0
      then pure none
      else fill_block (block_size mp e.mem_pool) nonce)

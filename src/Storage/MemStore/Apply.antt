-- ===== src/Storage/MemStore/Apply.antt =====
-- The methods of pkg/storage/memstore.go that write the metadata: applying transactions, marking
-- and indexing blocks, the genesis.
use didem.Base.{
  Bool, true, false, Option, none, some, List, [], ◌∷◌, String, nat_eq, string_eq, if◌then◌else◌,
  lookup, insert, erase, ok, Exec, pure, fail, lift, ◌>>=◌, ◌>>◌, continue, wrapped, wrap, ◌then?◌,
  invalid_cid,
}
use didem.Tx.{
  Cid, undef, TxId, Tx, TxType, TxAction, tx_type_did, tx_type_node, tx_action_add,
  tx_action_revoke, Node,
}
use didem.Storage.Chain.{BlockId, BlockState, unvalidated, validated, accepted, GenesisInfo}
use didem.Storage.Codec.{Codec}
use didem.Storage.MemStore.{MemStore, get_block, document_of, as_node, put_obj}
use didem.Storage.MemStore.Walk.{all_tx}

abbrev put_did : Cid → String → Exec MemStore Unit
put_did cid did m = (ok tt, record m { dids = insert did cid m.dids })

abbrev apply_node : TxAction → Cid → Node → Exec MemStore Unit
apply_node tx_action_add cid n m = (ok tt, record m { nodes = insert n.id cid m.nodes })
apply_node tx_action_revoke cid n m = (ok tt, record m { nodes = erase n.id m.nodes })
apply_node _ cid n m = (ok tt, m)

-- the switch of `ApplyTx`
unfoldable pub apply_type : TxType → Cid → Tx → Exec MemStore Unit
apply_type tx_type_did cid t = lift (document_of t.data_) >>= λ doc. put_did cid doc.id
apply_type tx_type_node cid t = lift (as_node t.data_) >>= λ n. apply_node t.action cid n
apply_type _ cid t = pure tt

abbrev pub or_unvalidated : Option BlockState → BlockState
or_unvalidated none = unvalidated
or_unvalidated (some s) = s

-- `c == BlockStateValidated && s == BlockStateAccepted`
abbrev pub is_acceptance : BlockState → BlockState → Bool
is_acceptance validated accepted = true
is_acceptance _ _ = false

abbrev pub exec_wrapped : {A : Type 0} → Exec MemStore A → Exec MemStore A
exec_wrapped f m = let (r, s) = f m in (wrapped r, s)

module _ (c : Codec) where
  unfoldable pub apply_tx : TxId → Tx → Exec MemStore Unit
  unfolding apply_type
  apply_tx id t = elim (c.parse_cid id) [
    | none ↦ fail (wrap invalid_cid)
    | some cid ↦ apply_type t.type cid t
  ]

  abbrev pub index_tx : TxId → BlockId → Exec MemStore Unit
  index_tx id b m = (ok tt, record m { txb_index = insert id b m.txb_index })

  unfoldable pub apply_txs : BlockId → List (TxId × Tx) → Exec MemStore Unit
  unfolding apply_tx
  apply_txs b [] = pure tt
  apply_txs b ((id, t) ∷ txs) = index_tx id b >> (exec_wrapped (apply_tx id t) >> apply_txs b txs)

  unfoldable pub index_block_tx : BlockId → Exec MemStore Unit
  unfolding apply_txs
  index_block_tx b m =
      let txs = get_block c m b then? λ block. wrapped (all_tx c m block) in
      continue txs (λ l. apply_txs b (c.range_order l)) m

  unfoldable pub mark_block : BlockId → BlockState → Exec MemStore Unit
  unfolding index_block_tx
  mark_block b s m =
      let marked = record m { b_state = insert b s m.b_state } in
      if is_acceptance (or_unvalidated (lookup b m.b_state)) s
      then index_block_tx b marked
      else (ok tt, marked)

  -- the loop of `ApplyGenesis`: each transaction is stored, and found again by its CID
  abbrev pub put_txs : List Tx → List (TxId × Tx) → MemStore → List (TxId × Tx) × MemStore
  put_txs [] seen m = (seen, m)
  put_txs (t ∷ txs) seen m =
      let (id, s) = put_obj c (c.marshal_tx t) m in put_txs txs (insert id t seen) s

  unfoldable pub apply_genesis : GenesisInfo → Exec MemStore Unit
  unfolding apply_txs put_obj
  apply_genesis gen m =
      let (txs, s) = put_txs gen.txs [] (record m { genesis_applied = true }) in
      apply_txs undef (c.range_order txs) s

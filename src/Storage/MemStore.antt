-- ===== src/Storage/MemStore.antt =====
-- pkg/storage/memstore.go: the in-memory store. A method returns its result and the new store; the
-- mutexes are left out, since a method runs to its end before the next one starts.
pub mod Apply
pub mod Walk
pub mod WalkLaws
pub mod RoundTrip
pub mod Objects
pub mod Impl
pub mod Indexed
use didem.Base.{
  ℕ, ◌+◌, Bool, true, false, Option, none, some, List, [], ◌∷◌, ◌++◌, map, String, ◌==◌, nat_eq,
  string_eq, if◌then◌else◌, lookup, insert, erase, length, ltb, Result, ok, err, panic, Exec, pure,
  fail, lift, ◌>>=◌, ◌>>◌, continue, wrapped, ◌then?◌, not_found, unmarshalling, too_many_tx, wrap,
  not_implemented,
}
use didem.W3cdid.Document.{Document}
use didem.Tx.{
  Cid, undef, Bytes, TxId, Tx, TxType, TxAction, TxData, did_data, node_data, tx_type_did,
  tx_type_vc, tx_type_node, other_type, tx_action_add, tx_action_revoke, unmarshal, Did, Node,
}
use didem.Storage.Chain.{
  BlockId, BlockState, unvalidated, validated, accepted, Block, TxSet, GenesisInfo,
  max_block_tx_count,
}
use didem.Storage.Codec.{Codec}
use text.Mathlib.Text.{is_le}
use Prim.Native.String.{compare}

pub record MemStore : Type 0 where
  pub objects : List (Cid × Option Bytes)
  pub txb_index : List (TxId × BlockId)
  pub b_state : List (BlockId × BlockState)
  pub nodes : List (String × Cid)
  pub dids : List (String × Cid)
  pub claims : List (String × List Cid)
  pub last_block : BlockId
  pub genesis_applied : Bool

abbrev pub new_mem_store : MemStore
new_mem_store = record {
  objects = [];
  txb_index = [];
  b_state = [];
  nodes = [];
  dids = [];
  claims = [];
  last_block = undef;
  genesis_applied = false;
}

-- `StartTest` copies every map but not `lastBlock` and `genesisApplied`.
unfoldable pub start_test : MemStore → Result MemStore
start_test m = ok (record m { last_block = undef; genesis_applied = false })

unfoldable pub complete_test : Exec MemStore Unit
complete_test = pure tt

unfoldable pub update_last_applied : BlockId → Exec MemStore Unit
update_last_applied id m = (ok tt, record m { last_block = id })

-- nil bytes and a missing key look alike
abbrev pub stored : Option (Option Bytes) → Option Bytes
stored none = none
stored (some d) = d

unfoldable pub get_obj : MemStore → Cid → Option Bytes
get_obj m id = stored (lookup id m.objects)

-- `d == nil` is ErrNotFound; a failed decoding is wrapped.
abbrev pub decode_with : {A : Type 0} → (Bytes → Option A) → Option Bytes → Result A
decode_with f none = err not_found
decode_with f (some d) = elim (f d) [ none ↦ err (wrap unmarshalling) | some a ↦ ok a ]

-- insertion sort, for `sort.Strings`
abbrev pub insert_sorted : String → List String → List String
insert_sorted a [] = a ∷ []
insert_sorted a (b ∷ l) =
    let rest = insert_sorted a l in if is_le (compare a b) then a ∷ b ∷ l else b ∷ rest

abbrev pub sort_strings : List String → List String
sort_strings [] = []
sort_strings (a ∷ l) = insert_sorted a (sort_strings l)

abbrev pub keys {ℓ} : {K V : Type ℓ} → List (K × V) → List K
keys [] = []
keys ((k, _) ∷ m) = k ∷ keys m

unfoldable pub node_ids : MemStore → Result (List String)
node_ids m = ok (sort_strings (keys m.nodes))

unfoldable pub has_genesis_applied : MemStore → Bool
has_genesis_applied m = m.genesis_applied

unfoldable pub did_history : MemStore → String → Result (List Tx)
did_history m id = err not_implemented

-- the type assertion `t.Data.(*tx.Node)`
abbrev pub as_node : TxData → Result Node
as_node (node_data n) = ok n
as_node _ = panic

-- `t.Data.(*tx.DID).Document.ID`: a wrong type and a nil document both panic
abbrev pub document_of : TxData → Result Document
document_of (did_data d) = elim d.document [ none ↦ panic | some doc ↦ ok doc ]
document_of _ = panic

module _ (c : Codec) where
  unfoldable pub put_obj : Option Bytes → MemStore → Cid × MemStore
  put_obj d m = (c.cid_of d, record m { objects = insert (c.cid_of d) d m.objects })

  unfoldable pub put_tx : Tx → Exec MemStore Cid
  unfolding put_obj
  put_tx t m = let (id, s) = put_obj (c.marshal_tx t) m in (ok id, s)

  unfoldable pub put_block : Block → Exec MemStore Cid
  unfolding put_obj
  put_block b m = let (id, s) = put_obj (c.marshal_block b) m in (ok id, s)

  unfoldable pub put_set : TxSet → Exec MemStore Cid
  unfolding put_obj
  put_set t m = let (id, s) = put_obj (c.marshal_set t) m in (ok id, s)

  abbrev pub decode_tx : Option Bytes → Result Tx
  decode_tx none = err not_found
  decode_tx (some d) = wrapped (unmarshal c.decoder d)

  unfoldable pub get_tx : MemStore → TxId → Result Tx
  unfolding get_obj unmarshal
  get_tx m id = decode_tx (get_obj m id)

  unfoldable pub get_block : MemStore → BlockId → Result Block
  unfolding get_obj
  get_block m id = decode_with c.unmarshal_block (get_obj m id)

  unfoldable pub get_set : MemStore → Cid → Result TxSet
  unfolding get_obj
  get_set m id = decode_with c.unmarshal_set (get_obj m id)

  unfoldable pub get_last_applied : MemStore → Result (Option Block)
  unfolding get_block
  get_last_applied m =
      if m.last_block == undef then ok none else get_block m m.last_block then? λ b. ok (some b)

  unfoldable pub get_tx_block : MemStore → TxId → Result Block
  unfolding get_block
  get_tx_block m id = elim (lookup id m.txb_index) [ none ↦ err not_found | some b ↦ get_block m b ]

  -- The DID's index holds the CID of its transaction, whose bytes are decoded as a document.
  unfoldable pub lookup_did : MemStore → String → Result Document
  unfolding get_obj
  lookup_did m id = elim (lookup id m.dids) [
    | none ↦ err not_found
    | some cid ↦ decode_with c.unmarshal_document (get_obj m cid)
  ]

  abbrev node_of_tx : Result Tx → Result Node
  node_of_tx r = r then? λ t. as_node t.data_

  unfoldable pub node : MemStore → String → Result Node
  unfolding get_obj unmarshal
  node m id = elim (lookup id m.nodes) [
    | none ↦ err not_found
    | some cid ↦ node_of_tx (decode_tx (get_obj m cid))
  ]

  -- The loop over a DID's claims decodes each one and keeps none of them.
  abbrev pub check_claims : MemStore → List Cid → Result (List Tx)
  check_claims m [] = ok []
  check_claims m (id ∷ ids) =
      decode_with c.decoder.into_any (stored (lookup id m.objects)) then? λ _. check_claims m ids

  unfoldable pub claims_of : MemStore → String → Result (List Tx)
  claims_of m id = elim (lookup id m.claims) [
    | none ↦ err not_found
    | some [] ↦ err not_found
    | some (x ∷ xs) ↦ check_claims m (x ∷ xs)
  ]

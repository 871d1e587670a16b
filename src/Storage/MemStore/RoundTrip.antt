-- ===== src/Storage/MemStore/RoundTrip.antt =====
-- `AllTx` finds what `NewTxSet` stored, in the in-memory store (pkg/storage/memstore.go, chain.go).
use didem.Base.{
  ◌≤◌, ◌<◌, Option, some, List, length, lookup, All, nat_eq, if◌then◌else◌, ok, ◌≡◌, ◌↔◌, inl, inr,
  refl, sym, ap, ◌∙◌, arith, Option-cases, beq_refl,
}
use didem.Tx.{Cid, undef, Bytes, TxId, Tx}
use didem.Storage.Chain.{Block, TxSet, max_block_tx_count}
use didem.Storage.Codec.{Codec}
use didem.Storage.TxSet.{ChainEnv, new_tx_set}
use didem.Storage.Tree.Members.{In}
use didem.Storage.Tree.Build.{Extends, IsPut, Makes, IsRoot, new_tx_set-Makes}
use didem.Storage.Tree.Found.{walk-HasExactly}
use didem.Storage.MemStore.{
  MemStore, decode_with, decode_tx, get_obj, put_obj, put_set, get_set, get_tx,
}
use didem.Storage.MemStore.Objects.{
  IsAddressed, put_obj-IsAddressed, get_obj-put_obj, put_obj_keeps,
}
use didem.Storage.MemStore.Walk.{all_tx}
use didem.Storage.MemStore.WalkLaws.{all_tx_ends}

-- Different contents have different CIDs, and msgpack decodes the sets that it encodes.
pub record IsFaithful (c : Codec) : Type 0 where
  pub distinct : (d : Option Bytes) (x : Bytes) → c.cid_of d ≡ c.cid_of (some x) → d ≡ some x
  pub sets :
      (t : TxSet)
      → (d : Bytes) × (c.marshal_set t ≡ some d)
        × (c.unmarshal_set d ≡ some (record t { cid = undef }))

decode_with-some :
    {A : Type 0} (f : Bytes → Option A) (d : Bytes) {a : A}
    → f d ≡ some a
    → decode_with f (some d) ≡ ok a
decode_with-some f d h = ground arith

module _ (c : Codec) (faithful : IsFaithful c) where
  get_obj-put :
      (m : MemStore) (d : Option Bytes) (id : Cid) (x : Bytes)
      → IsAddressed c m m
      → get_obj m id ≡ some x
      → get_obj (put_obj c d m).1 id ≡ some x
  get_obj-put m d id x h f = put_obj_keeps c m d id (faithful.distinct d x) h f

  put-Extends :
      (m : MemStore) (d : Option Bytes)
      → IsAddressed c m m
      → Extends (put_set c) (get_set c) (get_tx c) m (put_obj c d m).1
  unfolding get_set get_tx
  put-Extends m d h = record {
    sets = λ id set got. elim (Option-cases (get_obj m id)) [
      | inl missing ↦ absurd (ground arith)
      | inr (x, there) ↦
          ap (decode_with c.unmarshal_set) (get_obj-put m d id x h there ∙ sym there) ∙ got
    ];
    txs = λ id t got. elim (Option-cases (get_obj m id)) [
      | inl missing ↦ absurd (ground arith)
      | inr (x, there) ↦ ap (decode_tx c) (get_obj-put m d id x h there ∙ sym there) ∙ got
    ];
  }

  put_set-IsPut :
      (set : TxSet) (m : MemStore)
      → IsAddressed c m m
      → IsPut (put_set c) (get_set c) (get_tx c) (λ s. IsAddressed c s s) set m
  unfolding put_set get_set
  put_set-IsPut set m h =
      let (d, packed, unpacked) = faithful.sets set in
      let o = c.marshal_set set in
      let m' = (put_obj c o m).1 in
      let id = c.cid_of o in
      let there : get_obj m' id ≡ some d =
        get_obj-put_obj c m o id ∙ ap (λ y. if y then o else get_obj m id) (beq_refl id) ∙ packed in
      record {
        id = id;
        after = m';
        returned = refl;
        holds = put_obj-IsAddressed c m o h;
        found =
            ap (decode_with c.unmarshal_set) there ∙ decode_with-some c.unmarshal_set d unpacked;
        extends = put-Extends m o h;
      }

  -- Where different contents have different CIDs and msgpack decodes what it encodes, `NewTxSet` of
  -- at least one and at most 1000 transactions that the store has succeeds, and `AllTx` of a block
  -- with the root that it gives succeeds, and returns exactly those transactions.
  pub all_tx-new_tx_set :
      (env : ChainEnv) (ids : List Cid) (m : MemStore) (b : Block)
      → IsAddressed c m m
      → 0 < length ids
      → length ids ≤ max_block_tx_count
      → All (λ id. (t : Tx) × (get_tx c m id ≡ ok t)) ids
      → (root : TxSet) × (m' : MemStore) × (new_tx_set (put_set c) env ids m ≡ (ok root, m'))
        × ((r : List (TxId × Tx)) × (all_tx c m' (record b { tx_root = root.cid }) ≡ ok r)
            × ((x : Cid) → ((t : Tx) × (lookup x r ≡ some t)) ↔ In x ids))
  unfolding all_tx
  all_tx-new_tx_set env ids m b addressed full few known =
      let made : Makes (put_set c) (get_set c) (get_tx c) (λ s. IsAddressed c s s) put_set-IsPut
          (IsRoot (put_set c) (get_set c) (get_tx c) (λ s. IsAddressed c s s) put_set-IsPut ids)
          (new_tx_set (put_set c) env ids) m =
        new_tx_set-Makes (put_set c) (get_set c) (get_tx c) (λ s. IsAddressed c s s) put_set-IsPut
          env ids m full few addressed known in
      let m' = made.after in
      let root = made.value in
      let found =
        walk-HasExactly (get_set c m') (get_tx c m') ids root.cid _ made.made.below few
          made.made.spans made.made.same (all_tx_ends c m' (record b { tx_root = root.cid })) in
      (root, m', made.returned, found)

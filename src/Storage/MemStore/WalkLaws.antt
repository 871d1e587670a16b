-- ===== src/Storage/MemStore/WalkLaws.antt =====
-- Lemmas on the walk over the Merkle tree of a block (`allTxCids` of pkg/storage/memstore.go).
use didem.Base.{
  ℕ, zero, suc, ◌+◌, ◌≤◌, false, Option, none, some, List, [], ◌∷◌, ◌++◌, nat_eq, if◌then◌else◌,
  lookup, insert, length, ltb, Result, ok, err, panic, wrapped, out_of_fuel, Bool-cases, ◌≡◌, ◌≢◌,
  refl, inl, inr, arith, All, All-insert, length-append, subst, ok-injective, then?-eq-ok,
  wrapped-eq-ok, then?-ne,
}
use didem.Tx.{Cid, TxId, Tx, Bytes}
use didem.Storage.Chain.{Block, TxSet, max_block_tx_count}
use didem.Storage.Codec.{Codec}
use didem.Storage.MemStore.{MemStore, get_tx, get_set, get_obj, stored, decode_with}
use didem.Storage.MemStore.Walk.{all_tx, children_count, total_children}
use didem.Storage.Tree.{has, add_tx, walk}

module _ (c : Codec) (m : MemStore) where
  -- the children that the objects not yet visited can still add
  abbrev pending : List Cid → List (Cid × Option Bytes) → ℕ
  pending visited [] = 0
  pending visited ((k, d) ∷ objects) =
      (if has k visited then 0 else children_count c m d) + pending visited objects

  pending-cons :
      (id : Cid) (visited : List Cid) (objects : List (Cid × Option Bytes))
      → pending (id ∷ visited) objects ≤ pending visited objects
  pending-cons id visited [] = omega arith
  pending-cons id visited ((k, d) ∷ objects) = ground (arith, pending-cons id visited objects)

  pending-visit :
      (id : Cid) (visited : List Cid) (objects : List (Cid × Option Bytes)) (set : TxSet)
      → has id visited ≡ false
      → decode_with c.unmarshal_set (stored (lookup id objects)) ≡ ok set
      → pending (id ∷ visited) objects + length set.children ≤ pending visited objects
  pending-visit id visited [] set new h = ground arith
  pending-visit id visited ((k, d) ∷ objects) set new h =
      ground (arith, pending-visit id visited objects set new, pending-cons id visited objects)

  add_tx_fuel :
      (tx : Option Cid) (seen : List (TxId × Tx))
      → add_tx (get_set c m) (get_tx c m) tx seen ≢ err out_of_fuel
  unfolding add_tx
  add_tx_fuel none seen h = cc
  add_tx_fuel (some id) seen h = ground arith

  pending-nil :
      (objects : List (Cid × Option Bytes)) → pending [] objects ≡ total_children c m objects
  pending-nil [] = refl
  pending-nil ((k, d) ∷ objects) = omega (arith, pending-nil objects)

  wrapped_fuel : {A : Type 0} (r : Result A) → wrapped r ≢ err out_of_fuel
  wrapped_fuel (ok a) h = cc
  wrapped_fuel (err e) h = cc
  wrapped_fuel panic h = cc

  -- With fuel for the queue and for what can still be added to it, the walk ends by itself.
  walk_fuel :
      (fuel : ℕ) (seen : List (TxId × Tx)) (visited queue : List Cid)
      → pending visited m.objects + length queue ≤ fuel
      → walk (get_set c m) (get_tx c m) fuel seen visited queue ≢ err out_of_fuel
  unfolding walk get_set get_obj
  walk_fuel fuel seen visited [] h e = cc
  walk_fuel zero seen visited (id ∷ queue) h e = absurd (omega arith)
  walk_fuel (suc fuel) seen visited (id ∷ queue) h e = elim (Bool-cases (has id visited)) [
    | inl old ↦ walk_fuel fuel seen visited queue (omega arith) (rw old at e)
    | inr new ↦
        then?-ne (wrapped (get_set c m id)) _ (wrapped_fuel (get_set c m id))
          (λ set got.
            then?-ne (add_tx (get_set c m) (get_tx c m) set.tx seen) _ (add_tx_fuel set.tx seen)
              (λ seen' added. walk_fuel fuel seen' (id ∷ visited) (queue ++ set.children) (
                omega (
                  arith,
                  pending-visit id visited m.objects set new (wrapped-eq-ok _ got),
                  length-append {0} queue set.children,
                ))))
          (rw new at e)
  ]

  -- The walk over a block's tree ends: the fuel that it is given is never used up.
  pub all_tx_ends : (b : Block) → all_tx c m b ≢ err out_of_fuel
  unfolding all_tx
  all_tx_ends b = walk_fuel _ [] [] (b.tx_root ∷ []) (omega (arith, pending-nil m.objects))

  -- each entry is what the store holds under its CID
  abbrev pub IsStored : TxId × Tx → Type 0
  IsStored (id, t) = get_tx c m id ≡ ok t

  abbrev pub AreStored : List (TxId × Tx) → Type 0
  AreStored seen = All IsStored seen × (length seen ≤ max_block_tx_count)

  add_tx-AreStored :
      (tx : Option Cid) (seen : List (TxId × Tx)) {seen' : List (TxId × Tx)}
      → AreStored seen
      → add_tx (get_set c m) (get_tx c m) tx seen ≡ ok seen'
      → AreStored seen'
  unfolding add_tx
  add_tx-AreStored none seen h e = subst AreStored (ok-injective e) h
  add_tx-AreStored (some id) seen {seen'} h e =
      let (t, got, rest) = then?-eq-ok (wrapped (get_tx c m id)) _ e in
      let few : ltb max_block_tx_count (length (insert id t seen)) ≡ false = ground arith in
      let same : insert id t seen ≡ seen' = ground arith in
      subst AreStored same (All-insert IsStored id t seen (wrapped-eq-ok _ got) h.0, ground arith)

  walk-AreStored :
      (fuel : ℕ) (seen : List (TxId × Tx)) (visited queue : List Cid) {txs : List (TxId × Tx)}
      → AreStored seen
      → walk (get_set c m) (get_tx c m) fuel seen visited queue ≡ ok txs
      → AreStored txs
  unfolding walk
  walk-AreStored fuel seen visited [] h e = subst AreStored (ok-injective e) h
  walk-AreStored zero seen visited (id ∷ queue) h e = cc
  walk-AreStored (suc fuel) seen visited (id ∷ queue) h e = elim (Bool-cases (has id visited)) [
    | inl old ↦ walk-AreStored fuel seen visited queue h (rw old at e)
    | inr new ↦
        let (set, _, rest) = then?-eq-ok (wrapped (get_set c m id)) _ (rw new at e) in
        let (seen', added, walked) =
          then?-eq-ok (add_tx (get_set c m) (get_tx c m) set.tx seen) _ rest in
        walk-AreStored fuel seen' (id ∷ visited) (queue ++ set.children)
          (add_tx-AreStored set.tx seen h added) walked
  ]

  -- What the walk returns is at most `MaxBlockTxCount` transactions, and each is the one that the
  -- store holds under its CID.
  pub all_tx_sound : (b : Block) {txs : List (TxId × Tx)} → all_tx c m b ≡ ok txs → AreStored txs
  unfolding all_tx
  all_tx_sound b h = walk-AreStored _ [] [] (b.tx_root ∷ []) (tt, omega arith) h

-- ===== src/Storage/MemStore/Objects.antt =====
-- Lemmas on the objects of the in-memory store (pkg/storage/memstore.go).
use didem.Base.{
  Option, some, List, ok, ◌≡◌, ap, arith, ◌==◌, nat_eq, if◌then◌else◌, All, All-insert, refl,
  lookup, lookup-insert, beq_refl, sym, ◌∙◌, Bool-cases, inl, inr, eq_of_beq,
}
use didem.Tx.{Cid, Bytes}
use didem.Storage.Chain.{Block, BlockId}
use didem.Storage.Codec.{Codec}
use didem.Storage.MemStore.{MemStore, stored, get_obj, put_obj, put_block, get_block}

module _ (c : Codec) (m : MemStore) where
  pub get_obj-put_obj :
      (d : Option Bytes) (id : Cid)
      → get_obj (put_obj c d m).1 id ≡ (if c.cid_of d == id then d else get_obj m id)
  unfolding get_obj put_obj
  get_obj-put_obj d id = rw lookup-insert (ground arith)

  -- A block that msgpack encodes, and decodes again, is found under the CID that putting it gave.
  pub get_block-put_block :
      (b : Block) {d : Bytes} {id : BlockId}
      → c.marshal_block b ≡ some d
      → c.unmarshal_block d ≡ some b
      → (put_block c b m).0 ≡ ok id
      → get_block c (put_block c b m).1 id ≡ ok b
  unfolding put_block get_block
  get_block-put_block b {d} {id} packed unpacked put =
      let same : c.cid_of (c.marshal_block b) ≡ id = ground arith in
      rw (get_obj-put_obj (c.marshal_block b) id, same, beq_refl id, packed) (ground arith)

  -- Every object stands under its own CID.
  abbrev pub IsAddressed : MemStore → Type 0
  IsAddressed s = All (λ (o : Cid × Option Bytes). o.0 ≡ c.cid_of o.1) s.objects

  pub put_obj-IsAddressed : (d : Option Bytes) → IsAddressed m → IsAddressed (put_obj c d m).1
  unfolding put_obj
  put_obj-IsAddressed d h =
      All-insert (λ (o : Cid × Option Bytes). o.0 ≡ c.cid_of o.1) (c.cid_of d) d m.objects refl h

lookup-IsAddressed :
    (c : Codec) (l : List (Cid × Option Bytes)) (id : Cid) (x : Bytes)
    → All (λ (o : Cid × Option Bytes). o.0 ≡ c.cid_of o.1) l
    → stored (lookup id l) ≡ some x
    → id ≡ c.cid_of (some x)
lookup-IsAddressed c List.[] id x h f = ground arith
lookup-IsAddressed c (List.◌∷◌ (k, d) l) id x h f = elim (Bool-cases (k == id)) [
  | inl y ↦
      let e : d ≡ some x = (rw y at f) in sym (eq_of_beq k id y) ∙ h.0 ∙ ap (λ o. c.cid_of o) e
  | inr n ↦ lookup-IsAddressed c l id x h.1 (rw n at f)
]

-- Where the new content shares no CID with another one that is stored, no put changes what a CID
-- stands for, in a store whose objects stand under their own CIDs.
pub put_obj_keeps :
    (c : Codec) (m : MemStore) (d : Option Bytes) (id : Cid) {x : Bytes}
    → (c.cid_of d ≡ c.cid_of (some x) → d ≡ some x)
    → IsAddressed c m m
    → get_obj m id ≡ some x
    → get_obj (put_obj c d m).1 id ≡ some x
unfolding get_obj
put_obj_keeps c m d id {x} inj h f = elim (Bool-cases (c.cid_of d == id)) [
  | inl y ↦
      rw (get_obj-put_obj c m d id, y)
        (inj (eq_of_beq _ id y ∙ lookup-IsAddressed c m.objects id x h f))
  | inr n ↦ rw (get_obj-put_obj c m d id, n) f
]

-- ===== src/Storage/Tree/Sorted.antt =====
-- The order that `NewTxSet` of pkg/storage/chain.go puts its transactions in changes none of them.
use didem.Base.{suc, Bool, List, [], ◌∷◌, length, ◌≡◌, inl, inr, refl, ap, ◌∙◌, arith, Bool-cases}
use didem.Tx.{Cid}
use didem.Storage.TxSet.{insert_cid, sort_cids}
use didem.Storage.Tree.Members.{SameMembers}

insert_cid-SameMembers :
    (less : Cid → Cid → Bool) (a : Cid) (l : List Cid) → SameMembers (insert_cid less a l) (a ∷ l)
insert_cid-SameMembers less a [] c = ((λ i. i), (λ i. i))
insert_cid-SameMembers less a (b ∷ l) c = elim (Bool-cases (less b a)) [
  | inl behind ↦ rw behind (
    (λ i. elim i [
      | inl p ↦ inr (inl p)
      | inr later ↦ elim ((insert_cid-SameMembers less a l c).0 later) [
        | inl p ↦ inl p
        | inr rest ↦ inr (inr rest)
      ]
    ]),
    (λ i. elim i [
      | inl p ↦ inr ((insert_cid-SameMembers less a l c).1 (inl p))
      | inr later ↦ elim later [
        | inl p ↦ inl p
        | inr rest ↦ inr ((insert_cid-SameMembers less a l c).1 (inr rest))
      ]
    ]),
  )
  | inr here ↦ rw here ((λ i. i), (λ i. i))
]

pub SameMembers-sort_cids :
    (less : Cid → Cid → Bool) (l : List Cid) → SameMembers (sort_cids less l) l
SameMembers-sort_cids less [] c = ((λ i. i), (λ i. i))
SameMembers-sort_cids less (a ∷ l) c =
    let step = insert_cid-SameMembers less a (sort_cids less l) c in
    let rest = SameMembers-sort_cids less l c in
    (
      (λ i. elim (step.0 i) [ inl p ↦ inl p | inr later ↦ inr (rest.0 later) ]),
      (λ i. elim i [ inl p ↦ step.1 (inl p) | inr later ↦ step.1 (inr (rest.1 later)) ]),
    )

length-insert_cid :
    (less : Cid → Cid → Bool) (a : Cid) (l : List Cid)
    → length (insert_cid less a l) ≡ suc (length l)
length-insert_cid less a [] = refl
length-insert_cid less a (b ∷ l) = ground (arith, length-insert_cid less a l)

pub length-sort_cids :
    (less : Cid → Cid → Bool) (l : List Cid) → length (sort_cids less l) ≡ length l
length-sort_cids less [] = refl
length-sort_cids less (a ∷ l) =
    length-insert_cid less a (sort_cids less l) ∙ ap suc (length-sort_cids less l)

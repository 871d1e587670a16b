-- ===== src/Storage/Tree/Spans.antt =====
-- The walk over a block's tree (pkg/storage/memstore.go, internal/storage/ipfs.go) where the tree is
-- one of `NewTxSet`.
use didem.Base.{
  ◌≤◌, true, false, Option, none, some, List, [], ◌∷◌, ◌++◌, length, ltb, lookup, insert, Distinct,
  insert-Distinct, lookup-insert, All, All-insert, nat_eq, ◌==◌, Result, ok, ◌≡◌, ◌⊎◌, inl, inr,
  refl, subst, arith, beq_refl, Bool-cases,
}
use didem.Tx.{Cid, TxId, Tx}
use didem.Storage.Chain.{TxSet, max_block_tx_count}
use didem.Storage.Tree.{has, add_tx}
use didem.Storage.Tree.Members.{In, In-append_left, In-append_right, length-Distinct}

module _ (get_set : Cid → Result TxSet) (get_tx : TxId → Result Tx) where
  -- The set under `c` is the root of a tree whose leaves have the transactions `ids`.
  pub data Spans : Cid → List Cid → Type 0 where
    leaf_set :
        (c id : Cid) (set : TxSet) (t : Tx)
        → get_set c ≡ ok set
        → set.children ≡ []
        → set.tx ≡ some id
        → get_tx id ≡ ok t
        → Spans c (id ∷ [])
    parent_set :
        (c a b : Cid) (set : TxSet) (xs ys : List Cid)
        → get_set c ≡ ok set
        → set.children ≡ a ∷ b ∷ []
        → set.tx ≡ none
        → Spans a xs
        → Spans b ys
        → Spans c (xs ++ ys)

  -- a tree with some of the transactions `ids`
  abbrev pub SpansSome : List Cid → Cid → Type 0
  SpansSome ids c = (xs : List Cid) × Spans c xs × ((x : Cid) → In x xs → In x ids)

  abbrev pub SeenTx : List (TxId × Tx) → Option Cid → Type 0
  SeenTx seen none = Unit
  SeenTx seen (some id) = (t : Tx) × (lookup id seen ≡ some t)

  -- what is known of a set that was visited
  pub record IsDone (seen : List (TxId × Tx)) (visited queue : List Cid) (v : Cid) : Type 0 where
    pub set : TxSet
    pub got : get_set v ≡ ok set
    pub seen_tx : SeenTx seen set.tx
    pub children_done : (k : Cid) → In k set.children → (has k visited ≡ true) ⊎ In k queue

  pub record IsWalking (ids : List Cid) (root : Cid) (seen : List (TxId × Tx))
      (visited queue : List Cid) : Type 0 where
    pub done : (v : Cid) → has v visited ≡ true → IsDone seen visited queue v
    pub from_root : (has root visited ≡ true) ⊎ In root queue
    pub to_come : (q : Cid) → In q queue → SpansSome ids q
    pub inside : All (λ e. In e.0 ids) seen
    pub distinct : Distinct seen

  -- the transaction and the children of a set in such a tree
  pub data SetCase (ids : List Cid) (set : TxSet) : Type 0 where
    is_leaf :
        (id : Cid) (t : Tx)
        → set.children ≡ []
        → set.tx ≡ some id
        → get_tx id ≡ ok t
        → In id ids
        → SetCase ids set
    is_parent : ((k : Cid) → In k set.children → SpansSome ids k) → set.tx ≡ none → SetCase ids set

  pub set_case :
      (ids : List Cid) (c : Cid)
      → SpansSome ids c
      → (set : TxSet) × (get_set c ≡ ok set) × SetCase ids set
  set_case ids c (xs, leaf_set c' id set t got kids tx has_tx, within) =
      (set, got, is_leaf id t kids tx has_tx (within id (inl refl)))
  set_case ids c (xs, parent_set c' a b set ys zs got kids tx left right, within) = (
    set,
    got,
    is_parent
        (λ k child. elim (rw kids at child) [
          | inl p ↦ subst (SpansSome ids) p (ys, left, (λ x h. within x (In-append_left x ys zs h)))
          | inr rest ↦ elim rest [
            | inl p ↦
                subst (SpansSome ids) p (zs, right, (λ x h. within x (In-append_right x ys zs h)))
            | inr none_left ↦ absurd none_left
          ]
        ])
        tx,
  )

  pub has-cons :
      (k id : Cid) (visited : List Cid) → has k visited ≡ true → has k (id ∷ visited) ≡ true
  has-cons k id visited h = ground arith

  pub has-head : (id : Cid) (visited : List Cid) → has id (id ∷ visited) ≡ true
  has-head id visited = rw (beq_refl id) refl

  -- Visiting a set: what it adds to the transactions that were seen.
  pub record IsVisit (ids : List Cid) (set : TxSet) (seen seen' : List (TxId × Tx)) : Type 0 where
    pub added : add_tx get_set get_tx set.tx seen ≡ ok seen'
    pub own_tx : SeenTx seen' set.tx
    pub kept : (o : Option Cid) → SeenTx seen o → SeenTx seen' o
    pub inside : All (λ e. In e.0 ids) seen'
    pub distinct : Distinct seen'
    pub next : (k : Cid) → In k set.children → SpansSome ids k

  kept-insert :
      (id : Cid) (t : Tx) (seen : List (TxId × Tx)) (o : Option Cid)
      → SeenTx seen o
      → SeenTx (insert id t seen) o
  kept-insert id t seen none h = tt
  kept-insert id t seen (some x) (u, h) = elim (Bool-cases (id == x)) [
    | inl same ↦ (t, rw (lookup-insert, same) refl)
    | inr other ↦ (u, rw (lookup-insert, other) h)
  ]

  pub visit :
      (ids : List Cid) (set : TxSet) (seen : List (TxId × Tx))
      → length ids ≤ max_block_tx_count
      → SetCase ids set
      → All (λ e. In e.0 ids) seen
      → Distinct seen
      → (seen' : List (TxId × Tx)) × IsVisit ids set seen seen'
  unfolding add_tx
  visit ids set seen few (is_parent kids tx) inside distinct = (
    seen,
    record {
      added = rw tx refl;
      own_tx = rw tx tt;
      kept = λ o h. h;
      inside = inside;
      distinct = distinct;
      next = kids;
    },
  )
  visit ids set seen few (is_leaf id t kids tx got member) inside distinct =
      let seen' = insert id t seen in
      let inside' : All (λ e. In e.0 ids) seen' =
        All-insert (λ e. In e.0 ids) id t seen member inside in
      let distinct' : Distinct seen' = insert-Distinct id t seen distinct in
      let small : ltb max_block_tx_count (length seen') ≡ false =
        ground (arith, length-Distinct seen' ids distinct' inside') in
      (
        seen',
        record {
          added = rw (tx, got, small) refl;
          own_tx = rw tx (t, (rw (lookup-insert, beq_refl id) refl));
          kept = λ o h. kept-insert id t seen o h;
          inside = inside';
          distinct = distinct';
          next = λ k child. absurd (rw kids at child);
        },
      )

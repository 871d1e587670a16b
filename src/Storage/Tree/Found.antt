-- ===== src/Storage/Tree/Found.antt =====
-- What the walk over a tree of `NewTxSet` finds (pkg/storage/memstore.go, internal/storage/ipfs.go).
use didem.Base.{
  ℕ, zero, suc, ◌≤◌, true, some, List, [], ◌∷◌, ◌++◌, length, lookup, All, nat_eq, ◌==◌, Result, ok,
  err, out_of_fuel, ◌≡◌, ◌≢◌, ◌⊎◌, ◌↔◌, inl, inr, refl, sym, ap, subst, ◌∙◌, Bool-cases, eq_of_beq,
  ok-injective,
}
use didem.Tx.{Cid, TxId, Tx}
use didem.Storage.Chain.{TxSet, max_block_tx_count}
use didem.Storage.Tree.{has, walk}
use didem.Storage.Tree.Members.{In, In-append_left, In-append_right, In-append, SameMembers}
use didem.Storage.Tree.Spans.{
  Spans, leaf_set, parent_set, SpansSome, SeenTx, IsDone, IsWalking, set_case, has-cons, has-head,
  IsVisit, visit,
}

module _ (get_set : Cid → Result TxSet) (get_tx : TxId → Result Tx) (ids : List Cid)
    (root : Cid) where
  settled :
      (visited : List Cid) (id : Cid) (queue : List Cid) (k : Cid)
      → has id visited ≡ true
      → (has k visited ≡ true) ⊎ In k (id ∷ queue)
      → (has k visited ≡ true) ⊎ In k queue
  settled visited id queue k old (inl h) = inl h
  settled visited id queue k old (inr (inl p)) = inl (subst (λ x. has x visited ≡ true) p old)
  settled visited id queue k old (inr (inr later)) = inr later

  moved_on :
      (visited : List Cid) (id : Cid) (queue more : List Cid) (k : Cid)
      → (has k visited ≡ true) ⊎ In k (id ∷ queue)
      → (has k (id ∷ visited) ≡ true) ⊎ In k (queue ++ more)
  moved_on visited id queue more k (inl h) = inl (has-cons get_set get_tx k id visited h)
  moved_on visited id queue more k (inr (inl p)) =
      inl (subst (λ x. has x (id ∷ visited) ≡ true) p (has-head get_set get_tx id visited))
  moved_on visited id queue more k (inr (inr later)) = inr (In-append_left k queue more later)

  -- a set that was visited before is passed over
  again :
      (seen : List (TxId × Tx)) (visited : List Cid) (id : Cid) (queue : List Cid)
      → has id visited ≡ true
      → IsWalking get_set get_tx ids root seen visited (id ∷ queue)
      → IsWalking get_set get_tx ids root seen visited queue
  again seen visited id queue old w = record {
    done = λ v h.
        let d = w.done v h in
        record {
          set = d.set;
          got = d.got;
          seen_tx = d.seen_tx;
          children_done = λ k child. settled visited id queue k old (d.children_done k child);
        };
    from_root = settled visited id queue root old w.from_root;
    to_come = λ q h. w.to_come q (inr h);
    inside = w.inside;
    distinct = w.distinct;
  }

  -- a new one is visited
  visited_now :
      (seen seen' : List (TxId × Tx)) (visited : List Cid) (id : Cid) (queue : List Cid)
      (set : TxSet)
      → get_set id ≡ ok set
      → IsVisit get_set get_tx ids set seen seen'
      → IsWalking get_set get_tx ids root seen visited (id ∷ queue)
      → IsWalking get_set get_tx ids root seen' (id ∷ visited) (queue ++ set.children)
  visited_now seen seen' visited id queue set got new w = record {
    done = λ v h. elim (Bool-cases (id == v)) [
      | inl same ↦
          subst (IsDone get_set get_tx seen' (id ∷ visited) (queue ++ set.children))
            (eq_of_beq id v same)
            (record {
              set = set;
              got = got;
              seen_tx = new.own_tx;
              children_done = λ k child. inr (In-append_right k queue set.children child);
            })
      | inr other ↦
          let before : has v visited ≡ true = rw other at h in
          let d = w.done v before in
          record {
            set = d.set;
            got = d.got;
            seen_tx = new.kept d.set.tx d.seen_tx;
            children_done =
                λ k child. moved_on visited id queue set.children k (d.children_done k child);
          }
    ];
    from_root = moved_on visited id queue set.children root w.from_root;
    to_come = λ q h. elim (In-append q queue set.children h) [
      | inl later ↦ w.to_come q (inr later)
      | inr child ↦ new.next q child
    ];
    inside = new.inside;
    distinct = new.distinct;
  }

  -- With enough fuel the walk ends with every set of the tree visited.
  walk-IsWalking :
      (fuel : ℕ) (seen : List (TxId × Tx)) (visited queue : List Cid)
      → length ids ≤ max_block_tx_count
      → IsWalking get_set get_tx ids root seen visited queue
      → walk get_set get_tx fuel seen visited queue ≢ err out_of_fuel
      → (r : List (TxId × Tx)) × (walk get_set get_tx fuel seen visited queue ≡ ok r)
        × ((all : List Cid) × IsWalking get_set get_tx ids root r all [])
  unfolding walk
  walk-IsWalking fuel seen visited [] few w ends = (seen, refl, (visited, w))
  walk-IsWalking zero seen visited (id ∷ queue) few w ends = absurd (ends refl)
  walk-IsWalking (suc fuel) seen visited (id ∷ queue) few w ends =
      elim (Bool-cases (has id visited)) [
        | inl old ↦
            let run : walk get_set get_tx (suc fuel) seen visited (id ∷ queue)
                ≡ walk get_set get_tx fuel seen visited queue =
              rw old refl in
            let (r, returned, all) =
              walk-IsWalking fuel seen visited queue few (again seen visited id queue old w)
                (λ p. ends (run ∙ p)) in
            (r, run ∙ returned, all)
        | inr fresh ↦
            let (set, got, which) = set_case get_set get_tx ids id (w.to_come id (inl refl)) in
            let (seen', new) = visit get_set get_tx ids set seen few which w.inside w.distinct in
            let run : walk get_set get_tx (suc fuel) seen visited (id ∷ queue)
                ≡ walk get_set get_tx fuel seen' (id ∷ visited) (queue ++ set.children) =
              rw (fresh, got, new.added) refl in
            let (r, returned, all) =
              walk-IsWalking fuel seen' (id ∷ visited) (queue ++ set.children) few
                (visited_now seen seen' visited id queue set got new w) (λ p. ends (run ∙ p)) in
            (r, run ∙ returned, all)
      ]

  -- every transaction below a visited set was seen
  below :
      (r : List (TxId × Tx)) (all : List Cid) (c : Cid) (xs : List Cid)
      → IsWalking get_set get_tx ids root r all []
      → Spans get_set get_tx c xs
      → has c all ≡ true
      → (x : Cid) → In x xs
      → (t : Tx) × (lookup x r ≡ some t)
  below r all c xs w (leaf_set c' id set t got kids tx has_tx) visited x (inl p) =
      let d = w.done c visited in
      let same : d.set ≡ set = ok-injective (sym d.got ∙ got) in
      subst (λ y. SeenTx get_set get_tx r (some y)) p
        (subst (SeenTx get_set get_tx r) (ap (λ s. s.tx) same ∙ tx) d.seen_tx)
  below r all c xs w (leaf_set c' id set t got kids tx has_tx) visited x (inr h) = absurd h
  below r all c xs w (parent_set c' a b set ys zs got kids tx left right) visited x h =
      let d = w.done c visited in
      let same : d.set ≡ set = ok-injective (sym d.got ∙ got) in
      let reached = λ (k : Cid) (child : In k (a ∷ b ∷ [])).
        d.children_done k (subst (In k) (sym (ap (λ s. s.children) same ∙ kids)) child) in
      elim (In-append x ys zs h) [
        | inl l ↦ elim (reached a (inl refl)) [
          | inl yes_a ↦ below r all a ys w left yes_a x l
          | inr none_left ↦ absurd none_left
        ]
        | inr l ↦ elim (reached b (inr (inl refl))) [
          | inl yes_b ↦ below r all b zs w right yes_b x l
          | inr none_left ↦ absurd none_left
        ]
      ]

  only_inside :
      (r : List (TxId × Tx)) (x : Cid) (t : Tx)
      → All (λ e. In e.0 ids) r
      → lookup x r ≡ some t
      → In x ids
  only_inside [] x t h found = cc
  only_inside ((k, v) ∷ r) x t h found = elim (Bool-cases (k == x)) [
    | inl same ↦ subst (λ y. In y ids) (eq_of_beq k x same) h.0
    | inr other ↦ only_inside r x t h.1 (rw other at found)
  ]

  -- What the walk found are the transactions `ids`, and no others.
  abbrev pub HasExactly : List (TxId × Tx) → Type 0
  HasExactly r = (x : Cid) → ((t : Tx) × (lookup x r ≡ some t)) ↔ In x ids

  pub walk-HasExactly :
      (fuel : ℕ) (xs : List Cid)
      → length ids ≤ max_block_tx_count
      → Spans get_set get_tx root xs
      → SameMembers xs ids
      → walk get_set get_tx fuel [] [] (root ∷ []) ≢ err out_of_fuel
      → (r : List (TxId × Tx)) × (walk get_set get_tx fuel [] [] (root ∷ []) ≡ ok r) × HasExactly r
  walk-HasExactly fuel xs few spans same ends =
      let start : IsWalking get_set get_tx ids root [] [] (root ∷ []) = record {
        done = λ v h. cc;
        from_root = inr (inl refl);
        to_come = λ q h. elim h [
          | inl p ↦ subst (SpansSome get_set get_tx ids) p (xs, spans, (λ x i. (same x).0 i))
          | inr none_left ↦ absurd none_left
        ];
        inside = tt;
        distinct = tt;
      } in
      let (r, returned, (all, w)) = walk-IsWalking fuel [] [] (root ∷ []) few start ends in
      (
        r,
        returned,
        (λ x. (
          (λ (t, found). only_inside r x t w.inside found),
          (λ member. elim w.from_root [
            | inl visited ↦ below r all root xs w spans visited x ((same x).1 member)
            | inr none_left ↦ absurd none_left
          ]),
        )),
      )

-- ===== src/Storage/Tree/Build.antt =====
-- The tree that `NewTxSet` of pkg/storage/chain.go builds, over any store that keeps what it is given.
use didem.Base.{
  ℕ, zero, suc, ◌+◌, ◌*◌, ◌≤◌, ◌<◌, false, List, [], ◌∷◌, ◌++◌, length, ltb, append-nil,
  append_assoc, All, All-map, Result, ok, Exec, ◌>>=◌, pure, ◌≡◌, refl, sym, ap, subst, ◌∙◌, arith,
}
use didem.Tx.{Cid, undef, TxId, Tx}
use didem.Storage.Chain.{TxSet, max_block_tx_count}
use didem.Storage.TxSet.{
  ChainEnv, sort_cids, leaf, parent, store_set, store_leaves, store_parents, reduce, new_tx_set,
}
use didem.Storage.Tree.Members.{SameMembers, SameMembers-append, SameMembers-twice, All-of, of-All}
use didem.Storage.Tree.Sorted.{SameMembers-sort_cids, length-sort_cids}
use didem.Storage.Tree.Spans.{Spans, leaf_set, parent_set}

-- A store of sets and transactions, by what it gives for a CID.
module _ {S : Type 0} (put_set : TxSet → Exec S Cid) (get_set : S → Cid → Result TxSet)
    (get_tx : S → TxId → Result Tx) where
  -- nothing is lost
  pub record Extends (s s' : S) : Type 0 where
    pub sets : (c : Cid) (set : TxSet) → get_set s c ≡ ok set → get_set s' c ≡ ok set
    pub txs : (c : TxId) (t : Tx) → get_tx s c ≡ ok t → get_tx s' c ≡ ok t

  -- What putting a set gives: its CID, under which the set is found.
  pub record IsPut (Holds : S → Type 0) (set : TxSet) (s : S) : Type 0 where
    pub id : Cid
    pub after : S
    pub returned : put_set set s ≡ (ok id, after)
    pub holds : Holds after
    pub found : get_set after id ≡ ok (record set { cid = undef })
    pub extends : Extends s after

  Extends-refl : (s : S) → Extends s s
  Extends-refl s = record { sets = λ c set h. h; txs = λ c t h. h }

  Extends-trans : (r s t : S) → Extends r s → Extends s t → Extends r t
  Extends-trans r s t h k = record {
    sets = λ c set g. k.sets c set (h.sets c set g);
    txs = λ c x g. k.txs c x (h.txs c x g);
  }

  abbrev pub SpansAt : S → Cid → List Cid → Type 0
  SpansAt s c ids = Spans (get_set s) (get_tx s) c ids

  SpansAt-Extends :
      (s s' : S) (c : Cid) (ids : List Cid) → Extends s s' → SpansAt s c ids → SpansAt s' c ids
  SpansAt-Extends s s' c ids e (leaf_set c' id set t got kids tx has_tx) =
      leaf_set c id set t (e.sets c set got) kids tx (e.txs id t has_tx)
  SpansAt-Extends s s' c ids e (parent_set c' a b set xs ys got kids tx left right) =
      parent_set c a b set xs ys (e.sets c set got) kids tx (SpansAt-Extends s s' a xs e left)
        (SpansAt-Extends s s' b ys e right)

  -- a level of the tree, with the transactions below it
  abbrev SpanAll : S → List TxSet → List Cid → Type 0
  SpanAll s [] ids = ids ≡ []
  SpanAll s (n ∷ ns) ids =
      (xs : List Cid) × (ys : List Cid) × SpansAt s n.cid xs × SpanAll s ns ys × (ids ≡ xs ++ ys)

  SpanAll-Extends :
      (s s' : S) (ns : List TxSet) (ids : List Cid)
      → Extends s s'
      → SpanAll s ns ids
      → SpanAll s' ns ids
  SpanAll-Extends s s' [] ids e h = h
  SpanAll-Extends s s' (n ∷ ns) ids e (xs, ys, first, later, split) =
      (xs, ys, SpansAt-Extends s s' n.cid xs e first, SpanAll-Extends s s' ns ys e later, split)

  module _ (Holds : S → Type 0) (puts : (set : TxSet) (s : S) → Holds s → IsPut Holds set s) where
    -- A step of the work: what it returns, in a store that lost nothing.
    pub record Makes {A : Type 0} (P : A → S → Type 0) (m : Exec S A) (s : S) : Type 0 where
      pub value : A
      pub after : S
      pub returned : m s ≡ (ok value, after)
      pub holds : Holds after
      pub extends : Extends s after
      pub made : P value after

    Makes-bind :
        {A C : Type 0} (P : A → S → Type 0) (Q : C → S → Type 0) (m : Exec S A) (f : A → Exec S C)
        (s : S)
        → Makes P m s
        → ((a : A) (t : S) → Holds t → Extends s t → P a t → Makes Q (f a) t)
        → Makes Q (m >>= f) s
    Makes-bind P Q m f s h k =
        let n = k h.value h.after h.holds h.extends h.made in
        record {
          value = n.value;
          after = n.after;
          returned = rw h.returned n.returned;
          holds = n.holds;
          extends = Extends-trans s h.after n.after h.extends n.extends;
          made = n.made;
        }

    Makes-pure :
        {A : Type 0} (P : A → S → Type 0) (a : A) (s : S) → Holds s → P a s → Makes P (pure a) s
    Makes-pure P a s h p = record {
      value = a;
      after = s;
      returned = refl;
      holds = h;
      extends = Extends-refl s;
      made = p;
    }

    still :
        (s u : S) (ids : List Cid)
        → Extends s u
        → All (λ id. (t : Tx) × (get_tx s id ≡ ok t)) ids
        → All (λ id. (t : Tx) × (get_tx u id ≡ ok t)) ids
    still s u ids e known = All-map ids (λ id (t, h). (t, e.txs id t h)) known

    store_set-Makes :
        (set : TxSet) (s : S)
        → Holds s
        → Makes (λ n t. get_set t n.cid ≡ ok (record set { cid = undef })) (store_set put_set set) s
    store_set-Makes set s h =
        let p = puts set s h in
        record {
          value = record set { cid = p.id };
          after = p.after;
          returned = rw p.returned refl;
          holds = p.holds;
          extends = p.extends;
          made = p.found;
        }

    store_leaves-Makes :
        (ids : List Cid) (s : S)
        → Holds s
        → All (λ id. (t : Tx) × (get_tx s id ≡ ok t)) ids
        → Makes (λ ns t. SpanAll t ns ids × (length ns ≡ length ids)) (store_leaves put_set ids) s
    unfolding store_leaves
    store_leaves-Makes [] s h known = Makes-pure _ [] s h (refl, refl)
    store_leaves-Makes (id ∷ ids) s h ((t, known), others) =
        Makes-bind _ _ (store_set put_set (leaf id)) _ s (store_set-Makes (leaf id) s h)
          (λ n u hu eu found.
            Makes-bind _ _ (store_leaves put_set ids) _ u
              (store_leaves-Makes ids u hu (still s u ids eu others))
              (λ ns v hv ev (rest, same). Makes-pure _ (n ∷ ns) v hv (
                (
                  id ∷ [],
                  ids,
                  leaf_set n.cid id (leaf id) t (ev.sets n.cid (leaf id) found) refl refl
                      (ev.txs id t (eu.txs id t known)),
                  rest,
                  refl,
                ),
                ap suc same,
              )))

    -- One level up: trees over the same transactions, half as many, rounded up.
    record IsLevelUp (ids : List Cid) (ns ps : List TxSet) (t : S) : Type 0 where
      pub below : List Cid
      spans : SpanAll t ps below
      pub same : SameMembers below ids
      half : length ps * 2 ≤ length ns + 1
      kept : 0 < length ns → 0 < length ps

    store_parents-Makes :
        (ns : List TxSet) (ids : List Cid) (s : S)
        → Holds s
        → SpanAll s ns ids
        → Makes (IsLevelUp ids ns) (store_parents put_set ns) s
    unfolding store_parents
    store_parents-Makes [] ids s h level = Makes-pure _ [] s h (record {
      below = ids;
      spans = level;
      same = λ c. ((λ i. i), (λ i. i));
      half = ground arith;
      kept = λ p. p;
    })
    store_parents-Makes (a ∷ []) ids s h (xs, ys, first, none_left, split) =
        Makes-bind _ _ (store_set put_set (parent a a)) _ s (store_set-Makes (parent a a) s h)
          (λ n t ht et found.
            let a_spans = SpansAt-Extends s t a.cid xs et first in
            let same_pair : SameMembers ((xs ++ xs) ++ []) (xs ++ ys) =
              SameMembers-append (xs ++ xs) [] xs ys (SameMembers-twice xs)
                (subst (SameMembers []) (sym none_left) (λ c. ((λ i. i), (λ i. i)))) in
            Makes-pure _ (n ∷ []) t ht (record {
              below = (xs ++ xs) ++ [];
              spans = (
                xs ++ xs,
                [],
                parent_set n.cid a.cid a.cid (parent a a) xs xs found refl refl a_spans a_spans,
                refl,
                refl,
              );
              same = subst (SameMembers ((xs ++ xs) ++ [])) (sym split) same_pair;
              half = ground arith;
              kept = λ p. ground arith;
            }))
    store_parents-Makes (a ∷ b ∷ ns) ids s h (xs, ys, fa, (us, vs, fb, rest, split2), split) =
        Makes-bind _ _ (store_set put_set (parent a b)) _ s (store_set-Makes (parent a b) s h)
          (λ n t ht et found.
            Makes-bind _ _ (store_parents put_set ns) _ t
              (store_parents-Makes ns vs t ht (SpanAll-Extends s t ns vs et rest))
              (λ ps u hu eu up.
                let a_spans =
                  SpansAt-Extends t u a.cid xs eu (SpansAt-Extends s t a.cid xs et fa) in
                let b_spans =
                  SpansAt-Extends t u b.cid us eu (SpansAt-Extends s t b.cid us et fb) in
                let joined : SameMembers ((xs ++ us) ++ up.below) ((xs ++ us) ++ vs) =
                  SameMembers-append (xs ++ us) up.below (xs ++ us) vs (λ c. ((λ i. i), (λ i. i)))
                    up.same in
                let whole : (xs ++ us) ++ vs ≡ ids =
                  append_assoc xs us vs ∙ ap (λ l. xs ++ l) (sym split2) ∙ sym split in
                Makes-pure _ (n ∷ ps) u hu (record {
                  below = (xs ++ us) ++ up.below;
                  spans = (
                    xs ++ us,
                    up.below,
                    parent_set n.cid a.cid b.cid (parent a b) xs us
                        (eu.sets n.cid (parent a b) found) refl refl a_spans b_spans,
                    up.spans,
                    refl,
                  );
                  same = subst (SameMembers ((xs ++ us) ++ up.below)) whole joined;
                  half = omega (arith, up.half);
                  kept = λ p. ground arith;
                })))

    -- the root of a tree over the transactions `ids`
    pub record IsRoot (ids : List Cid) (root : TxSet) (t : S) : Type 0 where
      pub below : List Cid
      pub spans : SpansAt t root.cid below
      pub same : SameMembers below ids

    reduce-Makes :
        (fuel : ℕ) (ns : List TxSet) (ids : List Cid) (s : S)
        → length ns ≤ fuel
        → 0 < length ns
        → Holds s
        → SpanAll s ns ids
        → Makes (IsRoot ids) (reduce put_set fuel ns) s
    unfolding reduce
    reduce-Makes fuel [] ids s f full h level = absurd (ground arith)
    reduce-Makes fuel (a ∷ []) ids s f full h (xs, ys, first, none_left, split) =
        Makes-pure _ a s h (record {
          below = xs;
          spans = first;
          same =
              subst (SameMembers xs)
                (sym (append-nil xs) ∙ ap (λ l. xs ++ l) (sym none_left) ∙ sym split)
                (λ c. ((λ i. i), (λ i. i)));
        })
    reduce-Makes zero (a ∷ b ∷ ns) ids s f full h level = absurd (ground arith)
    reduce-Makes (suc fuel) (a ∷ b ∷ ns) ids s f full h level =
        Makes-bind _ _ (store_parents put_set (a ∷ b ∷ ns)) _ s
          (store_parents-Makes (a ∷ b ∷ ns) ids s h level)
          (λ ps t ht et up.
            let next : Makes (IsRoot up.below) (reduce put_set fuel ps) t =
              reduce-Makes fuel ps up.below t (omega (arith, up.half)) (up.kept (ground arith)) ht
                up.spans in
            record {
              value = next.value;
              after = next.after;
              returned = next.returned;
              holds = next.holds;
              extends = next.extends;
              made = record {
                below = next.made.below;
                spans = next.made.spans;
                same = λ c. (
                  (λ i. (up.same c).0 ((next.made.same c).0 i)),
                  (λ i. (next.made.same c).1 ((up.same c).1 i)),
                );
              };
            })

    -- Over a store that keeps what it is given, `NewTxSet` of at least one and at most 1000 known
    -- transactions succeeds, and its tree has those transactions.
    pub new_tx_set-Makes :
        (env : ChainEnv) (ids : List Cid) (s : S)
        → 0 < length ids
        → length ids ≤ max_block_tx_count
        → Holds s
        → All (λ id. (t : Tx) × (get_tx s id ≡ ok t)) ids
        → Makes (IsRoot ids) (new_tx_set put_set env ids) s
    unfolding new_tx_set
    new_tx_set-Makes env ids s full few h known =
        let sorted = sort_cids env.cid_less ids in
        let fits : ltb max_block_tx_count (length ids) ≡ false = ground arith in
        let same = SameMembers-sort_cids env.cid_less ids in
        let len : length sorted ≡ length ids = length-sort_cids env.cid_less ids in
        let known' : All (λ id. (t : Tx) × (get_tx s id ≡ ok t)) sorted =
          All-of _ sorted
            (λ x i. of-All (λ id. (t : Tx) × (get_tx s id ≡ ok t)) ids known x ((same x).0 i)) in
        let work = store_leaves put_set sorted >>= λ nodes. reduce put_set (length nodes) nodes in
        let made : Makes (IsRoot sorted) work s =
          Makes-bind _ _ (store_leaves put_set sorted) _ s (store_leaves-Makes sorted s h known')
            (λ ns t ht et (level, leaves).
              reduce-Makes (length ns) ns sorted t (omega arith) (omega arith) ht level) in
        record {
          value = made.value;
          after = made.after;
          returned = rw fits made.returned;
          holds = made.holds;
          extends = made.extends;
          made = record {
            below = made.made.below;
            spans = made.made.spans;
            same = λ c. (
              (λ i. (same c).0 ((made.made.same c).0 i)),
              (λ i. (made.made.same c).1 ((same c).1 i)),
            );
          };
        }

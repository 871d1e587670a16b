-- ===== src/Storage/TreeLaws.antt =====
-- Lemmas on `NewTxSet` of pkg/storage/chain.go.
use didem.Base.{
  ℕ, zero, suc, ◌+◌, ◌*◌, ◌≤◌, List, [], ◌∷◌, length, Result, ok, err, panic, Exec, out_of_fuel,
  continue, continue-eq-ok, ◌≡◌, ◌≢◌, refl, arith, ltb, Bool-cases, inl, inr,
}
use didem.Tx.{Cid}
use didem.Storage.Chain.{TxSet, max_block_tx_count}
use didem.Storage.TxSet.{
  ChainEnv, store_set, parent, leaf, store_leaves, store_parents, reduce, new_tx_set, sort_cids,
}

module _ {S : Type 0} (put_set : TxSet → Exec S Cid) where
  continue-ne :
      {A B : Type 0} (r : Result A) (f : A → Exec S B) (s : S)
      → r ≢ err out_of_fuel
      → ((a : A) → r ≡ ok a → (f a s).0 ≢ err out_of_fuel)
      → (continue r f s).0 ≢ err out_of_fuel
  continue-ne (ok a) f s h k = k a refl
  continue-ne (err e) f s h k = λ p. h (ground arith)
  continue-ne panic f s h k = λ p. cc

  store_set-ne : (t : TxSet) (s : S) → (store_set put_set t s).0 ≢ err out_of_fuel
  store_set-ne t s = ground arith

  store_leaves-ne : (ids : List Cid) (s : S) → (store_leaves put_set ids s).0 ≢ err out_of_fuel
  unfolding store_leaves
  store_leaves-ne [] s = λ p. cc
  store_leaves-ne (id ∷ ids) s = continue-ne _ _ _ (store_set-ne (leaf id) s) (λ n _.
      continue-ne _ _ _ (store_leaves-ne ids (store_set put_set (leaf id) s).1) (λ ns _ p. cc))

  store_parents-ne : (l : List TxSet) (s : S) → (store_parents put_set l s).0 ≢ err out_of_fuel
  unfolding store_parents
  store_parents-ne [] s = λ p. cc
  store_parents-ne (a ∷ []) s = continue-ne _ _ _ (store_set-ne (parent a a) s) (λ n _ p. cc)
  store_parents-ne (a ∷ b ∷ l) s = continue-ne _ _ _ (store_set-ne (parent a b) s) (λ n _.
      continue-ne _ _ _ (store_parents-ne l (store_set put_set (parent a b) s).1) (λ ns _ p. cc))

  -- a level is half as long as the one below, rounded up
  length-store_parents :
      (l : List TxSet) (s : S) {ps : List TxSet}
      → (store_parents put_set l s).0 ≡ ok ps
      → length ps * 2 ≤ length l + 1
  unfolding store_parents
  length-store_parents [] s h = ground arith
  length-store_parents (a ∷ []) s h =
      let (n, _, e) =
        continue-eq-ok (store_set put_set (parent a a) s).0 _ (store_set put_set (parent a a) s).1
          h in
      ground arith
  length-store_parents (a ∷ b ∷ l) s h =
      let s1 = (store_set put_set (parent a b) s).1 in
      let (n, _, e) = continue-eq-ok (store_set put_set (parent a b) s).0 _ s1 h in
      let (ns, made, e') =
        continue-eq-ok (store_parents put_set l s1).0 _ (store_parents put_set l s1).1 e in
      ground (arith, length-store_parents l s1 made)

  reduce_fuel :
      (fuel : ℕ) (l : List TxSet) (s : S)
      → length l ≤ fuel
      → (reduce put_set fuel l s).0 ≢ err out_of_fuel
  unfolding reduce
  reduce_fuel fuel [] s h = λ p. cc
  reduce_fuel fuel (a ∷ []) s h = λ p. cc
  reduce_fuel zero (a ∷ b ∷ l) s h = λ p. absurd (omega arith)
  reduce_fuel (suc fuel) (a ∷ b ∷ l) s h =
      continue-ne (store_parents put_set (a ∷ b ∷ l) s).0 _ _ (store_parents-ne (a ∷ b ∷ l) s)
        (λ ps made.
          reduce_fuel fuel ps (store_parents put_set (a ∷ b ∷ l) s).1
            (omega (arith, length-store_parents (a ∷ b ∷ l) s made)))

  -- Over any store, building the tree ends: its levels get shorter until one node is left, and the
  -- fuel that the loop is given is never used up.
  pub new_tx_set_ends :
      (env : ChainEnv) (txs : List Cid) (s : S) → (new_tx_set put_set env txs s).0 ≢ err out_of_fuel
  unfolding new_tx_set
  new_tx_set_ends env txs s = elim (Bool-cases (ltb max_block_tx_count (length txs))) [
    | inl big ↦ rw big (λ p. cc)
    | inr fits ↦ rw fits (
        continue-ne (store_leaves put_set (sort_cids env.cid_less txs) s).0 _ _
          (store_leaves-ne _ s)
          (λ ns _.
            reduce_fuel (length ns) ns (store_leaves put_set (sort_cids env.cid_less txs) s).1
              (omega arith)))
  ]

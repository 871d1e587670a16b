-- ===== src/Storage/Validator/TipLaws.antt =====
-- Lemmas on `ApplyFromTip` of pkg/storage/validator.go.
use didem.Base.{
  ℕ, zero, suc, Bool, true, ◌||◌, List, [], ◌∷◌, Result, ok, err, wrapped, then?-eq-ok,
  wrapped-eq-ok, nat_eqb, ok-injective, ◌≡◌, ◌⊎◌, inl, inr, subst, arith, Bool-cases, out_of_fuel,
  ◌≢◌, panic, ◌<◌, then?-ne,
}
use didem.Tx.{undef}
use didem.Storage.Chain.{BlockId, Block}
use didem.Storage.Store.{Store}
use didem.Storage.Validator.{ValidatorEnv, fetch}

module _ {S : Type 0} (st : Store S) (env : ValidatorEnv) (s : S) where
  -- each block is the parent of the one behind it
  abbrev pub IsLinked : List Block → Type 0
  IsLinked [] = Unit
  IsLinked (a ∷ []) = Unit
  IsLinked (a ∷ b ∷ l) = (st.get_block s b.parent ≡ ok a) × IsLinked (b ∷ l)

  abbrev pub StartsAt : BlockId → List Block → Type 0
  StartsAt last [] = ⊥
  StartsAt last (a ∷ l) = (a.id ≡ last) ⊎ (a.id ≡ undef)

  abbrev at_end : BlockId → Block → Bool
  at_end last tip = nat_eqb tip.id last || nat_eqb tip.id undef

  ended :
      (last : BlockId) (tip : Block) (rest : List Block) {blocks : List Block}
      → at_end last tip ≡ true
      → IsLinked (tip ∷ rest)
      → Result.ok (tip ∷ rest) ≡ ok blocks
      → IsLinked blocks × StartsAt last blocks
  ended last tip rest done h e =
      subst (λ l. IsLinked l × StartsAt last l) (ok-injective e) (h, ground arith)

  -- The blocks that are found on the way back from a tip, if the fuel reaches, come oldest first: each
  -- is the parent of the next one, and the first one is the last block applied or has no CID.
  pub fetch-IsLinked :
      (fuel : ℕ) (last : BlockId) (tip : Block) (rest : List Block) {blocks : List Block}
      → IsLinked (tip ∷ rest)
      → fetch st env fuel s last tip (tip ∷ rest) ≡ ok blocks
      → IsLinked blocks × StartsAt last blocks
  unfolding fetch
  fetch-IsLinked zero last tip rest h e = elim (Bool-cases (at_end last tip)) [
    | inl done ↦ ended last tip rest done h (rw done at e)
    | inr more ↦ absurd (ground arith)
  ]
  fetch-IsLinked (suc fuel) last tip rest h e = elim (Bool-cases (at_end last tip)) [
    | inl done ↦ ended last tip rest done h (rw done at e)
    | inr more ↦
        let (b, got, e') = then?-eq-ok (wrapped (st.get_block s tip.parent)) _ (rw more at e) in
        fetch-IsLinked fuel last b (tip ∷ rest) (wrapped-eq-ok _ got, h) e'
  ]

  wrapped-ne : {A : Type 0} (r : Result A) → wrapped r ≢ err out_of_fuel
  wrapped-ne (ok a) h = cc
  wrapped-ne (err e) h = cc
  wrapped-ne panic h = cc

  -- Where the height of every stored block is above its parent's, the way back from a stored tip
  -- ends: fuel above the tip's height is never used up, whatever blocks are missing.
  pub fetch_ends :
      (fuel : ℕ) (last id : BlockId) (tip : Block) (queue : List Block)
      → ((i : BlockId) (b p : Block)
          → st.get_block s i ≡ ok b
          → st.get_block s b.parent ≡ ok p
          → p.height < b.height)
      → st.get_block s id ≡ ok tip
      → tip.height < fuel
      → fetch st env fuel s last tip queue ≢ err out_of_fuel
  unfolding fetch
  fetch_ends zero last id tip queue up stored h e = absurd (omega arith)
  fetch_ends (suc fuel) last id tip queue up stored h e = elim (Bool-cases (at_end last tip)) [
    | inl done ↦ absurd (ground arith)
    | inr more ↦
        then?-ne (wrapped (st.get_block s tip.parent)) _ (wrapped-ne (st.get_block s tip.parent))
          (λ b got.
            fetch_ends fuel last tip.parent b (b ∷ queue) up (wrapped-eq-ok _ got)
              (omega (arith, up id tip b stored (wrapped-eq-ok _ got))))
          (rw more at e)
  ]

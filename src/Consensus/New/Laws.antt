-- ===== src/Consensus/New/Laws.antt =====
-- What a new engine starts from.
use didem.Base.{
  true, false, Option, none, some, List, Result, ok, err, panic, wrapped, then?-eq-ok,
  wrapped-eq-ok, ok-injective, ◌≡◌, ◌⊎◌, inl, inr, refl, subst, arith, Bool-cases,
}
use didem.Storage.Chain.{Block, GenesisInfo}
use didem.Storage.Store.{Store}
use didem.Consensus.Msg.{PeerId}
use didem.Consensus.State.{State, zero_state}
use didem.Consensus.Engine.{Engine}
use didem.Consensus.Events.{IsNew}
use didem.Consensus.New.{
  EngineOption, set_options, no_settings, restore, with_genesis_applied, started, over_store,
  new_consensus,
}

-- The chain's state stands at its last block, or is blank where there is none.
abbrev pub IsAtLast : Option Block → State → Type 0
IsAtLast none s = s ≡ zero_state
IsAtLast (some b) s =
    (s.block_ ≡ b.id)
    × (s.parent_block ≡ b.parent)
    × (s.height ≡ b.height)
    × (s.round ≡ 0)
    × (s.proposer ≡ "")

restore-IsAtLast : (last : Option Block) → IsAtLast last (restore last)
unfolding restore
restore-IsAtLast none = refl
restore-IsAtLast (some b) = (refl, refl, refl, refl, refl)

module _ {S : Type 0} (st : Store S) where
  -- A genesis is applied to the store of the options exactly where that one says that it has none.
  abbrev pub HasGenesis : Option GenesisInfo → S → S → Type 0
  HasGenesis none s s' = s' ≡ s
  HasGenesis (some g) s s' =
      ((st.has_genesis_applied s ≡ true) × (s' ≡ s))
      ⊎ ((st.has_genesis_applied s ≡ false) × (st.apply_genesis g s ≡ (ok tt, s')))

  applied-HasGenesis :
      (g : GenesisInfo) (s : S) (r : Result Unit)
      → (st.apply_genesis g s).0 ≡ r
      → wrapped r ≡ ok tt
      → st.apply_genesis g s ≡ (ok tt, (st.apply_genesis g s).1)
  applied-HasGenesis g s (ok _) q h = ground (arith, q)
  applied-HasGenesis g s (err _) q h = cc
  applied-HasGenesis g s panic q h = cc

  with_genesis_applied-HasGenesis :
      (g : Option GenesisInfo) (s : S)
      → (with_genesis_applied st g s).0 ≡ ok tt
      → HasGenesis g s (with_genesis_applied st g s).1
  unfolding with_genesis_applied
  with_genesis_applied-HasGenesis none s h = refl
  with_genesis_applied-HasGenesis (some g) s h = elim (Bool-cases (st.has_genesis_applied s)) [
    | inl old ↦ inl (old, rw old refl)
    | inr new ↦ inr (new, rw new (applied-HasGenesis g s _ refl (rw new at h)))
  ]

module _ {S M : Type 0} (st : Store S) where
  -- No round has begun, the store is the one of the options, its genesis applied, and the chain's
  -- state stands at the last block that it has applied.
  pub record IsRestored (opts : List (EngineOption S)) (e : Engine S M) : Type 0 where
    pub idle : IsNew e
    pub store : S
    pub given : (set_options opts no_settings).store ≡ some store
    pub genesis : HasGenesis st (set_options opts no_settings).genesis store e.store
    pub last : Option Block
    pub applied : st.get_last_applied e.store ≡ ok last
    pub state : IsAtLast last e.state

  started-IsRestored :
      (id : PeerId) (pool : M) (opts : List (EngineOption S)) (s : S) {e : Engine S M}
      → (set_options opts no_settings).store ≡ some s
      → started st id pool
          (set_options opts no_settings)
          (with_genesis_applied st (set_options opts no_settings).genesis s)
        ≡ ok e
      → IsRestored opts e
  started-IsRestored id pool opts s q h =
      let c = set_options opts no_settings in
      let p = with_genesis_applied st c.genesis s in
      let (_, fine, h1) = then?-eq-ok p.0 _ h in
      let (last, got, h2) = then?-eq-ok (wrapped (st.get_last_applied p.1)) _ h1 in
      subst (IsRestored opts) (ok-injective h2) (record {
        idle = (refl, refl, refl);
        store = s;
        given = q;
        genesis = with_genesis_applied-HasGenesis st c.genesis s fine;
        last = last;
        applied = wrapped-eq-ok _ got;
        state = restore-IsAtLast last;
      })

  over_store-IsRestored :
      (id : PeerId) (pool : M) (opts : List (EngineOption S)) (o : Option S) {e : Engine S M}
      → (set_options opts no_settings).store ≡ o
      → over_store st id pool (set_options opts no_settings) o ≡ ok e
      → IsRestored opts e
  over_store-IsRestored id pool opts none q h = cc
  over_store-IsRestored id pool opts (some s) q h = started-IsRestored id pool opts s q h

  -- An engine that `NewConsensus` gives, with any options, is one that no round has begun in, with
  -- every timer stopped. Its store is the one of the options, with their genesis applied to it without
  -- an error exactly where the store says that it has none yet. The chain's state has the identifier,
  -- the parent and the height of the last block that this store has applied, in round 0 with no
  -- proposer, and is blank where the store has none.
  pub new_consensus-IsRestored :
      (id : PeerId) (pool : M) (opts : List (EngineOption S)) {e : Engine S M}
      → new_consensus st id pool opts ≡ ok e
      → IsRestored opts e
  unfolding new_consensus
  new_consensus-IsRestored id pool opts h =
      over_store-IsRestored id pool opts (set_options opts no_settings).store refl h

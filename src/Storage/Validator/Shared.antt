-- ===== src/Storage/Validator/Shared.antt =====
-- `IsBlockValid` of pkg/storage/validator.go with its in-memory stores at addresses, as Go has them: the
-- validator points to one, and `StartTest` of memstore.go makes another one beside it.
pub mod Isolated
use didem.Base.{
  ℕ, zero, suc, ◌≤◌, ◌<◌, Bool, false, Option, none, some, List, [], ◌∷◌, ◌++◌, length, get_elem?,
  set, length-set, length-append, get_elem?-set_same, get_elem?-set_other, get_elem?-append,
  get_elem?-append_last, lt_of_get_elem?, Result, ok, err, panic, Exec, ◌>>=◌, continue, wrapped,
  ◌≡◌, ◌≢◌, refl, sym, ap, ◌∙◌, arith, Result-cases, inl, inr,
}
use didem.Tx.{undef, TxId, Tx}
use didem.Storage.Chain.{Block, unvalidated}
use didem.Storage.Codec.{Codec}
use didem.Storage.MemStore.{MemStore, start_test, complete_test}
use didem.Storage.MemStore.Walk.{all_tx}
use didem.Storage.MemStore.Apply.{mark_block}
use didem.Storage.MemStore.Impl.{mem_store}
use didem.Storage.TxSet.{wrapped_exec}
use didem.Storage.Validator.{ValidatorEnv, try_block, trial, finish_trial, deferred, is_block_valid}
use didem.Storage.Validator.BlockLaws.{marked_unvalidated, mark_unvalidated}

-- the stores by their addresses
abbrev pub Stores : Type 0
Stores = List MemStore

-- a method of the store at an address
abbrev pub on : {A : Type 0} → ℕ → Exec MemStore A → Exec Stores A
on p f h = elim (get_elem? h p) [
  | none ↦ (panic, h)
  | some m ↦ let (r, m') = f m in (r, set h p m')
]

-- `StartTest`: the new store with the copies stands at a new address.
unfoldable pub start_test_at : ℕ → Exec Stores ℕ
start_test_at p h = elim (get_elem? h p) [
  | none ↦ (panic, h)
  | some m ↦ continue (start_test m) (λ t h'. (ok (length h'), h' ++ (t ∷ []))) h
]

module _ (c : Codec) (env : ValidatorEnv) (b : Block) (is_new : Bool) where
  -- the loop, and the deferred function: `v.s` points to the first store again
  abbrev pub try_at : ℕ → List (TxId × Tx) → ℕ → Exec Stores Unit
  try_at p txs t h =
      let (r, h') = on t (try_block (mem_store c) env b is_new txs) h in
      let (done, h'') = on p complete_test h' in (deferred r done, h'')

  -- `IsBlockValid`, for a validator that points to `p`
  unfoldable pub is_block_valid_at : ℕ → Exec Stores Unit
  unfolding start_test_at
  is_block_valid_at p = wrapped_exec (on p (mark_block c b.id unvalidated)) >>= λ _.
      wrapped_exec (on p (λ m. (all_tx c m b, m))) >>= λ txs.
      wrapped_exec (start_test_at p) >>= λ t. try_at p txs t

-- From `h` to `h'` the store at `p` has become `m`, and the others of `h` have stayed.
pub record Became (p : ℕ) (m : MemStore) (h h' : Stores) : Type 0 where
  pub at : get_elem? h' p ≡ some m
  pub others : (q : ℕ) → q < length h → q ≢ p → get_elem? h' q ≡ get_elem? h q
  pub no_fewer : length h ≤ length h'

pub on-result :
    {A : Type 0} (p : ℕ) (f : Exec MemStore A) (h : Stores) {m : MemStore}
    → get_elem? h p ≡ some m
    → on p f h ≡ ((f m).0, set h p (f m).1)
on-result p f h g = rw (on, g) refl

pub Became-on :
    {A : Type 0} (p : ℕ) (f : Exec MemStore A) (h h' : Stores) (m : MemStore)
    → Became p m h h'
    → Became p (f m).1 h (on p f h').1
Became-on p f h h' m b = rw (on-result p f h' b.at) (record {
  at = get_elem?-set_same h' p (f m).1 b.at;
  others = λ q l n. get_elem?-set_other h' p q (f m).1 n ∙ b.others q l n;
  no_fewer = rw (length-set h' p (f m).1) b.no_fewer;
})

-- Work on a store that is none of those of `h` leaves all of them as they are.
pub Became-other :
    {A : Type 0} (p t : ℕ) (f : Exec MemStore A) (h h' : Stores) (m x : MemStore)
    → Became p m h h'
    → get_elem? h' t ≡ some x
    → p ≢ t
    → length h ≤ t
    → Became p m h (on t f h').1
Became-other p t f h h' m x b g n new = rw (on-result t f h' g) (record {
  at = get_elem?-set_other h' t p (f x).1 n ∙ b.at;
  others = λ q l k.
      get_elem?-set_other h' t q (f x).1 (λ e. let l' = l in omega (arith, e)) ∙ b.others q l k;
  no_fewer = rw (length-set h' t (f x).1) b.no_fewer;
})

pub Became-append :
    (p : ℕ) (h h' : Stores) (m x : MemStore) → Became p m h h' → Became p m h (h' ++ (x ∷ []))
Became-append p h h' m x b = record {
  at = get_elem?-append h' p x (lt_of_get_elem? h' p b.at) ∙ b.at;
  others = λ q l n. get_elem?-append h' q x (let k = b.no_fewer in omega arith) ∙ b.others q l n;
  no_fewer = let k = b.no_fewer in rw length-append (omega arith);
}

-- ===== src/Storage/Validator/Shared/Isolated.antt =====
-- What `IsBlockValid` of pkg/storage/validator.go does to the stores around it.
use didem.Base.{
  ℕ, ◌≤◌, ◌<◌, Bool, false, some, List, [], ◌∷◌, ◌++◌, length, get_elem?, set, length-set,
  get_elem?-set_same, get_elem?-set_other, get_elem?-append_last, lt_of_get_elem?, Result, ok,
  ◌>>=◌, continue, wrapped, insert, nat_eq, ◌≡◌, ◌≢◌, refl, ◌∙◌, arith, Result-cases, inl, inr,
}
use didem.Tx.{undef, TxId, Tx}
use didem.Storage.Chain.{Block, unvalidated}
use didem.Storage.Codec.{Codec}
use didem.Storage.MemStore.{MemStore, start_test, complete_test}
use didem.Storage.MemStore.Walk.{all_tx}
use didem.Storage.MemStore.Apply.{mark_block}
use didem.Storage.MemStore.Impl.{mem_store}
use didem.Storage.TxSet.{wrapped_exec}
use didem.Storage.Validator.{ValidatorEnv, try_block, trial, finish_trial, is_block_valid}
use didem.Storage.Validator.BlockLaws.{marked_unvalidated, mark_unvalidated}
use didem.Storage.Validator.Shared.{
  Stores, on, start_test_at, try_at, is_block_valid_at, Became, on-result, Became-on, Became-other,
  Became-append,
}

module _ (c : Codec) (env : ValidatorEnv) (b : Block) (is_new : Bool) (p : ℕ) (m : MemStore) where
  abbrev marked : MemStore
  marked = marked_unvalidated c env b is_new m

  abbrev copied : MemStore
  copied = record marked { last_block = undef; genesis_applied = false }

  -- an outcome with this result, which has changed the block's state in the store at `p` only
  record IsOutcome (h : Stores) (r : Result Unit) (o : Result Unit × Stores) : Type 0 where
    result : o.0 ≡ r
    became : Became p marked h o.1

  start_test_at-new :
      (h : Stores)
      → get_elem? h p ≡ some marked
      → start_test_at p h ≡ (ok (length h), h ++ (copied ∷ []))
  unfolding start_test_at start_test
  start_test_at-new h g = rw (start_test_at, g) refl

  try_at-IsOutcome :
      (h h' : Stores) (t : ℕ) (txs : List (TxId × Tx))
      → Became p marked h h'
      → get_elem? h' t ≡ some copied
      → p ≢ t
      → length h ≤ t
      → IsOutcome h (trial (mem_store c) env b is_new txs copied) (try_at c env b is_new p txs t h')
  unfolding trial complete_test
  try_at-IsOutcome h h' t txs bc g n new =
      let work = try_block (mem_store c) env b is_new txs in
      let h4 = (on t work h').1 in
      let b4 = Became-other p t work h h' marked copied bc g n new in
      record {
        result = rw (on-result t work h' g) (
            rw
              (on-result p complete_test (set h' t (work copied).1)
                (get_elem?-set_other h' t p (work copied).1 n ∙ bc.at))
              refl);
        became = Became-on p complete_test h h4 marked b4;
      }

  -- the addresses behind the marking and the look at the block's transactions
  abbrev seen : Stores → Stores
  seen h = set (set h p marked) p marked

  seen-Became : (h : Stores) → get_elem? h p ≡ some m → Became p marked h (seen h)
  seen-Became h g =
      let g1 = get_elem?-set_same h p marked g in
      record {
        at = get_elem?-set_same (set h p marked) p marked g1;
        others = λ q l n.
            get_elem?-set_other (set h p marked) p q marked n ∙ get_elem?-set_other h p q marked n;
        no_fewer = rw (length-set (set h p marked) p marked, length-set h p marked) (omega arith);
      }

  run-looked :
      (h : Stores)
      → get_elem? h p ≡ some m
      → is_block_valid_at c env b is_new p h
        ≡ continue
            (wrapped (all_tx c marked b))
            (λ txs. wrapped_exec (start_test_at p) >>= λ t. try_at c env b is_new p txs t)
            (seen h)
  unfolding is_block_valid_at
  run-looked h g =
      rw
        (
          on-result p (mark_block c b.id unvalidated) h g,
          mark_unvalidated c env b is_new m,
          on-result p (λ m'. (all_tx c m' b, m')) (set h p marked)
              (get_elem?-set_same h p marked g),
        )
        refl

  valid_at-IsOutcome :
      (h : Stores)
      → get_elem? h p ≡ some m
      → IsOutcome h
          (is_block_valid (mem_store c) env b is_new m).0
          (is_block_valid_at c env b is_new p h)
  unfolding is_block_valid finish_trial complete_test start_test
  valid_at-IsOutcome h g =
      let run = run-looked h g in
      let mark = mark_unvalidated c env b is_new m in
      let bc = seen-Became h g in
      elim (Result-cases (all_tx c marked b)) [
        | inl (txs, q) ↦
            let lt = lt_of_get_elem? (seen h) p bc.at in
            let o =
              try_at-IsOutcome h (seen h ++ (copied ∷ [])) (length (seen h)) txs
                (Became-append p h (seen h) marked copied bc)
                (get_elem?-append_last (seen h) copied) (λ e. omega (arith, e, lt)) bc.no_fewer in
            rw (run, q, start_test_at-new (seen h) bc.at)
              (record { result = o.result ∙ ground (arith, mark, q); became = o.became })
        | inr (inl (e, q)) ↦ rw (run, q) (record { result = ground (arith, mark, q); became = bc })
        | inr (inr q) ↦ rw (run, q) (record { result = ground (arith, mark, q); became = bc })
      ]

  pub is_block_valid_at-isolated :
      (h : Stores) (q : ℕ)
      → get_elem? h p ≡ some m
      → q < length h
      → q ≢ p
      → ((is_block_valid_at c env b is_new p h).0 ≡ (is_block_valid (mem_store c) env b is_new m).0)
        × (get_elem? (is_block_valid_at c env b is_new p h).1 p
            ≡ some (record m { b_state = insert b.id unvalidated m.b_state }))
        × (get_elem? (is_block_valid_at c env b is_new p h).1 q ≡ get_elem? h q)
  is_block_valid_at-isolated h q g l n =
      let o = valid_at-IsOutcome h g in (o.result, o.became.at, o.became.others q l n)

-- ===== src/Ipfs/HistoryLaws.antt =====
-- Lemmas on `DIDHistory` of internal/storage/ipfs.go.
use didem.Base.{
  never_returns, err, ◌then?◌, true, false, ◌-◌, length, then?-eq-ok, ap, ◌∙◌, sym, subst,
  append-nil, append_assoc, ok-injective, ℕ, zero, suc, ◌<◌, ◌≤◌, List, [], ◌∷◌, ◌++◌, String,
  Result, ok, panic, ◌≡◌, ◌≢◌, refl, arith, Result-cases, inl, inr,
}
use didem.Tx.{Cid, Tx}
use didem.Ipfs.{IpfsEnv, IpfsStorage}
use didem.Ipfs.Objects.{get_tx}
use didem.Ipfs.Workers.{
  Workers, start_workers, takes, fetches, fails, returns, WorkerRun, next, failures, never_returned,
}
use didem.Ipfs.History.{all_tx_n_workers, run_workers, cast_values, history_entries, did_history}

-- what can be fetched, in order
abbrev pub fetched : (Cid → Result Tx) → List Cid → List Tx
fetched get [] = []
fetched get (c ∷ cs) = elim (get c) [ ok t ↦ t ∷ fetched get cs | _ ↦ fetched get cs ]

run_workers-fetched :
    (get : Cid → Result Tx) (n : ℕ) (cs : List Cid)
    → ((c : Cid) → get c ≢ panic)
    → failures get cs < n
    → run_workers get n cs ≡ ok (fetched get cs)
unfolding run_workers
run_workers-fetched get n [] fine h = refl
run_workers-fetched get zero (c ∷ cs) fine h = absurd (omega arith)
run_workers-fetched get (suc n) (c ∷ cs) fine h = elim (Result-cases (get c)) [
  | inl (t, q) ↦
      rw (run_workers, fetched, q, run_workers-fetched get (suc n) cs fine (rw (failures, q) at h))
        refl
  | inr (inl (e, q)) ↦
      let h' : suc (failures get cs) < suc n = (rw (failures, q) at h) in
      rw (run_workers, fetched, q, run_workers-fetched get n cs fine (omega arith)) refl
  | inr (inr q) ↦ absurd (fine c q)
]

-- What `run_workers` gives is what one of the interleavings returns: the one in which every fetch ends
-- before the next one begins.
pub run_workers-returns :
    (get : Cid → Result Tx) (n : ℕ) (cs : List Cid) (ts : List Tx) (r s : Workers)
    → WorkerRun get r s
    → s.waiting ≡ cs
    → s.free ≡ n
    → s.left ≡ length cs
    → run_workers get n cs ≡ ok ts
    → (t : Workers) × WorkerRun get r t × (t.returned ≡ true) × (t.txs ≡ s.txs ++ ts)
unfolding run_workers
run_workers-returns get n [] ts r s run w f l h = (
  record s { returned = true },
  next run (returns l refl),
  refl,
  sym (append-nil s.txs) ∙ ap (λ l. s.txs ++ l) (ok-injective h),
)
run_workers-returns get zero (c ∷ cs) ts r s run w f l h = cc
run_workers-returns get (suc n) (c ∷ cs) ts r s run w f l h =
    let u = record s { waiting = cs; free = n; busy = c ∷ s.busy } in
    let taken = next run (takes c cs n w f refl) in
    elim (Result-cases (get c)) [
      | inl (t, q) ↦
          let v = record u {
            busy = s.busy;
            free = suc n;
            left = s.left - 1;
            txs = s.txs ++ (t ∷ []);
          } in
          let (rest, got, all) =
            then?-eq-ok (run_workers get (suc n) cs) _ (rw (run_workers, q) at h) in
          let (z, done, back, txs) =
            run_workers-returns get (suc n) cs rest r v
              (next taken (fetches [] s.busy c t refl q refl)) refl refl (omega arith) got in
          (
            z,
            done,
            back,
            txs ∙ append_assoc s.txs (t ∷ []) rest ∙ ap (λ l. s.txs ++ l) (ok-injective all),
          )
      | inr (inl (e, q)) ↦
          let v = record u { busy = s.busy; stuck = suc s.stuck; left = s.left - 1 } in
          run_workers-returns get n cs ts r v (next taken (fails [] s.busy c e refl q refl)) refl
            refl (omega arith) (rw (run_workers, q) at h)
      | inr (inr q) ↦ let bad : panic ≡ ok ts = rw (run_workers, q) at h in cc
    ]

-- as many failures as workers, in front of a CID
record IsLost (get : Cid → Result Tx) (n : ℕ) (cs : List Cid) : Type 0 where
  before : List Cid
  left_over : Cid
  later : List Cid
  order : cs ≡ before ++ (left_over ∷ later)
  failing : n ≤ failures get before

rest-never :
    (r : Result (List Tx)) (t : Tx)
    → (r then? λ ts. ok (t ∷ ts)) ≡ err never_returns
    → r ≡ err never_returns
rest-never (ok ts) t h = cc
rest-never (err e) t h = h
rest-never panic t h = cc

run_workers-IsLost :
    (get : Cid → Result Tx) (n : ℕ) (cs : List Cid)
    → run_workers get n cs ≡ err never_returns
    → IsLost get n cs
unfolding run_workers
run_workers-IsLost get n [] h = cc
run_workers-IsLost get zero (c ∷ cs) h = record {
  before = [];
  left_over = c;
  later = cs;
  order = refl;
  failing = omega arith;
}
run_workers-IsLost get (suc n) (c ∷ cs) h = elim (Result-cases (get c)) [
  | inl (t, q) ↦
      let r =
        run_workers-IsLost get (suc n) cs
          (rest-never (run_workers get (suc n) cs) t (rw (run_workers, q) at h)) in
      record {
        before = c ∷ r.before;
        left_over = r.left_over;
        later = r.later;
        order = ap (λ l. c ∷ l) r.order;
        failing = rw (failures, q) r.failing;
      }
  | inr (inl (e, q)) ↦
      let r = run_workers-IsLost get n cs (rw (run_workers, q) at h) in
      let k = r.failing in
      record {
        before = c ∷ r.before;
        left_over = r.left_over;
        later = r.later;
        order = ap (λ l. c ∷ l) r.order;
        failing = rw (failures, q) (omega arith);
      }
  | inr (inr q) ↦ let bad : panic ≡ err never_returns = rw (run_workers, q) at h in cc
]

-- Where `run_workers` never returns, no interleaving does.
pub run_workers-never_returned :
    (get : Cid → Result Tx) (n : ℕ) (cs : List Cid) (t : Workers)
    → run_workers get n cs ≡ err never_returns
    → WorkerRun get (start_workers n cs) t
    → t.returned ≡ false
run_workers-never_returned get n cs t h run =
    let l = run_workers-IsLost get n cs h in
    never_returned get n l.left_over l.later l.before t l.failing
      (subst (λ k. WorkerRun get (start_workers n k) t) l.order run)

module _ {I D B : Type 0} (env : IpfsEnv I D B) (s : IpfsStorage I D B) where
  -- the CIDs in the order of the channel
  abbrev pub in_channel : List Cid
  in_channel = env.cids.key_order (cast_values env (history_entries env s))

  -- Where fewer than three of the fetches fail, and none panics, the history of any DID is every
  -- transaction that can be fetched of the entries of all DIDs, whichever DID was asked for.
  pub did_history-fetched :
      (id : String)
      → ((c : Cid) → get_tx env s c ≢ panic)
      → failures (get_tx env s) in_channel < 3
      → did_history env s id ≡ ok (env.cids.arrival (fetched (get_tx env s) in_channel))
  unfolding did_history
  did_history-fetched id fine h = rw (run_workers-fetched (get_tx env s) 3 in_channel fine h) refl

  -- Where three of the fetches fail in front of a CID of the channel, the call never returns, in
  -- whatever order the three workers take the CIDs and end their fetches.
  pub did_history-blocked :
      (cs later : List Cid) (c : Cid) (t : Workers)
      → in_channel ≡ cs ++ (c ∷ later)
      → 3 ≤ failures (get_tx env s) cs
      → WorkerRun (get_tx env s) (start_workers all_tx_n_workers in_channel) t
      → t.returned ≡ false
  did_history-blocked cs later c t order h run =
      never_returned (get_tx env s) 3 c later cs t h
        (subst (λ l. WorkerRun (get_tx env s) (start_workers all_tx_n_workers l) t) order run)

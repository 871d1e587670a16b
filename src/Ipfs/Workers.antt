-- ===== src/Ipfs/Workers.antt =====
-- The goroutines of `DIDHistory` of internal/storage/ipfs.go, one step at a time: the channel of CIDs,
-- the wait group, and the workers. `errC` is a nil channel: sending on it blocks a worker for ever, and
-- the `select` never receives from it.
use didem.Base.{
  ℕ, suc, ◌+◌, ◌-◌, ◌≤◌, Bool, true, false, List, [], ◌∷◌, ◌++◌, length, Result, ok, err, Error,
  ◌≡◌, refl, sym, subst, ap, ◌∙◌, arith,
}
use didem.Tx.{Cid, Tx}

-- What the goroutines share: `waiting` is what no worker has taken of the channel, `free` counts the
-- workers at the channel, `busy` are the CIDs that workers are fetching, `stuck` counts the workers that
-- send on the nil channel, and `left` is the counter of the wait group.
pub record Workers : Type 0 where
  pub waiting : List Cid
  pub free : ℕ
  pub busy : List Cid
  pub stuck : ℕ
  pub left : ℕ
  pub txs : List Tx
  pub returned : Bool

unfoldable pub start_workers : ℕ → List Cid → Workers
start_workers n cids = record {
  waiting = cids;
  free = n;
  busy = [];
  stuck = 0;
  left = length cids;
  txs = [];
  returned = false;
}

-- A worker takes a CID, or ends a fetch, with `wg.Done` either way; behind a failure it is stuck. The
-- call returns when the wait group is empty. A panic ends the process.
pub data WorkerStep (get : Cid → Result Tx) (s t : Workers) : Type 0 where
  takes :
      (c : Cid) (rest : List Cid) (n : ℕ)
      → s.waiting ≡ c ∷ rest
      → s.free ≡ suc n
      → t ≡ record s { waiting = rest; free = n; busy = c ∷ s.busy }
      → WorkerStep get s t
  fetches :
      (xs ys : List Cid) (c : Cid) (x : Tx)
      → s.busy ≡ xs ++ (c ∷ ys)
      → get c ≡ ok x
      → t ≡ record s {
        busy = xs ++ ys;
        free = suc s.free;
        left = s.left - 1;
        txs = s.txs ++ (x ∷ []);
      }
      → WorkerStep get s t
  fails :
      (xs ys : List Cid) (c : Cid) (e : Error)
      → s.busy ≡ xs ++ (c ∷ ys)
      → get c ≡ err e
      → t ≡ record s { busy = xs ++ ys; stuck = suc s.stuck; left = s.left - 1 }
      → WorkerStep get s t
  returns : s.left ≡ 0 → t ≡ record s { returned = true } → WorkerStep get s t

-- any interleaving of the goroutines
pub data WorkerRun (get : Cid → Result Tx) (s : Workers) : Workers → Type 0 where
  starts : WorkerRun get s s
  next : {t u : Workers} → WorkerRun get s t → WorkerStep get t u → WorkerRun get s u

-- how many fetches fail
abbrev pub failures : (Cid → Result Tx) → List Cid → ℕ
failures get [] = 0
failures get (c ∷ cs) = elim (get c) [ ok t ↦ failures get cs | _ ↦ suc (failures get cs) ]

module _ (get : Cid → Result Tx) where
  failures-le : (xs : List Cid) → failures get xs ≤ length xs
  failures-le [] = omega arith
  failures-le (c ∷ xs) = ground (arith, failures-le xs)

  length-ended : (xs ys : List Cid) (c : Cid) → length (xs ++ (c ∷ ys)) ≡ suc (length (xs ++ ys))
  length-ended [] ys c = refl
  length-ended (x ∷ xs) ys c = ap suc (length-ended xs ys c)

  failures-fetched :
      (xs ys : List Cid) (c : Cid) (x : Tx)
      → get c ≡ ok x
      → failures get (xs ++ (c ∷ ys)) ≡ failures get (xs ++ ys)
  failures-fetched [] ys c x h = rw (failures, h) refl
  failures-fetched (a ∷ xs) ys c x h = ground (arith, failures-fetched xs ys c x h)

  failures-failed :
      (xs ys : List Cid) (c : Cid) (e : Error)
      → get c ≡ err e
      → failures get (xs ++ (c ∷ ys)) ≡ suc (failures get (xs ++ ys))
  failures-failed [] ys c e h = rw (failures, h) refl
  failures-failed (a ∷ xs) ys c e h = ground (arith, failures-failed xs ys c e h)

  -- As many failures as there are workers come before `c`, which so is never taken.
  record IsBlocked (n : ℕ) (c : Cid) (later : List Cid) (s : Workers) : Type 0 where
    workers : s.stuck + s.free + length s.busy ≡ n
    counter : s.left ≡ length s.waiting + length s.busy
    before : List Cid
    order : s.waiting ≡ before ++ (c ∷ later)
    failing : n ≤ s.stuck + failures get s.busy + failures get before
    running : s.returned ≡ false

  module _ (n : ℕ) (c : Cid) (later : List Cid) where
    takes-IsBlocked :
        (s : Workers) (a : Cid) (rest before : List Cid) (m : ℕ)
        → IsBlocked n c later s
        → s.waiting ≡ a ∷ rest
        → s.free ≡ suc m
        → s.waiting ≡ before ++ (c ∷ later)
        → n ≤ s.stuck + failures get s.busy + failures get before
        → IsBlocked n c later (record s { waiting = rest; free = m; busy = a ∷ s.busy })
    takes-IsBlocked s a rest [] m h w f o g =
        let fewer = failures-le s.busy in let all = h.workers in absurd (omega (arith, f))
    takes-IsBlocked s a rest (b ∷ before) m h w f o g =
        let q : a ∷ rest ≡ b ∷ (before ++ (c ∷ later)) = sym w ∙ o in
        let same : a ≡ b = cc in
        let all = h.workers in
        let left = h.counter in
        let size = ap length w in
        record {
          workers = omega (arith, f);
          counter = omega arith;
          before = before;
          order = cc;
          failing = ground (arith, same);
          running = h.running;
        }

    fetches-IsBlocked :
        (s : Workers) (xs ys : List Cid) (a : Cid) (x : Tx)
        → IsBlocked n c later s
        → s.busy ≡ xs ++ (a ∷ ys)
        → get a ≡ ok x
        → IsBlocked n c later (record s {
          busy = xs ++ ys;
          free = suc s.free;
          left = s.left - 1;
          txs = s.txs ++ (x ∷ []);
        })
    fetches-IsBlocked s xs ys a x h b g =
        let size = ap length b ∙ length-ended xs ys a in
        let count = ap (failures get) b ∙ failures-fetched xs ys a x g in
        let all = h.workers in
        let left = h.counter in
        let lost = h.failing in
        record {
          workers = omega arith;
          counter = omega arith;
          before = h.before;
          order = h.order;
          failing = omega arith;
          running = h.running;
        }

    fails-IsBlocked :
        (s : Workers) (xs ys : List Cid) (a : Cid) (e : Error)
        → IsBlocked n c later s
        → s.busy ≡ xs ++ (a ∷ ys)
        → get a ≡ err e
        → IsBlocked n c later (record s { busy = xs ++ ys; stuck = suc s.stuck; left = s.left - 1 })
    fails-IsBlocked s xs ys a e h b g =
        let size = ap length b ∙ length-ended xs ys a in
        let count = ap (failures get) b ∙ failures-failed xs ys a e g in
        let all = h.workers in
        let left = h.counter in
        let lost = h.failing in
        record {
          workers = omega arith;
          counter = omega arith;
          before = h.before;
          order = h.order;
          failing = omega arith;
          running = h.running;
        }

    left_over : (s : Workers) → IsBlocked n c later s → s.left ≡ 0 → ⊥
    left_over s h z =
        let left = h.counter in
        let size = ap length h.order ∙ length-ended h.before later c in omega arith

    step-IsBlocked :
        {s t : Workers} → WorkerStep get s t → IsBlocked n c later s → IsBlocked n c later t
    step-IsBlocked {s} (takes a rest m w f q) h =
        subst (IsBlocked n c later) (sym q)
          (takes-IsBlocked s a rest h.before m h w f h.order h.failing)
    step-IsBlocked {s} (fetches xs ys a x b g q) h =
        subst (IsBlocked n c later) (sym q) (fetches-IsBlocked s xs ys a x h b g)
    step-IsBlocked {s} (fails xs ys a e b g q) h =
        subst (IsBlocked n c later) (sym q) (fails-IsBlocked s xs ys a e h b g)
    step-IsBlocked {s} (returns z q) h = absurd (left_over s h z)

    run-IsBlocked :
        {s t : Workers} → IsBlocked n c later s → WorkerRun get s t → IsBlocked n c later t
    run-IsBlocked h starts = h
    run-IsBlocked h (next r st) = step-IsBlocked st (run-IsBlocked h r)

    -- With as many failures as workers in front of a CID, no interleaving returns.
    pub never_returned :
        (cs : List Cid) (t : Workers)
        → n ≤ failures get cs
        → WorkerRun get (start_workers n (cs ++ (c ∷ later))) t
        → t.returned ≡ false
    unfolding start_workers
    never_returned cs t h r =
        let start : IsBlocked n c later (start_workers n (cs ++ (c ∷ later))) = record {
          workers = omega arith;
          counter = omega arith;
          before = cs;
          order = refl;
          failing = omega (arith, h);
          running = refl;
        } in
        (run-IsBlocked start r).running

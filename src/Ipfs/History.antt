-- ===== src/Ipfs/History.antt =====
-- `DIDHistory` of internal/storage/ipfs.go. Its goroutines are those of Workers; `run_workers` is the
-- run of them in which every fetch ends before the next one begins; HistoryLaws compares it with the others.
use didem.Base.{
  ℕ, zero, suc, ◌+◌, none, some, List, [], ◌∷◌, String, nat_eq, if◌then◌else◌, Result, ok, err,
  panic, ◌then?◌, never_returns,
}
use didem.Tx.{Cid, Bytes, Tx}
use didem.Storage.Tree.{has}
use didem.Ipfs.{IpfsEnv, IpfsStorage, metadata_iter}
use didem.Ipfs.Keys.{did_history as did_history_table, prefix}
use didem.Ipfs.Objects.{get_tx}

-- `allTxNWorkers`
abbrev pub all_tx_n_workers : ℕ
all_tx_n_workers = 3

-- What that run fetches with `n` workers that are not blocked: without one, a CID that is left over is
-- never taken, and the wait for it has no end.
unfoldable pub run_workers : (Cid → Result Tx) → ℕ → List Cid → Result (List Tx)
run_workers get n [] = ok []
run_workers get zero (c ∷ cs) = err never_returns
run_workers get (suc n) (c ∷ cs) =
    let rest = run_workers get (suc n) cs in
    let fewer = run_workers get n cs in
    elim (get c) [ ok t ↦ rest then? λ ts. ok (t ∷ ts) | err e ↦ fewer | panic ↦ panic ]

module _ {I D B : Type 0} (env : IpfsEnv I D B) where
  -- the CIDs of the values that can be cast, each once
  unfoldable pub cast_values : List (Bytes × Bytes) → List Cid
  cast_values [] = []
  cast_values ((k, v) ∷ l) =
      let rest = cast_values l in
      elim (env.cids.cast v) [ none ↦ rest | some c ↦ if has c rest then rest else c ∷ rest ]

  -- the entries of the table of histories
  unfoldable pub history_entries : IpfsStorage I D B → List (Bytes × Bytes)
  unfolding metadata_iter
  history_entries s =
      metadata_iter env s (prefix did_history_table ∷ []) ((prefix did_history_table + 1) ∷ [])

  unfoldable pub did_history : IpfsStorage I D B → String → Result (List Tx)
  unfolding history_entries cast_values run_workers get_tx
  did_history s id =
      run_workers (get_tx env s) all_tx_n_workers
        (env.cids.key_order (cast_values (history_entries s)))
      then? λ txs. ok (env.cids.arrival txs)

-- ===== src/Consensus/Quorum.antt =====
-- Lemmas on the numbers of a round (pkg/did/consensus): its proposer, the threshold, the pool.
use didem.Base.{
  ℕ, zero, suc, ◌%◌, ◌<◌, ◌≤◌, some, List, [], ◌∷◌, String, length, get_elem?, ok, ◌≡◌, ◌≢◌, ◌⊎◌,
  ◌↔◌, arith, nat_eq, refl, Bool, beq_ne, insert, string_eq, nat_eqb,
}
use didem.Storage.Chain.{max_block_tx_count}
use didem.Consensus.Engine.{Engine, Env, MemPool, restart_timer}
use didem.Storage.Store.{Store}
use didem.Consensus.Msg.{PeerId, Msg}
use didem.Consensus.State.{reset_onces}
use didem.Consensus.Votes.{enough_votes}
use didem.Consensus.Round.{
  start_round, follow_round, enter_round, await_proposal, select_proposer, threshold,
}
use didem.Consensus.Blocks.{take_txs, block_size}

-- The `n` other nodes together exceed the threshold exactly where they are two, or four and more:
-- none, one or three of them never get past the votes.
pub quorum_possible : (n : ℕ) → (threshold n < n) ↔ ((n ≡ 2) ⊎ (4 ≤ n))
unfolding threshold
quorum_possible n = (λ h. ground arith, λ h. ground arith)

get_elem?-some : (l : List String) (i : ℕ) → i < length l → (p : String) × (get_elem? l i ≡ some p)
get_elem?-some [] i h = absurd (omega arith)
get_elem?-some (a ∷ l) zero h = (a, refl)
get_elem?-some (a ∷ l) (suc i) h = get_elem?-some l i (omega arith)

-- With a node to choose from, every value of the beacon chooses one of the nodes, the one at the
-- value's remainder, and the choice never panics.
pub select_proposer_total :
    (b : ℕ) (nodes : List String)
    → length nodes ≢ 0
    → (p : String) × (select_proposer b nodes ≡ ok p)
      × (get_elem? nodes (b % length nodes) ≡ some p)
unfolding select_proposer
select_proposer_total b nodes h =
    let (p, found) = get_elem?-some nodes (b % length nodes) (ground arith) in
    (p, ground arith, found)

module _ {M : Type 0} (mp : MemPool M) where
  length-take_txs : (n : ℕ) (m : M) → length (take_txs mp n m).0 ≤ n
  unfolding take_txs
  length-take_txs zero m = omega arith
  length-take_txs (suc n) m = ground (arith, length-take_txs n (mp.get_tx m).1)

  -- What a proposer takes out of its pool is at most `MaxBlockTxCount` transactions, and no more
  -- than the pool says that it has.
  pub take_from_pool_bounded :
      (m : M)
      → (length (take_txs mp (block_size mp m) m).0 ≤ max_block_tx_count)
        × (length (take_txs mp (block_size mp m) m).0 ≤ mp.len m)
  take_from_pool_bounded m =
      let h = length-take_txs (block_size mp m) m in (ground arith, ground arith)

module _ {S M : Type 0} (st : Store S) (mp : MemPool M) (env : Env) where
  pub follower_threshold :
      (inc : Bool) (e : Engine S M) (p : PeerId) (m : Msg)
      → e.state.proposer ≢ env.peer_string e.id
      → ((start_round st mp env inc e).1.propsal_state.f ≡ e.propsal_state.f)
        × ((start_round st mp env inc e).1.propsal_state.pre_votes ≡ [])
        × ((start_round st mp env inc e).1.propsal_state.pre_commits ≡ [])
        × (enough_votes
              (record ((start_round st mp env inc e).1.propsal_state) { pre_votes = insert p m [] })
            ≡ nat_eqb e.propsal_state.f 0)
  unfolding start_round follow_round enter_round await_proposal restart_timer reset_onces
  follower_threshold inc e p m other =
      rw (beq_ne e.state.proposer (env.peer_string e.id) other)
        (ground arith, ground arith, ground arith, ground arith)

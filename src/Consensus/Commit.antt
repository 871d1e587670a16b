-- ===== src/Consensus/Commit.antt =====
-- The promises of the engine: what a commit needs, and what a reachable engine knows.
use didem.Base.{◌<◌, All, Distinct, string_eq, length, ◌≡◌, ◌≢◌, ◌⊎◌, inl, inr}
use didem.Tx.{undef}
use didem.Storage.Store.{Store}
use didem.Consensus.Msg.{vote_type_pre_commit}
use didem.Consensus.State.{block}
use didem.Consensus.Engine.{Engine, Env, MemPool, Validator}
use didem.Consensus.Invariant.{IsVoteFor, IsConsistent}
use didem.Consensus.Events.{Event, handle, Reach, here, next, IsNew}
use didem.Consensus.Handled.{Holds, Committed}
use didem.Consensus.Reachable.{new-Holds, handle-Moves}

-- Why the block of `e` gave way to the one of `e'`.
pub record IsDecided {S M : Type 0} (env : Env) (e e' : Engine S M) : Type 0 where
  pub step : e.propsal_state.step ≡ block
  pub quorum : e.propsal_state.f < length e.propsal_state.pre_commits
  pub voters : Distinct e.propsal_state.pre_commits
  pub commits :
      All
        (IsVoteFor env vote_type_pre_commit e.propsal_state e.state.proposer)
        e.propsal_state.pre_commits
  pub chosen : e'.state.block_ ≡ e.propsal_state.locked_value
  pub height : e'.state.height ≡ e.propsal_state.height
  pub proposed :
      (e.propsal_state.locked_value ≡ undef)
      ⊎ (e.propsal_state.locked_value ≡ e.propsal_state.block_)

module _ {S M : Type 0} (st : Store S) (mp : MemPool M) (env : Env) (vd : Validator S) where
  -- Every engine that a new one gets to by any sequence of events is consistent: its votes are
  -- from distinct peers other than the proposer, for the height, the round and the block at hand;
  -- there are none, and no lock, while it waits for a proposal; a lock is on the block of the
  -- round; and it waits for the final block only with more than `f` precommits.
  pub reachable-IsConsistent :
      (start e : Engine S M)
      → IsNew start
      → Reach st mp env vd start e
      → IsConsistent env e.propsal_state e.state.proposer
  reachable-IsConsistent start _ n here = new-Holds st mp env vd start n
  reachable-IsConsistent start _ n (next {e = e} ev r h) =
      (handle-Moves st mp env vd ev e).keeps (reachable-IsConsistent start e n r)

  decided :
      (e e' : Engine S M)
      → Holds env e
      → (e'.state.block_ ≡ e.state.block_) ⊎ Committed e e'
      → e'.state.block_ ≢ e.state.block_
      → IsDecided env e e'
  decided e e' h (inl same) changed = absurd (changed same)
  decided e e' h (inr c) changed = record {
    step = c.step;
    quorum = h.quorum c.step;
    voters = h.commits_distinct;
    commits = h.commits;
    chosen = c.chosen;
    height = c.height;
    proposed = elim h.lock [ inl q ↦ inl q.0 | inr q ↦ inr q.0 ];
  }

  -- Whatever happens to an engine that a new one got to: where the last block of the chain changes,
  -- the round was in its last step, with more than `f` precommits from distinct peers other than
  -- the proposer, each for the height, the round and the block at hand, and the chain takes the
  -- locked block, which is undefined or the block of the round.
  pub commit-IsDecided :
      (start e : Engine S M) (ev : Event S M)
      → IsNew start
      → Reach st mp env vd start e
      → (handle st mp env vd ev e).1.state.block_ ≢ e.state.block_
      → IsDecided env e (handle st mp env vd ev e).1
  commit-IsDecided start e ev n r changed =
      decided e (handle st mp env vd ev e).1 (reachable-IsConsistent start e n r)
        (handle-Moves st mp env vd ev e).commits changed

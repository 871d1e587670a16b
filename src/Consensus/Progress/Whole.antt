-- ===== src/Consensus/Progress/Whole.antt =====
-- A whole round of pkg/did/consensus/consensus.go from its proposal on, for a follower.
use didem.Base.{List, [], ◌∷◌, nat_eq, string_eq, ◌≡◌, refl, ◌∙◌, ◌++◌, ◌<◌, length, All}
use didem.Tx.{Cid}
use didem.Storage.Store.{Store}
use didem.Consensus.Msg.{Msg, vote_type_pre_vote, vote_type_pre_commit}
use didem.Consensus.Engine.{Engine, Env, MemPool, Validator}
use didem.Consensus.Handlers.{on_msg}
use didem.Consensus.Progress.{Counts}
use didem.Consensus.Progress.Locking.{AreNew, deliver}
use didem.Consensus.Progress.Round.{IsFinal, TakesBlock, follower_commits}
use didem.Consensus.Progress.Proposal.{IsWaiting, Proposes, CanSend, Accepts, proposal-Accepts}

module _ {S M : Type 0} (st : Store S) (mp : MemPool M) (env : Env) (vd : Validator S) where
  -- the chain behind a round that `e'` decides
  behind :
      (e' e : Engine S M) (b : Cid)
      → Accepts st mp env vd e b e'
      → record (e'.state) {
        height = e'.propsal_state.height;
        parent_block = e'.state.block_;
        block_ = e'.propsal_state.block_;
      }
        ≡ record (e.state) {
          height = e.propsal_state.height;
          parent_block = e.state.block_;
          block_ = b;
        }
  behind e' e b a = rw (a.state, a.height, a.block_) refl

  -- A follower that waits for a proposal and can send, and hears its proposer's proposal of a valid block
  -- of its store, then more than `f` prevotes for it, then more than `f` precommits, and then the
  -- proposer's block message, takes that block as the last one of its chain, above the last one before,
  -- at the height of the round. The votes of either type are each from another node than the rest and
  -- than the proposer, all messages are signed and for its chain, the block is a defined one, and the
  -- store marks it without a panic.
  pub round_commits :
      (proposal : Msg) (votes commits : List Msg) (last : Msg) (b : Cid) (e : Engine S M)
      → IsWaiting e
      → Proposes st mp env vd e b proposal
      → CanSend env
      → All (Counts st mp env vd vote_type_pre_vote (on_msg st mp env vd proposal e).1) votes
      → All (Counts st mp env vd vote_type_pre_commit (on_msg st mp env vd proposal e).1) commits
      → AreNew votes []
      → AreNew commits []
      → e.propsal_state.f < length votes
      → e.propsal_state.f < length commits
      → IsFinal st mp env vd (on_msg st mp env vd proposal e).1 b e.propsal_state.round last
      → TakesBlock st mp env vd (on_msg st mp env vd proposal e).1.store b
      → (deliver st mp env vd (proposal ∷ (votes ++ (commits ++ last ∷ []))) e).state
        ≡ record (e.state) {
          height = e.propsal_state.height;
          parent_block = e.state.block_;
          block_ = b;
        }
  round_commits proposal votes commits last b e w h send v c vn cn ve ce final takes =
      let e' = (on_msg st mp env vd proposal e).1 in
      let a : Accepts st mp env vd e b e' = proposal-Accepts st mp env vd proposal b e w h send in
      follower_commits st mp env vd votes commits last e' a.voting v c vn cn (rw a.f ve) (rw a.f ce)
        (rw (a.block_, a.round) final) (rw a.block_ takes)
      ∙ behind e' e b a

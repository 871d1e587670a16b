-- ===== src/Consensus/Progress/Round.antt =====
-- A whole round of pkg/did/consensus/consensus.go behind its proposal, for a follower.
use didem.Base.{
  ℕ, ◌<◌, true, false, some, List, [], ◌∷◌, ◌++◌, Result, ok, err, panic, ◌==◌, nat_eq, string_eq,
  ◌≡◌, ◌≢◌, refl, ap, ◌∙◌, arith, length, All, All-map, nat_eqb,
}
use didem.Tx.{Cid, undef}
use didem.Storage.Chain.{accepted}
use didem.Storage.Store.{Store}
use didem.Consensus.Msg.{
  Msg, ConsensusMsg, ConsensusMsgBlock, msg_type_consensus, type_block, vote_type_pre_vote,
  vote_type_pre_commit,
}
use didem.Consensus.State.{prevote, block}
use didem.Consensus.Engine.{Engine, Env, MemPool, Validator, log_error, stop_timer}
use didem.Consensus.Votes.{on_block, commit_block, last_state}
use didem.Consensus.Handlers.{bytes_equal, is_authentic, on_msg, by_msg_type, by_consensus_type}
use didem.Consensus.Progress.{Counts, Stays-Counts, Locks}
use didem.Consensus.Progress.Locking.{AreNew, deliver, deliver-append, votes_lock}
use didem.Consensus.Progress.Deciding.{Closes, commits_close}

log_error-ok : (r : Result Unit) → r ≢ panic → log_error r ≡ ok tt
log_error-ok (ok _) h = refl
log_error-ok (err _) h = refl
log_error-ok panic h = absurd (h refl)

-- A follower that has accepted the proposal of its round and has no vote yet.
pub record IsVoting {S M : Type 0} (e : Engine S M) : Type 0 where
  pub step : e.propsal_state.step ≡ prevote
  pub following : e.propsal_state.am_proposer ≡ false
  pub no_votes : e.propsal_state.pre_votes ≡ []
  pub no_commits : e.propsal_state.pre_commits ≡ []
  pub pc_armed : (e.propsal_state.pc_once.done == 1) ≡ false
  pub sb_armed : (e.propsal_state.sb_once.done == 1) ≡ false

module _ {S M : Type 0} (st : Store S) (mp : MemPool M) (env : Env) (vd : Validator S) where
  -- The store marks the block as accepted and as the last one without a panic.
  pub record TakesBlock (s : S) (b : Cid) : Type 0 where
    pub defined : (b == undef) ≡ false
    pub marks : (st.mark_block b accepted s).0 ≢ panic
    pub applies : (st.update_last_applied b (st.mark_block b accepted s).1).0 ≢ panic

  -- The message is the proposer's for the block and the round at hand, and signed by it.
  pub record IsFinal (e : Engine S M) (b : Cid) (round : ℕ) (m : Msg) : Type 0 where
    pub content : ConsensusMsg
    pub final : ConsensusMsgBlock
    pub chain : bytes_equal m.chain e.chain ≡ true
    pub authentic : is_authentic st mp env vd m e ≡ ok true
    pub carried : (m.type ≡ msg_type_consensus) × (m.consensus ≡ some content)
    pub form : (content.type ≡ type_block) × (content.block ≡ some final)
    pub sender : (env.peer_string m.from == e.state.proposer) ≡ true
    pub same_block : (final.cid == env.cid_string b) ≡ true
    pub same_round : nat_eqb round final.round ≡ true

  commit_block-last :
      (e : Engine S M)
      → TakesBlock e.store e.propsal_state.locked_value
      → (commit_block env st e).1.state ≡ last_state e.state e.propsal_state
  unfolding commit_block stop_timer
  commit_block-last e h = rw (h.defined, log_error-ok _ h.marks, log_error-ok _ h.applies) refl

  on_msg-final :
      (m : Msg) (e : Engine S M)
      → e.propsal_state.step ≡ block
      → IsFinal e e.propsal_state.locked_value e.propsal_state.locked_round m
      → (on_msg st mp env vd m e).1 ≡ (commit_block env st e).1
  unfolding on_msg by_msg_type by_consensus_type on_block
  on_msg-final m e step h =
      rw
        (
          h.chain, h.authentic, h.carried.0, h.carried.1, h.form.0, h.form.1, h.sender, step,
          h.same_block, h.same_round,
        )
        refl

  IsFinal-Closes :
      (e e1 e2 : Engine S M) (m : Msg)
      → Locks st mp env vd e e1
      → Closes e1 e2
      → IsFinal e e.propsal_state.block_ e.propsal_state.round m
      → IsFinal e2 e2.propsal_state.locked_value e2.propsal_state.locked_round m
  unfolding is_authentic
  IsFinal-Closes e e1 e2 m h k g = record {
    content = g.content;
    final = g.final;
    chain = rw (k.chain, h.stays.chain) g.chain;
    authentic = rw (k.store, h.stays.store) g.authentic;
    carried = g.carried;
    form = g.form;
    sender = rw (k.state, h.stays.state) g.sender;
    same_block = rw (k.value, h.value) g.same_block;
    same_round = rw (k.locked_round, h.locked_round) g.same_round;
  }

  TakesBlock-Closes :
      (e e1 e2 : Engine S M)
      → Locks st mp env vd e e1
      → Closes e1 e2
      → TakesBlock e.store e.propsal_state.block_
      → TakesBlock e2.store e2.propsal_state.locked_value
  TakesBlock-Closes e e1 e2 h k t = rw (k.store, h.stays.store, k.value, h.value) t

  last_state-Closes :
      (e e1 e2 : Engine S M)
      → Locks st mp env vd e e1
      → Closes e1 e2
      → last_state e2.state e2.propsal_state ≡ record (e.state) {
        height = e.propsal_state.height;
        parent_block = e.state.block_;
        block_ = e.propsal_state.block_;
      }
  last_state-Closes e e1 e2 h k =
      rw (k.state, h.stays.state, k.height, h.stays.height, k.value, h.value) refl

  -- From the lock on: the precommits, and the block.
  decides :
      (commits : List Msg) (last : Msg) (e e1 : Engine S M)
      → IsVoting e
      → Locks st mp env vd e e1
      → All (Counts st mp env vd vote_type_pre_commit e) commits
      → AreNew commits []
      → e.propsal_state.f < length commits
      → IsFinal e e.propsal_state.block_ e.propsal_state.round last
      → TakesBlock e.store e.propsal_state.block_
      → (deliver st mp env vd (commits ++ last ∷ []) e1).state ≡ record (e.state) {
        height = e.propsal_state.height;
        parent_block = e.state.block_;
        block_ = e.propsal_state.block_;
      }
  decides commits last e e1 w h counts new enough final takes =
      let e2 = deliver st mp env vd commits e1 in
      let none_yet = h.stays.commits ∙ w.no_commits in
      let k : Closes e1 e2 =
        commits_close st mp env vd commits e1 h.step (h.stays.following ∙ w.following)
          (rw h.stays.sb_once w.sb_armed) (rw (none_yet, h.stays.f) (omega arith))
          (rw (none_yet, h.stays.f) (omega arith)) (rw none_yet new)
          (All-map commits (λ m. Stays-Counts st mp env vd vote_type_pre_commit m e e1 h.stays)
            counts) in
      ap (λ x. x.state)
        (deliver-append st mp env vd commits (last ∷ []) e1
          ∙ on_msg-final last e2 k.step (IsFinal-Closes e e1 e2 last h k final))
      ∙ commit_block-last e2 (TakesBlock-Closes e e1 e2 h k takes)
      ∙ last_state-Closes e e1 e2 h k

  -- A follower that has accepted a proposal and hears of more than `f` prevotes for it, then of more
  -- than `f` precommits, each from another node than the rest and than the proposer, and then the
  -- proposer's block message, all signed and for its chain, takes the proposed block as the last one of
  -- its chain, above the last one before, at the height of the round, where the block is a defined one
  -- and the store marks it without a panic.
  pub follower_commits :
      (votes commits : List Msg) (last : Msg) (e : Engine S M)
      → IsVoting e
      → All (Counts st mp env vd vote_type_pre_vote e) votes
      → All (Counts st mp env vd vote_type_pre_commit e) commits
      → AreNew votes []
      → AreNew commits []
      → e.propsal_state.f < length votes
      → e.propsal_state.f < length commits
      → IsFinal e e.propsal_state.block_ e.propsal_state.round last
      → TakesBlock e.store e.propsal_state.block_
      → (deliver st mp env vd (votes ++ (commits ++ last ∷ [])) e).state ≡ record (e.state) {
        height = e.propsal_state.height;
        parent_block = e.state.block_;
        block_ = e.propsal_state.block_;
      }
  follower_commits votes commits last e w v c vn cn ve ce final takes =
      ap (λ x. x.state) (deliver-append st mp env vd votes (commits ++ last ∷ []) e)
      ∙ decides commits last e (deliver st mp env vd votes e) w
          (votes_lock st mp env vd votes e w.step w.following w.pc_armed
            (rw w.no_votes (omega arith)) (rw w.no_votes (omega arith)) (rw w.no_votes vn) v)
          c cn ce final takes

-- ===== src/Consensus/Safety.antt =====
-- Lemmas on the handlers of votes (pkg/did/consensus/consensus.go) and `Consensus.Invariant`.
use didem.Base.{◌<◌, Bool, true, some, String, string_eq, ◌≡◌, ◌≢◌, refl, arith, length}
use didem.Resync.{Once}
use didem.Consensus.Msg.{
  Msg, ConsensusMsgVote, VoteType, vote_type_pre_vote, vote_type_pre_commit, vote_type_proposal,
  other_vote,
}
use didem.Consensus.State.{State, Step, prevote, precommit, block, set_step}
use didem.Consensus.Engine.{Engine, Env, do_pc_once, do_sb_once, reading, timer_precommit}
use didem.Consensus.Send.{send_evidence}
use didem.Consensus.Votes.{
  confirm, add_vote, add_commit, take_vote, when, is_step, schedule_block, enough_votes,
  enough_commits, lock_block, on_pre_vote, await_block, on_pre_commit, by_type, count_vote,
  is_current,
}
use didem.Consensus.Frame.{Frames, Frames-send_vote, Frames-send_msg, frame_rules}
use didem.Consensus.Keeps.{
  Keeps, keeps_rules, Keeps-do_pc_once, Keeps-do_sb_once, Leads, Leads-when_restart,
  Leads-on_propsal, Leads-reading-when, Leads-then, Leads-Keeps,
}
use didem.Consensus.Invariant.{
  IsConsistent, vote_of, set_step-IsConsistent, insert_vote-IsConsistent,
  insert_commit-IsConsistent, lock-IsConsistent, others-IsConsistent, keep_evidence-IsConsistent,
}

Frames-schedule_block : {S M : Type 0} → Frames {S = S} {M = M} schedule_block
Frames-schedule_block = record { state = λ e. refl; propsal = λ e. refl }

pub is_step-eq : (a b : Step) → is_step a b ≡ true → a ≡ b
is_step-eq a b h = ground arith

module _ (env : Env) (proposer : String) where
  abbrev pub Consistent : State → Type 0
  Consistent s = IsConsistent env s proposer

  -- with a quorum of precommits beside
  abbrev Decided : State → Type 0
  Decided s = IsConsistent env s proposer × (s.f < length s.pre_commits)

  onces-Consistent :
      (s : State) (pv pc sb : Once)
      → Consistent s
      → Consistent (record s { pv_once = pv; pc_once = pc; sb_once = sb })
  onces-Consistent s pv pc sb h =
      others-IsConsistent env proposer s h pv pc sb s.pre_votes_evidence s.pre_commits_evidence

  set_block-Decided : (s : State) → Decided s → Decided (set_step block s)
  set_block-Decided s h =
      (set_step-IsConsistent env proposer s h.0 block (λ e. ground arith) (λ _. h.1), h.1)

  abbrev Voting : Msg → ConsensusMsgVote → State → Type 0
  Voting m v s =
      Consistent s
      × (vote_of m ≡ some v)
      × (env.peer_string m.from ≢ proposer)
      × (is_current env v s ≡ true)

module _ {S M : Type 0} (env : Env) (proposer : String) where
  Keeps-lock_block : Keeps (Consistent env proposer) (lock_block {S = S} {M = M} env)
  unfolding lock_block
  Keeps-lock_block = search (keeps_rules, frame_rules, Frames-send_vote, lock-IsConsistent) depth 12

  Keeps-await_block : Keeps (Decided env proposer) (await_block {S = S} {M = M} env)
  unfolding await_block
  Keeps-await_block =
      search (keeps_rules, frame_rules, Frames-schedule_block, set_block-Decided) depth 12

  -- Once the vote is in, the rest of `onPreVote` keeps the invariant.
  Leads-after_vote : Leads (Consistent env proposer) (Consistent env proposer) (
      reading
        (λ (e : Engine S M). when (enough_votes e.propsal_state) (do_pc_once (lock_block env))))
  Leads-after_vote =
      Leads-reading-when _ _ enough_votes _ (λ s h. h)
        (λ _.
          Leads-Keeps _ _ (Consistent env proposer) _ (λ s h. h.0) (λ s h. h)
            (Keeps-do_pc_once _ (λ s o h. onces-Consistent env proposer s s.pv_once o s.sb_once h) _
              Keeps-lock_block))

  Leads-after_commit : Leads (Consistent env proposer) (Consistent env proposer) (
      reading
        (λ (e : Engine S M). when (enough_commits e.propsal_state) (do_sb_once (await_block env))))
  Leads-after_commit =
      Leads-reading-when _ _ enough_commits _ (λ s h. h)
        (λ _.
          Leads-Keeps _ _ (Decided env proposer) _ (λ s h. (h.0, ground arith)) (λ s h. h.0)
            (Keeps-do_sb_once _
              (λ s o d. (onces-Consistent env proposer s s.pv_once s.pc_once o d.0, d.1)) _
              Keeps-await_block))

  Leads-add_vote :
      (m : Msg) (v : ConsensusMsgVote) (b : Bool)
      → v.type ≡ vote_type_pre_vote
      → Leads {S = S} {M = M}
          (λ s. Voting env proposer m v s × (s.step ≡ prevote))
          (Consistent env proposer)
          (add_vote env m b)
  Leads-add_vote m v b ty =
      Leads-when_restart (λ s. Voting env proposer m v s × (s.step ≡ prevote))
        (Consistent env proposer) b timer_precommit _
        (Leads-on_propsal (λ s. Voting env proposer m v s × (s.step ≡ prevote))
          (Consistent env proposer) (Consistent env proposer) _ _
          (λ s h. insert_vote-IsConsistent env proposer s h.0.0 m v h.0.1 h.0.2 h.0.3 ty h.1)
          Leads-after_vote)

  Leads-on_pre_vote :
      (m : Msg) (v : ConsensusMsgVote)
      → v.type ≡ vote_type_pre_vote
      → Leads {S = S} {M = M}
          (Voting env proposer m v)
          (Consistent env proposer)
          (on_pre_vote env m)
  unfolding on_pre_vote
  Leads-on_pre_vote m v ty =
      Leads-reading-when (Voting env proposer m v) (Consistent env proposer)
        (λ s. is_step s.step prevote) (λ e. add_vote env m e.propsal_state.am_proposer) (λ s h. h.0)
        (λ e. record {
          at = λ e' p.
              (Leads-add_vote m v e.propsal_state.am_proposer ty).at e' (p.0, is_step-eq _ _ p.1);
          state = (Leads-add_vote m v e.propsal_state.am_proposer ty).state;
        })

  Leads-add_commit :
      (m : Msg) (v : ConsensusMsgVote) (b : Bool)
      → v.type ≡ vote_type_pre_commit
      → Leads {S = S} {M = M}
          (λ s. Voting env proposer m v s × (s.step ≡ precommit))
          (Consistent env proposer)
          (add_commit env m b)
  Leads-add_commit m v b ty =
      Leads-when_restart (λ s. Voting env proposer m v s × (s.step ≡ precommit))
        (Consistent env proposer) b timer_precommit _
        (Leads-on_propsal (λ s. Voting env proposer m v s × (s.step ≡ precommit))
          (Consistent env proposer) (Consistent env proposer) _ _
          (λ s h. insert_commit-IsConsistent env proposer s h.0.0 m v h.0.1 h.0.2 h.0.3 ty h.1)
          Leads-after_commit)

  Leads-on_pre_commit :
      (m : Msg) (v : ConsensusMsgVote)
      → v.type ≡ vote_type_pre_commit
      → Leads {S = S} {M = M}
          (Voting env proposer m v)
          (Consistent env proposer)
          (on_pre_commit env m)
  unfolding on_pre_commit
  Leads-on_pre_commit m v ty =
      Leads-reading-when (Voting env proposer m v) (Consistent env proposer)
        (λ s. is_step s.step precommit) (λ e. add_commit env m e.propsal_state.am_proposer)
        (λ s h. h.0)
        (λ e. record {
          at = λ e' p.
              (Leads-add_commit m v e.propsal_state.am_proposer ty).at e' (p.0, is_step-eq _ _ p.1);
          state = (Leads-add_commit m v e.propsal_state.am_proposer ty).state;
        })

  Leads-by_type :
      (t : VoteType) (m : Msg) (v : ConsensusMsgVote)
      → v.type ≡ t
      → Leads {S = S} {M = M} (Voting env proposer m v) (Consistent env proposer) (by_type env t m)
  Leads-by_type vote_type_pre_vote m v e = Leads-on_pre_vote m v e
  Leads-by_type vote_type_pre_commit m v e = Leads-on_pre_commit m v e
  Leads-by_type vote_type_proposal m v e = record { at = λ _ p. p.0; state = λ _. refl }
  Leads-by_type (other_vote n) m v e = record { at = λ _ p. p.0; state = λ _. refl }

  Keeps-send_evidence :
      (v : ConsensusMsgVote) → Keeps (Consistent env proposer) (send_evidence {S = S} {M = M} env v)
  unfolding send_evidence
  Keeps-send_evidence v =
      search (keeps_rules, frame_rules, Frames-send_msg, keep_evidence-IsConsistent) depth 12

  Keeps-confirm :
      (v : ConsensusMsgVote) → Keeps (Consistent env proposer) (confirm {S = S} {M = M} env v)
  Keeps-confirm v = search (keeps_rules, Keeps-send_evidence) depth 8

  pub Leads-count_vote :
      (m : Msg) (v : ConsensusMsgVote)
      → vote_of m ≡ some v
      → env.peer_string m.from ≢ proposer
      → Leads {S = S} {M = M}
          (Consistent env proposer)
          (Consistent env proposer)
          (count_vote env m v)
  unfolding count_vote
  Leads-count_vote m v carried other =
      Leads-reading-when (Consistent env proposer) (Consistent env proposer) (is_current env v)
        (λ _. take_vote env m v) (λ s h. h)
        (λ e.
          Leads-then (λ s. Consistent env proposer s × (is_current env v s ≡ true))
            (Consistent env proposer) (Consistent env proposer) (by_type env v.type m)
            (confirm env v) (λ s h. h)
            (record {
              at = λ e' p. (Leads-by_type v.type m v refl).at e' (p.0, carried, other, p.1);
              state = (Leads-by_type v.type m v refl).state;
            })
            (Leads-Keeps _ _ (Consistent env proposer) (confirm env v) (λ s h. h) (λ s h. h)
              (Keeps-confirm v)))

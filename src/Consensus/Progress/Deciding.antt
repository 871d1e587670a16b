-- ===== src/Consensus/Progress/Deciding.antt =====
-- The precommits of a round of pkg/did/consensus/consensus.go and its new block, for a follower.
use didem.Base.{
  ◌+◌, ◌≤◌, ◌<◌, false, List, [], ◌∷◌, ◌==◌, nat_eq, string_eq, ◌≡◌, refl, ap, ◌∙◌, sym, subst,
  arith, length, All, All-map, Bool-cases, inl, inr,
}
use didem.Storage.Store.{Store}
use didem.Consensus.Msg.{Msg, VoteType, vote_type_pre_commit}
use didem.Consensus.State.{precommit, block}
use didem.Consensus.Engine.{Engine, Env, MemPool, Validator}
use didem.Consensus.Votes.{enough_commits, on_pre_commit, is_step}
use didem.Consensus.Handlers.{is_authentic, on_msg}
use didem.Consensus.Progress.{
  Counts, on_msg-vote, filed, closed, on_pre_commit-few, on_pre_commit-enough,
}
use didem.Consensus.Progress.Locking.{AreNew, length-insert_new, deliver}

-- An engine that waits for the final block of the round of `e`.
pub record Closes {S M : Type 0} (e e' : Engine S M) : Type 0 where
  pub chain : e'.chain ≡ e.chain
  pub store : e'.store ≡ e.store
  pub state : e'.state ≡ e.state
  pub step : e'.propsal_state.step ≡ block
  pub height : e'.propsal_state.height ≡ e.propsal_state.height
  pub value : e'.propsal_state.locked_value ≡ e.propsal_state.locked_value
  pub locked_round : e'.propsal_state.locked_round ≡ e.propsal_state.locked_round

module _ {S M : Type 0} (st : Store S) (mp : MemPool M) (env : Env) (vd : Validator S) where
  filed-Counts :
      (t : VoteType) (m n : Msg) (e : Engine S M)
      → Counts st mp env vd t e n
      → Counts st mp env vd t (filed st mp env vd m e) n
  unfolding is_authentic
  filed-Counts t m n e c = record {
    content = c.content;
    vote = c.vote;
    chain = c.chain;
    authentic = c.authentic;
    carried = c.carried;
    form = c.form;
    type = c.type;
    current = c.current;
    other = c.other;
  }

  closed-Counts :
      (t : VoteType) (m n : Msg) (e : Engine S M)
      → Counts st mp env vd t e n
      → Counts st mp env vd t (closed st mp env vd m e) n
  unfolding is_authentic
  closed-Counts t m n e c = record {
    content = c.content;
    vote = c.vote;
    chain = c.chain;
    authentic = c.authentic;
    carried = c.carried;
    form = c.form;
    type = c.type;
    current = c.current;
    other = c.other;
  }

  skip_commit :
      (m : Msg) (e : Engine S M)
      → is_step e.propsal_state.step precommit ≡ false
      → (on_pre_commit env m e).1 ≡ e
  unfolding on_pre_commit
  skip_commit m e step = rw step refl

  skip_commits :
      (ms : List Msg) (e : Engine S M)
      → is_step e.propsal_state.step precommit ≡ false
      → e.propsal_state.am_proposer ≡ false
      → All (Counts st mp env vd vote_type_pre_commit e) ms
      → deliver st mp env vd ms e ≡ e
  skip_commits [] e step follows c = refl
  skip_commits (m ∷ ms) e step follows c =
      ap (deliver st mp env vd ms) (
        on_msg-vote st mp env vd vote_type_pre_commit m e c.0
          (subst (λ x. x.propsal_state.am_proposer ≡ false) (sym (skip_commit m e step)) follows)
        ∙ skip_commit m e step)
      ∙ skip_commits ms e step follows c.1

  -- A precommit that counts leads to `x` where `on_pre_commit` does.
  leads_to :
      (m : Msg) (e x : Engine S M)
      → x.propsal_state.am_proposer ≡ false
      → (on_pre_commit env m e).1 ≡ x
      → Counts st mp env vd vote_type_pre_commit e m
      → (on_msg st mp env vd m e).1 ≡ x
  leads_to m e x follows q c =
      on_msg-vote st mp env vd vote_type_pre_commit m e c
        (subst (λ y. y.propsal_state.am_proposer ≡ false) (sym q) follows)
      ∙ q

  Closes-closed : (m : Msg) (e : Engine S M) → Closes e (closed st mp env vd m e)
  Closes-closed m e = record {
    chain = refl;
    store = refl;
    state = refl;
    step = refl;
    height = refl;
    value = refl;
    locked_round = refl;
  }

  Closes-filed : (m : Msg) (e x : Engine S M) → Closes (filed st mp env vd m e) x → Closes e x
  Closes-filed m e x h = record {
    chain = h.chain;
    store = h.store;
    state = h.state;
    step = h.step;
    height = h.height;
    value = h.value;
    locked_round = h.locked_round;
  }

  -- Behind more precommits than `f` the engine waits for the block.
  pub commits_close :
      (ms : List Msg) (e : Engine S M)
      → e.propsal_state.step ≡ precommit
      → e.propsal_state.am_proposer ≡ false
      → (e.propsal_state.sb_once.done == 1) ≡ false
      → length e.propsal_state.pre_commits ≤ e.propsal_state.f
      → e.propsal_state.f < length e.propsal_state.pre_commits + length ms
      → AreNew ms e.propsal_state.pre_commits
      → All (Counts st mp env vd vote_type_pre_commit e) ms
      → Closes e (deliver st mp env vd ms e)
  commits_close [] e step follows armed few enough new c = absurd (omega arith)
  commits_close (m ∷ ms) e step follows armed few enough new c =
      let e' = filed st mp env vd m e in
      let x = closed st mp env vd m e in
      let size = length-insert_new m.from m e.propsal_state.pre_commits new.0 in
      elim (Bool-cases (enough_commits e'.propsal_state)) [
        | inl last ↦
            subst (Closes e)
              (sym (
                ap (deliver st mp env vd ms) (
                  leads_to m e x follows
                    (on_pre_commit-enough st mp env vd m e step follows armed last) c.0)
                ∙ skip_commits ms x refl follows
                    (All-map ms (λ n. closed-Counts vote_type_pre_commit m n e) c.1)))
              (Closes-closed m e)
        | inr more ↦
            subst (λ y. Closes e (deliver st mp env vd ms y))
              (sym (
                leads_to m e e' follows (on_pre_commit-few st mp env vd m e step follows more) c.0))
              (Closes-filed m e (deliver st mp env vd ms e') (
                commits_close ms e' step follows armed (ground arith) (rw size (omega arith)) new.1
                  (All-map ms (λ n. filed-Counts vote_type_pre_commit m n e) c.1)))
      ]

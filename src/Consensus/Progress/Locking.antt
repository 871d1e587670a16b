-- ===== src/Consensus/Progress/Locking.antt =====
-- The votes of a round of pkg/did/consensus/consensus.go, from the first one to the lock, for a follower.
use didem.Base.{
  ◌+◌, ◌≤◌, ◌<◌, true, false, none, List, [], ◌∷◌, ◌++◌, ◌==◌, nat_eq, string_eq, ◌≡◌, refl, ap,
  ◌∙◌, sym, subst, arith, length, insert, lookup, All, All-map, Bool-cases, inl, inr,
}
use didem.Storage.Store.{Store}
use didem.Consensus.Msg.{PeerId, Msg, vote_type_pre_vote}
use didem.Consensus.State.{prevote}
use didem.Consensus.Engine.{Engine, Env, MemPool, Validator}
use didem.Consensus.Votes.{enough_votes, on_pre_vote, is_step}
use didem.Consensus.Handlers.{on_msg}
use didem.Consensus.Progress.{
  Counts, Stays, Stays-Counts, Locks, on_msg-vote, noted, on_pre_vote-few, on_pre_vote-enough,
}

-- The senders are no voters yet, and differ.
abbrev pub AreNew : List Msg → List (PeerId × Msg) → Type 0
AreNew [] votes = Unit
AreNew (m ∷ ms) votes = (lookup m.from votes ≡ none) × AreNew ms (insert m.from m votes)

pub length-insert_new :
    (k : PeerId) (m : Msg) (l : List (PeerId × Msg))
    → lookup k l ≡ none
    → length (insert k m l) ≡ length l + 1
length-insert_new k m [] h = omega arith
length-insert_new k m ((j, w) ∷ l) h = ground (arith, length-insert_new k m l)

module _ {S M : Type 0} (st : Store S) (mp : MemPool M) (env : Env) (vd : Validator S) where
  -- one message after the other
  abbrev pub deliver : List Msg → Engine S M → Engine S M
  deliver [] e = e
  deliver (m ∷ ms) e = deliver ms (on_msg st mp env vd m e).1

  pub deliver-append :
      (xs ys : List Msg) (e : Engine S M) → deliver (xs ++ ys) e ≡ deliver ys (deliver xs e)
  deliver-append [] ys e = refl
  deliver-append (x ∷ xs) ys e = deliver-append xs ys (on_msg st mp env vd x e).1

  skip_vote :
      (m : Msg) (e : Engine S M)
      → is_step e.propsal_state.step prevote ≡ false
      → (on_pre_vote env m e).1 ≡ e
  unfolding on_pre_vote
  skip_vote m e step = rw step refl

  skip_votes :
      (ms : List Msg) (e : Engine S M)
      → is_step e.propsal_state.step prevote ≡ false
      → e.propsal_state.am_proposer ≡ false
      → All (Counts st mp env vd vote_type_pre_vote e) ms
      → deliver ms e ≡ e
  skip_votes [] e step follows c = refl
  skip_votes (m ∷ ms) e step follows c =
      ap (deliver ms) (
        on_msg-vote st mp env vd vote_type_pre_vote m e c.0
          (subst (λ x. x.propsal_state.am_proposer ≡ false) (sym (skip_vote m e step)) follows)
        ∙ skip_vote m e step)
      ∙ skip_votes ms e step follows c.1

  last_vote :
      (m : Msg) (ms : List Msg) (e : Engine S M)
      → e.propsal_state.step ≡ prevote
      → e.propsal_state.am_proposer ≡ false
      → (e.propsal_state.pc_once.done == 1) ≡ false
      → enough_votes (noted st mp env vd m e).propsal_state ≡ true
      → All (Counts st mp env vd vote_type_pre_vote e) (m ∷ ms)
      → Locks st mp env vd e (deliver (m ∷ ms) e)
  last_vote m ms e step follows armed last c =
      let x = (on_pre_vote env m e).1 in
      let h = on_pre_vote-enough st mp env vd m e step follows armed last in
      let follows' = h.stays.following ∙ follows in
      subst (Locks st mp env vd e)
        (sym (
          ap (deliver ms) (on_msg-vote st mp env vd vote_type_pre_vote m e c.0 follows')
          ∙ skip_votes ms x (rw h.step refl) follows'
              (All-map ms (λ n. Stays-Counts st mp env vd vote_type_pre_vote n e x h.stays) c.1)))
        h

  Stays-noted : (m : Msg) (e : Engine S M) → Stays st mp env vd e (noted st mp env vd m e)
  Stays-noted m e = record {
    chain = refl;
    store = refl;
    state = refl;
    height = refl;
    round = refl;
    block_ = refl;
    f = refl;
    following = refl;
    sb_once = refl;
    commits = refl;
  }

  Locks-noted :
      (m : Msg) (e x : Engine S M)
      → Locks st mp env vd (noted st mp env vd m e) x
      → Locks st mp env vd e x
  Locks-noted m e x h = record {
    stays = record {
      chain = h.stays.chain;
      store = h.stays.store;
      state = h.stays.state;
      height = h.stays.height;
      round = h.stays.round;
      block_ = h.stays.block_;
      f = h.stays.f;
      following = h.stays.following;
      sb_once = h.stays.sb_once;
      commits = h.stays.commits;
    };
    step = h.step;
    value = h.value;
    locked_round = h.locked_round;
  }

  on_msg-noted :
      (m : Msg) (e : Engine S M)
      → e.propsal_state.step ≡ prevote
      → e.propsal_state.am_proposer ≡ false
      → enough_votes (noted st mp env vd m e).propsal_state ≡ false
      → Counts st mp env vd vote_type_pre_vote e m
      → (on_msg st mp env vd m e).1 ≡ noted st mp env vd m e
  on_msg-noted m e step follows more c =
      let q = on_pre_vote-few st mp env vd m e step follows more in
      on_msg-vote st mp env vd vote_type_pre_vote m e c
        (subst (λ x. x.propsal_state.am_proposer ≡ false) (sym q) follows)
      ∙ q

  -- Behind more votes than `f` the block is locked.
  pub votes_lock :
      (ms : List Msg) (e : Engine S M)
      → e.propsal_state.step ≡ prevote
      → e.propsal_state.am_proposer ≡ false
      → (e.propsal_state.pc_once.done == 1) ≡ false
      → length e.propsal_state.pre_votes ≤ e.propsal_state.f
      → e.propsal_state.f < length e.propsal_state.pre_votes + length ms
      → AreNew ms e.propsal_state.pre_votes
      → All (Counts st mp env vd vote_type_pre_vote e) ms
      → Locks st mp env vd e (deliver ms e)
  votes_lock [] e step follows armed few enough new c = absurd (omega arith)
  votes_lock (m ∷ ms) e step follows armed few enough new c =
      let e' = noted st mp env vd m e in
      let size = length-insert_new m.from m e.propsal_state.pre_votes new.0 in
      elim (Bool-cases (enough_votes e'.propsal_state)) [
        | inl last ↦ last_vote m ms e step follows armed last c
        | inr more ↦
            subst (λ x. Locks st mp env vd e (deliver ms x))
              (sym (on_msg-noted m e step follows more c.0))
              (Locks-noted m e (deliver ms e') (
                votes_lock ms e' step follows armed (ground arith) (rw size (omega arith)) new.1 (
                  All-map ms
                    (λ n. Stays-Counts st mp env vd vote_type_pre_vote n e e' (Stays-noted m e))
                    c.1)))
      ]

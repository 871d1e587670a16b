-- ===== src/Consensus/Handled.antt =====
-- What every handler does to the round's state and to the chain's last block.
use didem.Base.{
  Bool, true, false, not, ◌&&◌, Option, none, some, String, string_eq, ◌≡◌, ◌≢◌, ◌⊎◌, refl, arith,
  Result, ok, err, panic, Exec, continue, ◌>>◌, ◌==◌, nat_eq, inl, inr, ne_of_beq, sym, subst, ap,
}
use didem.Tx.{undef}
use didem.Storage.Store.{Store}
use didem.Consensus.Msg.{Msg, ConsensusMsgVote, ConsensusMsgEvidence, ConsensusMsgBlock}
use didem.Consensus.State.{State, block}
use didem.Consensus.Engine.{Engine, Env, stop_timer, timer_block, modify, on_propsal}
use didem.Consensus.Send.{keep_evidence}
use didem.Consensus.Votes.{
  accept_block, apply_last, set_last, given, last_state, count_vote, on_vote, on_evidence, on_block,
  commit_block, is_step, is_final, when,
}
use didem.Consensus.Frame.{Frames, Frames-logged, Frames-in_store, Frames-stop_timer}
use didem.Consensus.Keeps.{Keeps, Leads}
use didem.Consensus.Invariant.{
  IsConsistent, IsFresh, IsFresh-IsConsistent, vote_of, keep_evidence-IsConsistent,
}
use didem.Consensus.Safety.{is_step-eq, Consistent, Leads-count_vote}

module _ {S M : Type 0} (env : Env) where
  abbrev pub Holds : Engine S M → Type 0
  Holds e = IsConsistent env e.propsal_state e.state.proposer

-- The locked block of a round that got to its last step became the chain's last one.
pub record Committed {S M : Type 0} (e e' : Engine S M) : Type 0 where
  pub step : e.propsal_state.step ≡ block
  pub chosen : e'.state.block_ ≡ e.propsal_state.locked_value
  pub height : e'.state.height ≡ e.propsal_state.height

pub not-true : (b : Bool) → not b ≡ true → b ≡ false
not-true b h = ground arith

and-left : (a b : Bool) → (a && b) ≡ true → a ≡ true
and-left a b h = ground arith

pub and-right : (a b : Bool) → (a && b) ≡ true → b ≡ true
and-right a b h = ground arith

pub record Moves {S M : Type 0} (env : Env) (e e' : Engine S M) : Type 0 where
  pub keeps : Holds env e → Holds env e'
  pub commits : (e'.state.block_ ≡ e.state.block_) ⊎ Committed e e'

-- The round's state stays, and the chain's stays or takes the locked block.
record Settles (s p s' p' : State) : Type 0 where
  pub propsal : p' ≡ p
  pub state : (s' ≡ s) ⊎ (s' ≡ last_state s p)

module _ {S M : Type 0} where
  Frames-when : (b : Bool) (m : Exec (Engine S M) Unit) → Frames m → Frames (when b m)
  Frames-when true m h = h
  Frames-when false m h = record { state = λ e. refl; propsal = λ e. refl }

  continue-Settles :
      (r : Result Unit) (k : Exec (Engine S M) Unit) (e : Engine S M)
      → Settles e.state e.propsal_state (k e).1.state (k e).1.propsal_state
      → Settles e.state e.propsal_state
          (continue r (λ _. k) e).1.state
          (continue r (λ _. k) e).1.propsal_state
  continue-Settles (ok _) k e h = h
  continue-Settles (err _) k e h = record { propsal = refl; state = inl refl }
  continue-Settles panic k e h = record { propsal = refl; state = inl refl }

  Settles-then :
      (m k : Exec (Engine S M) Unit) (e : Engine S M)
      → Frames m
      → ((e' : Engine S M)
          → Settles e'.state e'.propsal_state (k e').1.state (k e').1.propsal_state)
      → Settles e.state e.propsal_state ((m >> k) e).1.state ((m >> k) e).1.propsal_state
  Settles-then m k e h l =
      subst (λ s. Settles s e.propsal_state ((m >> k) e).1.state ((m >> k) e).1.propsal_state)
        (h.state e)
        (subst (λ p. Settles (m e).1.state p ((m >> k) e).1.state ((m >> k) e).1.propsal_state)
          (h.propsal e) (continue-Settles (m e).0 k (m e).1 (l (m e).1)))

  Settles-Moves :
      (env : Env) (e e' : Engine S M)
      → e.propsal_state.step ≡ block
      → Settles e.state e.propsal_state e'.state e'.propsal_state
      → Moves env e e'
  Settles-Moves env e e' b h = record {
    keeps = λ c.
        subst (λ s. IsConsistent env s e'.state.proposer) (sym h.propsal)
          (subst (λ n. IsConsistent env e.propsal_state n)
            (elim h.state [
              | inl q ↦ sym (ap (λ s. s.proposer) q)
              | inr q ↦ sym (ap (λ s. s.proposer) q)
            ])
            c);
    commits = elim h.state [
      | inl q ↦ inl (ap (λ s. s.block_) q)
      | inr q ↦
          inr (record { step = b; chosen = ap (λ s. s.block_) q; height = ap (λ s. s.height) q })
    ];
  }

module _ {S M : Type 0} (env : Env) where
  pub Leads-Moves :
      (m : Exec (Engine S M) Unit) (e : Engine S M)
      → Leads (Consistent env e.state.proposer) (Consistent env e.state.proposer) m
      → Moves env e (m e).1
  Leads-Moves m e l = record {
    keeps = λ h.
        subst (λ s. IsConsistent env (m e).1.propsal_state s.proposer) (sym (l.state e)) (l.at e h);
    commits = inl (ap (λ s. s.block_) (l.state e));
  }

  pub Keeps-Moves :
      (m : Exec (Engine S M) Unit) (e : Engine S M)
      → Keeps (Consistent env e.state.proposer) m
      → Moves env e (m e).1
  Keeps-Moves m e l = Leads-Moves m e (record { at = l.at; state = l.state })

  pub fresh-Moves :
      (m : Exec (Engine S M) Unit) (e : Engine S M)
      → IsFresh (m e).1.propsal_state
      → (m e).1.state.block_ ≡ e.state.block_
      → Moves env e (m e).1
  fresh-Moves m e f b = record {
    keeps = λ _. IsFresh-IsConsistent env (m e).1.propsal_state (m e).1.state.proposer f;
    commits = inl b;
  }

  pub skip-Moves : (e : Engine S M) → Moves env e e
  skip-Moves e = record { keeps = λ h. h; commits = inl refl }

  pub when-Moves :
      (b : Bool) (m : Exec (Engine S M) Unit) (e : Engine S M)
      → (b ≡ true → Moves env e (m e).1)
      → Moves env e (when b m e).1
  when-Moves true m e h = record { keeps = (h refl).keeps; commits = (h refl).commits }
  when-Moves false m e h = record { keeps = λ h. h; commits = inl refl }

  count-Moves :
      (m : Msg) (v : Option ConsensusMsgVote) (e : Engine S M)
      → vote_of m ≡ v
      → env.peer_string m.from ≢ e.state.proposer
      → Moves env e (given v (count_vote env m) e).1
  count-Moves m none e carried other = skip-Moves e
  count-Moves m (some v) e carried other =
      Leads-Moves _ e (Leads-count_vote env e.state.proposer m v carried other)

  pub on_vote-Moves :
      (m : Msg) (v : Option ConsensusMsgVote) (e : Engine S M)
      → vote_of m ≡ v
      → Moves env e ((on_vote env m v (env.peer_string m.from)) e).1
  unfolding on_vote
  on_vote-Moves m v e carried =
      when-Moves (not (env.peer_string m.from == e.state.proposer)) (given v (count_vote env m)) e
        (λ h. count-Moves m v e carried (ne_of_beq _ _ (not-true _ h)))

  note-Moves :
      (v : Option ConsensusMsgEvidence) (from : String) (e : Engine S M)
      → Moves env e (given v (λ m. on_propsal (keep_evidence m.vote.type from m)) e).1
  note-Moves none from e = skip-Moves e
  note-Moves (some m) from e = record {
    keeps =
        λ h. keep_evidence-IsConsistent env e.state.proposer e.propsal_state h m.vote.type from m;
    commits = inl refl;
  }

  pub on_evidence-Moves :
      (v : Option ConsensusMsgEvidence) (from : String) (e : Engine S M)
      → Moves env e ((on_evidence env v from) e).1
  unfolding on_evidence
  on_evidence-Moves v from e =
      when-Moves (from == e.state.proposer)
        (given v (λ m. on_propsal (keep_evidence m.vote.type from m))) e (λ _. note-Moves v from e)

  module _ (st : Store S) where
    commit_block-Settles :
        (e : Engine S M)
        → Settles e.state e.propsal_state
            (commit_block env st e).1.state
            (commit_block env st e).1.propsal_state
    unfolding commit_block
    commit_block-Settles e =
        let b = e.propsal_state.locked_value in
        Settles-then (accept_block env st b)
          (stop_timer timer_block >> (apply_last env st b >> modify set_last)) e
          (Frames-when (not (b == undef)) _ (Frames-logged _ (Frames-in_store _)))
          (λ e1.
            Settles-then (stop_timer timer_block) (apply_last env st b >> modify set_last) e1
              (Frames-stop_timer timer_block)
              (λ e2.
                Settles-then (apply_last env st b) (modify set_last) e2
                  (Frames-logged _ (Frames-in_store _))
                  (λ e3. record { propsal = refl; state = inr refl })))

    commit_block-Moves :
        (e : Engine S M) → e.propsal_state.step ≡ block → Moves env e (commit_block env st e).1
    commit_block-Moves e h =
        Settles-Moves env e (commit_block env st e).1 h (commit_block-Settles e)

    final-Moves :
        (v : Option ConsensusMsgBlock) (e : Engine S M)
        → e.propsal_state.step ≡ block
        → Moves env e
            (given v (λ m. when (is_final env m e.propsal_state) (commit_block env st)) e).1
    final-Moves none e h = skip-Moves e
    final-Moves (some m) e h =
        when-Moves (is_final env m e.propsal_state) (commit_block env st) e
          (λ _. commit_block-Moves e h)

    pub on_block-Moves :
        (v : Option ConsensusMsgBlock) (from : String) (e : Engine S M)
        → Moves env e ((on_block env st v from) e).1
    unfolding on_block
    on_block-Moves v from e =
        when-Moves (from == e.state.proposer && is_step e.propsal_state.step block)
          (given v (λ m. when (is_final env m e.propsal_state) (commit_block env st))) e
          (λ h. final-Moves v e (is_step-eq _ _ (and-right _ _ h)))

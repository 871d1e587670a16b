-- ===== src/Consensus/Keeps.antt =====
-- Actions that keep a property of the round's state; the chain's state stays as it is.
use didem.Base.{
  Bool, true, false, Result, ok, err, panic, Exec, continue, ◌>>=◌, ◌>>◌, ◌≡◌, refl, ◌∙◌,
  if◌then◌else◌, subst, sym, Bool-cases, inl, inr, ◌==◌, nat_eq,
}
use didem.Resync.{Once}
use didem.Consensus.State.{State}
use didem.Consensus.Engine.{
  Engine, wrapped_in, logged, on_propsal, reading, restart_timer, set_timer, Timer, do_pv_once,
  do_pc_once, do_sb_once,
}
use didem.Consensus.Frame.{Frames}
use didem.Consensus.Votes.{when}

pub record Keeps {S M A : Type 0} (P : State → Type 0) (m : Exec (Engine S M) A) : Type 0 where
  pub at : (e : Engine S M) → P e.propsal_state → P (m e).1.propsal_state
  pub state : (e : Engine S M) → (m e).1.state ≡ e.state

module _ {S M A : Type 0} (P : State → Type 0) where
  pub Keeps-Frames : (m : Exec (Engine S M) A) → Frames m → Keeps P m
  Keeps-Frames m h = record { at = λ e p. subst P (sym (h.propsal e)) p; state = λ e. h.state e }

  pub Keeps-reading :
      (f : Engine S M → Exec (Engine S M) A)
      → ((e : Engine S M) → Keeps P (f e))
      → Keeps P (reading f)
  Keeps-reading f h = record { at = λ e p. (h e).at e p; state = λ e. (h e).state e }

  pub Keeps-if :
      (b : Bool) (m n : Exec (Engine S M) A) → Keeps P m → Keeps P n → Keeps P (if b then m else n)
  Keeps-if true m n h k = h
  Keeps-if false m n h k = k

  pub Keeps-wrapped_in : (m : Exec (Engine S M) A) → Keeps P m → Keeps P (wrapped_in m)
  Keeps-wrapped_in m h = record { at = h.at; state = h.state }

module _ {S M : Type 0} (P : State → Type 0) where
  pub Keeps-on_propsal :
      (f : State → State) → ((s : State) → P s → P (f s)) → Keeps {S = S} {M = M} P (on_propsal f)
  Keeps-on_propsal f h = record { at = λ e p. h e.propsal_state p; state = λ e. refl }

  pub Keeps-logged : (m : Exec (Engine S M) Unit) → Keeps P m → Keeps P (logged m)
  Keeps-logged m h = record { at = h.at; state = h.state }

  pub Keeps-when : (b : Bool) (m : Exec (Engine S M) Unit) → Keeps P m → Keeps P (when b m)
  Keeps-when true m h = record { at = h.at; state = h.state }
  Keeps-when false m h = record { at = λ e p. p; state = λ e. refl }

module _ {S M : Type 0} (P : State → Type 0) where
  pub Keeps-do_pv_once :
      ((s : State) (o : Once) → P s → P (record s { pv_once = o }))
      → (f : Exec (Engine S M) Unit) → Keeps P f
      → Keeps P (do_pv_once f)
  unfolding do_pv_once
  Keeps-do_pv_once stable f h = record {
    at = λ e p. elim (Bool-cases (e.propsal_state.pv_once.done == 1)) [
      | inl done ↦ rw done p
      | inr more ↦ rw more (stable (f e).1.propsal_state _ (h.at e p))
    ];
    state = λ e. elim (Bool-cases (e.propsal_state.pv_once.done == 1)) [
      | inl done ↦ rw done
      | inr more ↦ rw more (h.state e)
    ];
  }

  pub Keeps-do_pc_once :
      ((s : State) (o : Once) → P s → P (record s { pc_once = o }))
      → (f : Exec (Engine S M) Unit) → Keeps P f
      → Keeps P (do_pc_once f)
  unfolding do_pc_once
  Keeps-do_pc_once stable f h = record {
    at = λ e p. elim (Bool-cases (e.propsal_state.pc_once.done == 1)) [
      | inl done ↦ rw done p
      | inr more ↦ rw more (stable (f e).1.propsal_state _ (h.at e p))
    ];
    state = λ e. elim (Bool-cases (e.propsal_state.pc_once.done == 1)) [
      | inl done ↦ rw done
      | inr more ↦ rw more (h.state e)
    ];
  }

  pub Keeps-do_sb_once :
      ((s : State) (o : Once) → P s → P (record s { sb_once = o }))
      → (f : Exec (Engine S M) Unit) → Keeps P f
      → Keeps P (do_sb_once f)
  unfolding do_sb_once
  Keeps-do_sb_once stable f h = record {
    at = λ e p. elim (Bool-cases (e.propsal_state.sb_once.done == 1)) [
      | inl done ↦ rw done p
      | inr more ↦ rw more (stable (f e).1.propsal_state _ (h.at e p))
    ];
    state = λ e. elim (Bool-cases (e.propsal_state.sb_once.done == 1)) [
      | inl done ↦ rw done
      | inr more ↦ rw more (h.state e)
    ];
  }

module _ {S M A B : Type 0} (P : State → Type 0) where
  continue-at :
      (r : Result A) (f : A → Exec (Engine S M) B) (e : Engine S M)
      → ((a : A) → Keeps P (f a))
      → P e.propsal_state
      → P (continue r f e).1.propsal_state
  continue-at (ok a) f e h p = (h a).at e p
  continue-at (err x) f e h p = p
  continue-at panic f e h p = p

  continue-state :
      (r : Result A) (f : A → Exec (Engine S M) B) (e : Engine S M)
      → ((a : A) → Keeps P (f a))
      → (continue r f e).1.state ≡ e.state
  continue-state (ok a) f e h = (h a).state e
  continue-state (err x) f e h = refl
  continue-state panic f e h = refl

  pub Keeps-bind :
      (m : Exec (Engine S M) A) (f : A → Exec (Engine S M) B)
      → Keeps P m
      → ((a : A) → Keeps P (f a))
      → Keeps P (m >>= f)
  Keeps-bind m f h k = record {
    at = λ e p. continue-at (m e).0 f (m e).1 k (h.at e p);
    state = λ e. continue-state (m e).0 f (m e).1 k ∙ h.state e;
  }

module _ {S M : Type 0} (P : State → Type 0) where
  pub Keeps-then :
      (m : Exec (Engine S M) Unit) (k : Exec (Engine S M) Unit)
      → Keeps P m
      → Keeps P k
      → Keeps P (m >> k)
  Keeps-then m k h l = Keeps-bind P m (λ _. k) h (λ _. l)

pub ruleset keeps_rules = (
  Keeps-Frames, Keeps-reading, Keeps-if, Keeps-wrapped_in, Keeps-on_propsal, Keeps-logged,
  Keeps-when, Keeps-bind, Keeps-then,
)

-- From one property of the round's state to another.
pub record Leads {S M : Type 0} (P Q : State → Type 0) (m : Exec (Engine S M) Unit) : Type 0 where
  pub at : (e : Engine S M) → P e.propsal_state → Q (m e).1.propsal_state
  pub state : (e : Engine S M) → (m e).1.state ≡ e.state

module _ {S M : Type 0} (P Q : State → Type 0) where
  pub Leads-when_restart :
      (b : Bool) (t : Timer) (k : Exec (Engine S M) Unit)
      → Leads P Q k
      → Leads P Q (when b (restart_timer t) >> k)
  unfolding restart_timer
  Leads-when_restart true t k h = record {
    at = λ e p. h.at (record e { timers = set_timer t true e.timers }) p;
    state = λ e. h.state (record e { timers = set_timer t true e.timers });
  }
  Leads-when_restart false t k h = record { at = h.at; state = h.state }

  pub Leads-on_propsal :
      (R : State → Type 0) (f : State → State) (k : Exec (Engine S M) Unit)
      → ((s : State) → P s → R (f s))
      → Leads R Q k
      → Leads P Q (on_propsal f >> k)
  Leads-on_propsal R f k step h = record {
    at = λ e p. h.at (record e { propsal_state = f e.propsal_state }) (step e.propsal_state p);
    state = λ e. h.state (record e { propsal_state = f e.propsal_state });
  }

  -- a test of the round's state adds to what is known
  pub Leads-reading-when :
      (test : State → Bool) (m : Engine S M → Exec (Engine S M) Unit)
      → ((s : State) → P s → Q s)
      → ((e : Engine S M) → Leads (λ s. P s × (test s ≡ true)) Q (m e))
      → Leads P Q (reading (λ e. when (test e.propsal_state) (m e)))
  Leads-reading-when test m skip h = record {
    at = λ e p. elim (Bool-cases (test e.propsal_state)) [
      | inl y ↦ rw y ((h e).at e (p, y))
      | inr n ↦ rw n (skip e.propsal_state p)
    ];
    state = λ e. elim (Bool-cases (test e.propsal_state)) [
      | inl y ↦ rw y ((h e).state e)
      | inr n ↦ rw n
    ];
  }

  -- the same for a test that the round's state has no part in
  pub Leads-when :
      (b : Bool) (m : Exec (Engine S M) Unit)
      → ((s : State) → P s → Q s)
      → (b ≡ true → Leads P Q m)
      → Leads P Q (when b m)
  Leads-when true m skip h = h refl
  Leads-when false m skip h = record { at = λ e p. skip e.propsal_state p; state = λ e. refl }

  pub Leads-Keeps :
      (R : State → Type 0) (m : Exec (Engine S M) Unit)
      → ((s : State) → P s → R s)
      → ((s : State) → R s → Q s)
      → Keeps R m
      → Leads P Q m
  Leads-Keeps R m in_ out h = record { at = λ e p. out _ (h.at e (in_ _ p)); state = h.state }

  next_at :
      (R : State → Type 0) (r : Result Unit) (k : Exec (Engine S M) Unit) (e : Engine S M)
      → ((s : State) → R s → Q s)
      → Leads R Q k
      → R e.propsal_state
      → Q (continue r (λ _. k) e).1.propsal_state
  next_at R (ok _) k e out l p = l.at e p
  next_at R (err _) k e out l p = out _ p
  next_at R panic k e out l p = out _ p

  next_state :
      (R : State → Type 0) (r : Result Unit) (k : Exec (Engine S M) Unit) (e : Engine S M)
      → Leads R Q k
      → (continue r (λ _. k) e).1.state ≡ e.state
  next_state R (ok _) k e l = l.state e
  next_state R (err _) k e l = refl
  next_state R panic k e l = refl

  pub Leads-then :
      (R : State → Type 0) (m k : Exec (Engine S M) Unit)
      → ((s : State) → R s → Q s)
      → Leads P R m
      → Leads R Q k
      → Leads P Q (m >> k)
  Leads-then R m k out h l = record {
    at = λ e p. next_at R (m e).0 k (m e).1 out l (h.at e p);
    state = λ e. next_state R (m e).0 k (m e).1 l ∙ h.state e;
  }

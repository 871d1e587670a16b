-- ===== src/Consensus/Frame.antt =====
-- The actions that leave the states of the engine alone: timers, sending, the stores.
use didem.Base.{
  Bool, true, false, Result, ok, err, panic, Exec, continue, ◌>>=◌, pure, lift, ◌≡◌, refl, ◌∙◌,
  if◌then◌else◌, String, List, [], ◌∷◌, arith, ℕ,
}
use didem.Tx.{Bytes, Tx}
use didem.Storage.Store.{Store}
use didem.Consensus.Msg.{VoteType}
use didem.Consensus.Engine.{
  Engine, Env, MemPool, Validator, Timer, in_store, wrapped_in, logged, reading, restart_timer,
  stop_timer,
}
use didem.Consensus.Send.{
  Outgoing, block, send_msg, send_new_round, send_proposal, send_vote, send_block, block_msg,
  signed_msg,
}
use didem.Consensus.Blocks.{make_block, fill_block, store_txs, take_from_pool}
use didem.Consensus.Handlers.{validate}

pub record Frames {S M A : Type 0} (m : Exec (Engine S M) A) : Type 0 where
  pub state : (e : Engine S M) → (m e).1.state ≡ e.state
  pub propsal : (e : Engine S M) → (m e).1.propsal_state ≡ e.propsal_state

module _ {S M A : Type 0} where
  pub Frames-pure : (a : A) → Frames {S = S} {M = M} (pure a)
  Frames-pure a = record { state = λ e. refl; propsal = λ e. refl }

  pub Frames-lift : (r : Result A) → Frames {S = S} {M = M} (lift r)
  Frames-lift r = record { state = λ e. refl; propsal = λ e. refl }

  pub Frames-in_store : (f : Exec S A) → Frames {M = M} (in_store f)
  Frames-in_store f = record { state = λ e. refl; propsal = λ e. refl }

  pub Frames-wrapped_in : (m : Exec (Engine S M) A) → Frames m → Frames (wrapped_in m)
  Frames-wrapped_in m h = record { state = h.state; propsal = h.propsal }

module _ {S M : Type 0} where
  pub Frames-logged : (m : Exec (Engine S M) Unit) → Frames m → Frames (logged m)
  Frames-logged m h = record { state = h.state; propsal = h.propsal }

  pub Frames-restart_timer : (t : Timer) → Frames {S = S} {M = M} (restart_timer t)
  unfolding restart_timer
  Frames-restart_timer t = record { state = λ e. refl; propsal = λ e. refl }

  pub Frames-stop_timer : (t : Timer) → Frames {S = S} {M = M} (stop_timer t)
  unfolding stop_timer
  Frames-stop_timer t = record { state = λ e. refl; propsal = λ e. refl }

module _ {S M A B : Type 0} where
  continue-state :
      (r : Result A) (f : A → Exec (Engine S M) B) (e : Engine S M)
      → ((a : A) → Frames (f a))
      → (continue r f e).1.state ≡ e.state
  continue-state (ok a) f e h = (h a).state e
  continue-state (err x) f e h = refl
  continue-state panic f e h = refl

  continue-propsal :
      (r : Result A) (f : A → Exec (Engine S M) B) (e : Engine S M)
      → ((a : A) → Frames (f a))
      → (continue r f e).1.propsal_state ≡ e.propsal_state
  continue-propsal (ok a) f e h = (h a).propsal e
  continue-propsal (err x) f e h = refl
  continue-propsal panic f e h = refl

  pub Frames-bind :
      (m : Exec (Engine S M) A) (f : A → Exec (Engine S M) B)
      → Frames m
      → ((a : A) → Frames (f a))
      → Frames (m >>= f)
  Frames-bind m f h k = record {
    state = λ e. continue-state (m e).0 f (m e).1 k ∙ h.state e;
    propsal = λ e. continue-propsal (m e).0 f (m e).1 k ∙ h.propsal e;
  }

module _ {S M A : Type 0} where
  pub Frames-reading :
      (f : Engine S M → Exec (Engine S M) A)
      → ((e : Engine S M) → Frames (f e))
      → Frames (reading f)
  Frames-reading f h = record { state = λ e. (h e).state e; propsal = λ e. (h e).propsal e }

  pub Frames-if :
      (b : Bool) (m n : Exec (Engine S M) A) → Frames m → Frames n → Frames (if b then m else n)
  Frames-if true m n h k = h
  Frames-if false m n h k = k

pub ruleset frame_rules = (
  Frames-pure, Frames-lift, Frames-in_store, Frames-wrapped_in, Frames-logged, Frames-restart_timer,
  Frames-stop_timer, Frames-bind, Frames-reading, Frames-if,
)

module _ {S M : Type 0} (env : Env) where
  pub Frames-send_msg : (m : Outgoing) → Frames {S = S} {M = M} (send_msg env m)
  unfolding send_msg signed_msg
  Frames-send_msg m = record { state = λ e. ground arith; propsal = λ e. ground arith }

  pub Frames-send_new_round : Frames {S = S} {M = M} (send_new_round env)
  unfolding send_new_round
  Frames-send_new_round = record { state = λ e. ground arith; propsal = λ e. ground arith }

  pub Frames-send_proposal : Frames {S = S} {M = M} (send_proposal env)
  unfolding send_proposal
  Frames-send_proposal = record { state = λ e. ground arith; propsal = λ e. ground arith }

  pub Frames-send_vote :
      (t : VoteType) (value : String) → Frames {S = S} {M = M} (send_vote env t value)
  unfolding send_vote
  Frames-send_vote t value = record { state = λ e. ground arith; propsal = λ e. ground arith }

  module _ (st : Store S) where
    pub Frames-send_block : Frames {M = M} (send_block env st)
    unfolding send_block
    Frames-send_block = record {
      state = λ e.
          continue-state (block_msg env st e) _ e
            (λ m. Frames-bind _ _ (Frames-send_msg (block m)) (λ _. Frames-pure m));
      propsal = λ e.
          continue-propsal (block_msg env st e) _ e
            (λ m. Frames-bind _ _ (Frames-send_msg (block m)) (λ _. Frames-pure m));
    }

    module _ (mp : MemPool M) where
      Frames-store_txs : (txs : List Tx) → Frames (store_txs st mp env txs)
      unfolding store_txs
      Frames-store_txs [] = search frame_rules
      Frames-store_txs (t ∷ txs) =
          Frames-bind _ _ (search frame_rules)
            (λ id. Frames-bind _ _ (Frames-store_txs txs) (λ ids. Frames-pure _))

      Frames-take_from_pool : (n : ℕ) → Frames {S = S} (take_from_pool st mp env n)
      Frames-take_from_pool n = record { state = λ e. refl; propsal = λ e. refl }

      Frames-fill_block : (n : ℕ) (nonce : Bytes) → Frames (fill_block st mp env n nonce)
      unfolding fill_block
      Frames-fill_block n nonce =
          search (frame_rules, Frames-take_from_pool, Frames-store_txs) depth 14

      pub Frames-make_block : Frames (make_block st mp env)
      unfolding make_block
      Frames-make_block = search (frame_rules, Frames-fill_block) depth 8

      pub Frames-validate :
          (vd : Validator S) (value : String) → Frames {M = M} (validate st mp env vd value)
      unfolding validate
      Frames-validate vd value = record { state = λ e. ground arith; propsal = λ e. ground arith }

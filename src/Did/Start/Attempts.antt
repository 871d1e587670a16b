-- ===== src/Did/Start/Attempts.antt =====
-- What `Start` of internal/did/handler.go comes to.
use didem.Base.{
  ℕ, zero, suc, ◌+◌, ◌<◌, false, Option, none, some, List, [], ◌∷◌, ◌++◌, String, replicate,
  length-replicate, starts_with, Result, ok, err, panic, Exec, ◌>>=◌, Result-cases, Bool-cases, inl,
  inr, ◌≡◌, ◌≢◌, ◌∙◌, refl, ap, arith, ◌==◌, string_eq, continue,
}
use didem.W3cdid.Url.{text_bytes}
use didem.Tx.{Bytes, Cid}
use didem.Storage.Store.{Store}
use didem.Storage.Validator.{ValidatorEnv}
use didem.Consensus.Msg.{PeerId}
use didem.Consensus.Channels.{Router}
use didem.Did.Start.{
  Attempt, Handler, TipEnv, required_peers, gather, unanimous, the_tip, tips_of, decide, with_peers,
  catch_up, start_consensus, use_tip, start,
}

replicate-snoc : (k : ℕ) (p : PeerId) → replicate k p ++ (p ∷ []) ≡ replicate (suc k) p
replicate-snoc zero p = refl
replicate-snoc (suc k) p = ap (λ l. p ∷ l) (replicate-snoc k p)

gather-replicate :
    (need k m : ℕ) (p : PeerId)
    → k + suc m ≡ need
    → gather need (replicate k p) (replicate (suc m) ((p, false) ∷ [])) ≡ some (replicate need p)
unfolding gather
gather-replicate need k zero p e =
    let e' : need ≡ suc k = omega arith in
    rw (replicate-snoc k p, e') (ground (arith, length-replicate k p))
gather-replicate need k (suc m) p e =
    let rest = gather-replicate need (suc k) m p (omega arith) in
    rw (replicate-snoc k p) (ground (arith, rest, length-replicate k p))

-- The loop counts a peer again in every round: a lone peer that stays connected makes up any number
-- of peers after as many rounds, and is then the only one among them.
pub gather-lone_peer :
    (need : ℕ) (p : PeerId)
    → 0 < need
    → gather need [] (replicate need ((p, false) ∷ [])) ≡ some (replicate need p)
gather-lone_peer zero p h = absurd (omega arith)
gather-lone_peer (suc n) p h = gather-replicate (suc n) 0 n p (omega arith)

unanimous_ten : (l : List (String × ℕ)) → unanimous 10 l ≡ false
unanimous_ten l = ground arith

ten_required : (c : Bytes) → starts_with (text_bytes "test") c ≡ false → required_peers c ≡ 10
unfolding required_peers
ten_required c main = rw main refl

-- The engine's state is left alone.
abbrev pub KeepsState : {S M R T A : Type 0} → Exec (Handler S M R T) A → Type 0
KeepsState {S} {M} {R} {T} f = (h : Handler S M R T) → (f h).1.engine.state ≡ h.engine.state

module _ {S M R T A B : Type 0} where
  continue-KeepsState :
      (r : Result A) (f : A → Exec (Handler S M R T) B)
      → ((a : A) → KeepsState (f a))
      → KeepsState (continue r f)
  continue-KeepsState (ok a) f k h = k a h
  continue-KeepsState (err e) f k h = refl
  continue-KeepsState panic f k h = refl

  >>=-KeepsState :
      (m : Exec (Handler S M R T) A) (f : A → Exec (Handler S M R T) B)
      → KeepsState m
      → ((a : A) → KeepsState (f a))
      → KeepsState (m >>= f)
  >>=-KeepsState m f k l h = continue-KeepsState (m h).0 f l (m h).1 ∙ k h

module _ {S M R T : Type 0} (st : Store S) (venv : ValidatorEnv) (net : Router R T)
    (env : TipEnv) where
  with_peers-main_net :
      {C : Type 0} (w : Attempt C) (again : Exec (Handler S M R T) Unit) (o : Option (List PeerId))
      (h : Handler S M R T)
      → starts_with (text_bytes "test") h.engine.chain ≡ false
      → ((again h).0 ≢ ok tt) × ((again h).1 ≡ h)
      → ((with_peers st venv net env w again o h).0 ≢ ok tt)
        × ((with_peers st venv net env w again o h).1 ≡ h)
  with_peers-main_net w again none h main rest = (λ p. cc, refl)
  with_peers-main_net w again (some peers) h main rest =
      elim (Result-cases (tips_of w h.engine.chain peers)) [
        | inl (tips, a) ↦
            let never : unanimous (required_peers h.engine.chain) tips ≡ false =
              rw (ten_required h.engine.chain main) (unanimous_ten tips) in
            rw (a, never) rest
        | inr (inl (x, a)) ↦ rw a (λ p. cc, refl)
        | inr (inr a) ↦ rw a (λ p. cc, refl)
      ]

  -- On a chain whose name does not begin with "test", `Start` starts nothing whatever it meets: it
  -- waits, tries again or gives an error, and the engine, its store and its channels stay as they are.
  pub start-main_net :
      {C : Type 0} (ws : List (Attempt C)) (h : Handler S M R T)
      → starts_with (text_bytes "test") h.engine.chain ≡ false
      → ((start st venv net env ws h).0 ≢ ok tt) × ((start st venv net env ws h).1 ≡ h)
  unfolding start
  start-main_net [] h main = (λ p. cc, refl)
  start-main_net (w ∷ ws) h main =
      with_peers-main_net w (start st venv net env ws)
        (gather (required_peers h.engine.chain) [] w.rounds) h main (start-main_net ws h main)

  catch_up-KeepsState : (o : Option Cid) → KeepsState (catch_up {M = M} st venv net env o)
  catch_up-KeepsState none h = refl
  catch_up-KeepsState (some id) h = refl

  start_consensus-KeepsState : KeepsState (start_consensus {M = M} st venv net env)
  unfolding start_consensus
  start_consensus-KeepsState h = refl

  use_tip-KeepsState : (t : String) → KeepsState (use_tip {M = M} st venv net env t)
  unfolding use_tip
  use_tip-KeepsState t h =
      let starts = start_consensus-KeepsState in
      elim (Bool-cases (t == env.cid_string h.engine.state.block_)) [
        | inl same ↦ rw same (starts h)
        | inr other ↦ rw other (
            >>=-KeepsState (catch_up st venv net env (env.cid_parse t)) _
              (catch_up-KeepsState (env.cid_parse t)) (λ _. starts) h)
      ]

  decide-KeepsState :
      (again : Exec (Handler S M R T) Unit) (tips : List (String × ℕ))
      → KeepsState again
      → KeepsState (decide st venv net env again tips)
  decide-KeepsState again tips k h =
      elim (Bool-cases (unanimous (required_peers h.engine.chain) tips)) [
        | inl t ↦ rw t (use_tip-KeepsState (the_tip tips) h)
        | inr f ↦ rw f (k h)
      ]

  with_peers-KeepsState :
      {C : Type 0} (w : Attempt C) (again : Exec (Handler S M R T) Unit) (o : Option (List PeerId))
      → KeepsState again
      → KeepsState (with_peers st venv net env w again o)
  with_peers-KeepsState w again none k h = refl
  with_peers-KeepsState w again (some peers) k h =
      continue-KeepsState (tips_of w h.engine.chain peers) (decide st venv net env again)
        (λ tips. decide-KeepsState again tips k) h

  -- Whatever `Start` meets and applies to the store, the state of the engine is the one that it was
  -- restored with: an engine that has caught up with another tip starts from the block before it.
  pub start-keeps_state :
      {C : Type 0} (ws : List (Attempt C)) (h : Handler S M R T)
      → (start st venv net env ws h).1.engine.state ≡ h.engine.state
  unfolding start
  start-keeps_state [] h = refl
  start-keeps_state (w ∷ ws) h =
      with_peers-KeepsState w (start st venv net env ws)
        (gather (required_peers h.engine.chain) [] w.rounds) (start-keeps_state ws) h

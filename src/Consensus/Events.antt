-- ===== src/Consensus/Events.antt =====
-- What happens to an engine: `Start`, `watchProposer`, `watchTimeouts`, `subscribeMsgs` and
-- `subscribeTx` of pkg/did/consensus/consensus.go, one event at a time.
use didem.Base.{ℕ, ◌-◌, Bool, true, ◌≡◌, Exec, ◌>>◌, ltb}
use didem.Storage.Store.{Store}
use didem.Consensus.Msg.{Msg}
use didem.Consensus.State.{zero_state}
use didem.Consensus.Engine.{
  Engine, Env, MemPool, Validator, Timer, timer_propose, timer_prevote, timer_precommit,
  timer_block, modify, stop_timer, is_set, stopped,
}
use didem.Consensus.Round.{on_beacon}
use didem.Consensus.Handlers.{
  on_msg, on_timeout_proposal, on_timeout_prevote, on_timeout_precommit, on_timeout_block, on_grace,
}

-- `outside` is what others do to the store and the pool, which the engine shares with them.
pub data Event (S M : Type 0) : Type 0 where
  message : Msg → Event S M
  beacon : ℕ → Event S M
  timeout : Timer → Event S M
  grace_over : Event S M
  outside : S → M → Event S M

module _ {S M : Type 0} (st : Store S) (mp : MemPool M) (env : Env) (vd : Validator S) where
  -- `watchTimeouts`
  unfoldable pub by_timer : Timer → Exec (Engine S M) Unit
  by_timer timer_propose = on_timeout_proposal st mp env vd
  by_timer timer_prevote = on_timeout_prevote st mp env vd
  by_timer timer_precommit = on_timeout_precommit st mp env vd
  by_timer timer_block = on_timeout_block st mp env vd

  unfoldable pub handle : Event S M → Exec (Engine S M) Unit
  handle (message m) = on_msg st mp env vd m
  handle (beacon b) = on_beacon st mp env b
  handle (timeout t) = stop_timer t >> by_timer t
  handle grace_over = modify (λ e. record e { grace = e.grace - 1 }) >> on_grace st mp env vd
  handle (outside s p) = modify (λ e. record e { store = s; mem_pool = p })

  -- A tick comes of a timer that was started, and the end of a grace period of a call that is due.
  unfoldable pub is_enabled : Event S M → Engine S M → Bool
  is_enabled (timeout t) e = is_set t e.timers
  is_enabled grace_over e = ltb 0 e.grace
  is_enabled _ e = true

  -- the engines that a sequence of events leads to; an event that ends in a panic counts too
  pub data Reach (start : Engine S M) : Engine S M → Type 0 where
    here : Reach start start
    next :
        {e : Engine S M} (ev : Event S M)
        → Reach start e
        → is_enabled ev e ≡ true
        → Reach start (handle ev e).1

-- An engine as `NewConsensus` leaves it: no round has begun.
abbrev pub IsNew : {S M : Type 0} → Engine S M → Type 0
IsNew e = (e.propsal_state ≡ zero_state) × (e.timers ≡ stopped) × (e.grace ≡ 0)

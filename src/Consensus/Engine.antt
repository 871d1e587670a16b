-- ===== src/Consensus/Engine.antt =====
-- The engine of pkg/did/consensus/consensus.go: its fields, its timers, and what it takes from
-- outside.
use didem.Base.{ℕ, Bool, true, false, Option, List, String, Result, ok, panic, Exec, wrapped}
use didem.Resync.{do_once}
use didem.Tx.{Cid, Bytes, Int64, Tx}
use didem.Storage.Chain.{Block, GenesisInfo}
use didem.Storage.TxSet.{ChainEnv}
use didem.Consensus.Msg.{PeerId, Msg}
use didem.Consensus.State.{State}

-- the `MemPool` interface
pub record MemPool (M : Type 0) : Type 0 where
  pub add_tx : Tx → Int64 → Exec M Unit
  pub get_tx : M → Option Tx × M
  pub len : M → ℕ

-- what the engine calls of the `Validator` interface
pub record Validator (S : Type 0) : Type 0 where
  pub is_block_valid : Block → Bool → Exec S Unit

-- The libraries for peers, CIDs, encodings and signatures, the network and the clock. `none` is an
-- error.
pub record Env : Type 0 where
  pub peer_string : PeerId → String
  pub peer_bytes : PeerId → Option Bytes
  pub cid_string : Cid → String
  pub cid_parse : String → Option Cid
  pub marshal_msg : Msg → Option Bytes
  pub sign : Bytes → Bytes → Option Bytes
  pub decode_multibase : Bytes → Option Bytes
  pub is_public_key : Bytes → Bool
  pub verify : Bytes → Bytes → Bytes → Bool
  pub aggregate_keys : List Bytes → Option Bytes
  pub aggregate_signatures : List Bytes → Option Bytes
  pub publish : Msg → Result Unit
  pub now : ℕ
  pub chain_env : ChainEnv

-- Whether each timer is running or has a tick that is not read yet.
pub record Timers : Type 0 where
  pub propose : Bool
  pub prevote : Bool
  pub precommit : Bool
  pub block : Bool

abbrev pub stopped : Timers
stopped = record { propose = false; prevote = false; precommit = false; block = false }

pub record Engine (S M : Type 0) : Type 0 where
  pub chain : Bytes
  pub id : PeerId
  pub signing_key : Option Bytes
  pub genesis : Option GenesisInfo
  pub mem_pool : M
  pub store : S
  pub state : State
  pub propsal_state : State
  pub timers : Timers
  -- the calls of `time.AfterFunc` that are still to come
  pub grace : ℕ
  -- what was published, the newest first
  pub sent : List Msg

-- an error is logged, and the work goes on
abbrev pub log_error : Result Unit → Result Unit
log_error panic = panic
log_error _ = ok tt

module _ {S M : Type 0} where
  abbrev pub logged : Exec (Engine S M) Unit → Exec (Engine S M) Unit
  logged f e = let (r, e') = f e in (log_error r, e')

  -- an action that looks at the engine first
  abbrev pub reading : {A : Type 0} → (Engine S M → Exec (Engine S M) A) → Exec (Engine S M) A
  reading f e = f e e

  abbrev pub modify : (Engine S M → Engine S M) → Exec (Engine S M) Unit
  modify f e = (ok tt, f e)

  abbrev pub on_propsal : (State → State) → Exec (Engine S M) Unit
  on_propsal f e = (ok tt, record e { propsal_state = f e.propsal_state })

  abbrev pub on_timers : (Timers → Timers) → Exec (Engine S M) Unit
  on_timers f e = (ok tt, record e { timers = f e.timers })

  abbrev pub in_store : {A : Type 0} → Exec S A → Exec (Engine S M) A
  in_store f e = let (r, s) = f e.store in (r, record e { store = s })

  abbrev pub wrapped_in : {A : Type 0} → Exec (Engine S M) A → Exec (Engine S M) A
  wrapped_in f e = let (r, e') = f e in (wrapped r, e')

pub data Timer : Type 0 where
  timer_propose timer_prevote timer_precommit timer_block : Timer

abbrev pub set_timer : Timer → Bool → Timers → Timers
set_timer timer_propose b t = record t { propose = b }
set_timer timer_prevote b t = record t { prevote = b }
set_timer timer_precommit b t = record t { precommit = b }
set_timer timer_block b t = record t { block = b }

abbrev pub is_set : Timer → Timers → Bool
is_set timer_propose t = t.propose
is_set timer_prevote t = t.prevote
is_set timer_precommit t = t.precommit
is_set timer_block t = t.block

module _ {S M : Type 0} where
  -- `restartTimer`: the duration is left out
  unfoldable pub restart_timer : Timer → Exec (Engine S M) Unit
  restart_timer t e = (ok tt, record e { timers = set_timer t true e.timers })

  -- `stopTimer`: a tick that is not read yet is dropped
  unfoldable pub stop_timer : Timer → Exec (Engine S M) Unit
  stop_timer t e = (ok tt, record e { timers = set_timer t false e.timers })

  -- `pvOnce.Do`, `pcOnce.Do` and `sbOnce.Do`
  unfoldable pub do_pv_once : Exec (Engine S M) Unit → Exec (Engine S M) Unit
  unfolding do_once
  do_pv_once =
      do_once (λ e. e.propsal_state.pv_once)
        (λ o e. record e { propsal_state = record (e.propsal_state) { pv_once = o } })

  unfoldable pub do_pc_once : Exec (Engine S M) Unit → Exec (Engine S M) Unit
  unfolding do_once
  do_pc_once =
      do_once (λ e. e.propsal_state.pc_once)
        (λ o e. record e { propsal_state = record (e.propsal_state) { pc_once = o } })

  unfoldable pub do_sb_once : Exec (Engine S M) Unit → Exec (Engine S M) Unit
  unfolding do_once
  do_sb_once =
      do_once (λ e. e.propsal_state.sb_once)
        (λ o e. record e { propsal_state = record (e.propsal_state) { sb_once = o } })

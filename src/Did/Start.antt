-- ===== src/Did/Start.antt =====
-- internal/did/handler.go: NewHandler, and Start with its attempts to find the tip of the chain.
pub mod Attempts
pub mod TestNet
use didem.Base.{
  ℕ, ◌+◌, ◌&&◌, Bool, true, false, Option, none, some, List, [], ◌∷◌, ◌++◌, String, string_eq,
  nat_eq, ◌==◌, nat_eqb, ltb, take, length, if◌then◌else◌, Error, Result, ok, err, panic, Exec,
  pure, ◌>>=◌, continue, wrapped, starts_with, ◌then?◌, out_of_fuel, tip_cid_parse,
}
use didem.W3cdid.Url.{text_bytes}
use didem.Tx.{Cid, Bytes}
use didem.Storage.Chain.{GenesisInfo}
use didem.Storage.Store.{Store}
use didem.Storage.TxSet.{wrapped_exec}
use didem.Storage.Validator.{ValidatorEnv, apply_from_tip}
use didem.Consensus.Msg.{PeerId}
use didem.Consensus.Engine.{Engine, stopped}
use didem.Consensus.New.{
  EngineOption, with_signing_key, with_block_store, with_beacon_source, with_validator,
  with_genesis, new_consensus,
}
use didem.Consensus.Channels.{Router, P2p, subscribe_all}
use didem.Did.Tips.{Peers, req_tip, ask_for_tip}

-- the chain's part of the configuration
pub record ChainConfig : Type 0 where
  pub key : String
  pub genesis : GenesisInfo

-- `multibase.Decode`, and the private key of the bytes; `none` is an error
pub record KeyCodec : Type 0 where
  pub decode : String → Option Bytes
  pub private_key : Bytes → Option Bytes

-- a fatal error of the log ends the process, as a panic does
abbrev pub or_fatal : {A : Type 0} → Option A → Result A
or_fatal none = panic
or_fatal (some a) = ok a

abbrev pub no_error : {A : Type 0} → Result A → Result A
no_error (err e) = panic
no_error r = r

abbrev pub signing_key : KeyCodec → String → Result (Option Bytes)
signing_key code key =
    if key == ""
    then ok none
    else (or_fatal (code.decode key) then? λ raw.
        or_fatal (code.private_key raw) then? λ k. ok (some k))

module _ {S M : Type 0} (st : Store S) where
  -- `NewHandler` up to its engine: no handler without a genesis
  unfoldable pub new_handler :
      KeyCodec → ChainConfig → PeerId → M → S → Result (Option (Engine S M))
  new_handler code cfg id pool s =
      if cfg.genesis.chain_id == ""
      then ok none
      else (signing_key code cfg.key then? λ k.
          no_error (
            new_consensus st id pool (
              with_signing_key k
              ∷ with_block_store s
              ∷ with_beacon_source
              ∷ with_validator
              ∷ with_genesis cfg.genesis
              ∷ []))
          then? λ e. ok (some e))

-- `tipSetPeerCountStartThreshold`
abbrev pub start_threshold : ℕ
start_threshold = 10

-- one peer is enough for a chain whose name begins with "test"
unfoldable pub required_peers : Bytes → ℕ
required_peers chain = if starts_with (text_bytes "test") chain then 1 else start_threshold

-- the peers without the tag of drand
abbrev pub untagged : List (PeerId × Bool) → List PeerId
untagged [] = []
untagged ((p, true) ∷ l) = untagged l
untagged ((p, false) ∷ l) = p ∷ untagged l

-- The loop of `Start` over what `Peers()` gives round by round. Each round adds to the peers of the
-- rounds before; no result means that it still waits.
unfoldable pub gather : ℕ → List PeerId → List (List (PeerId × Bool)) → Option (List PeerId)
gather need have [] = none
gather need have (seen ∷ more) =
    let now : List PeerId = have ++ untagged seen in
    let rest = gather need now more in if ltb (length now) need then rest else some now

-- What one run of `Start` meets: the rounds of peers, the shuffle, the order in which the peers answer,
-- the streams to them, and whether the ten minutes end first.
pub record Attempt (C : Type 0) : Type 0 where
  pub rounds : List (List (PeerId × Bool))
  pub shuffled : List PeerId → List PeerId
  pub answering : List PeerId → List PeerId
  pub streams : Peers C
  pub late : Bool

-- the engine of a handler, and the channels that the engine has
pub record Handler (S M R T : Type 0) : Type 0 where
  pub engine : Engine S M
  pub channels : P2p R T

-- what CIDs look like, and how far the validator may walk back
pub record TipEnv : Type 0 where
  pub cid_string : Cid → String
  pub cid_parse : String → Option Cid
  pub fuel : ℕ

-- the tips are unanimous where there is one, and as many as the peers that were asked
abbrev pub unanimous : ℕ → List (String × ℕ) → Bool
unanimous need tips = nat_eqb (length tips) need && nat_eqb (length tips) 1

abbrev pub the_tip : List (String × ℕ) → String
the_tip [] = ""
the_tip ((t, _) ∷ _) = t

abbrev pub tips_of : {C : Type 0} → Attempt C → Bytes → List PeerId → Result (List (String × ℕ))
tips_of w chain peers = wrapped (
    ask_for_tip (req_tip w.streams chain) w.late
      (w.answering (take (required_peers chain) (w.shuffled peers))))

module _ {S M R T : Type 0} where
  abbrev pub on_store : Exec S Unit → Exec (Handler S M R T) Unit
  on_store f h =
      let (r, s) = f h.engine.store in (r, record h { engine = record h.engine { store = s } })

  abbrev pub on_channels : Exec (P2p R T) Unit → Exec (Handler S M R T) Unit
  on_channels f h = let (r, p) = f h.channels in (r, record h { channels = p })

  -- `setupTimers` makes new timers, all of them stopped
  abbrev pub setup_timers : Exec (Handler S M R T) Unit
  setup_timers h = (ok tt, record h { engine = record h.engine { timers = stopped } })

module _ {S M R T : Type 0} (st : Store S) (venv : ValidatorEnv) (net : Router R T)
    (env : TipEnv) where
  -- `Consensus.Start`
  unfoldable pub start_consensus : Exec (Handler S M R T) Unit
  start_consensus = setup_timers >>= λ _. on_channels (subscribe_all net)

  abbrev pub catch_up : Option Cid → Exec (Handler S M R T) Unit
  catch_up none h = (err tip_cid_parse, h)
  catch_up (some id) h = on_store (apply_from_tip st venv env.fuel id) h

  -- the end of `Start`, for the tip that the peers gave
  unfoldable pub use_tip : String → Exec (Handler S M R T) Unit
  unfolding start_consensus
  use_tip t h =
      if t == env.cid_string h.engine.state.block_
      then wrapped_exec start_consensus h
      else (catch_up (env.cid_parse t) >>= λ _. wrapped_exec start_consensus) h

  abbrev pub decide : Exec (Handler S M R T) Unit → List (String × ℕ) → Exec (Handler S M R T) Unit
  decide again tips h =
      if unanimous (required_peers h.engine.chain) tips then use_tip (the_tip tips) h else again h

  abbrev pub with_peers :
      {C : Type 0}
      → Attempt C
      → Exec (Handler S M R T) Unit
      → Option (List PeerId)
      → Exec (Handler S M R T) Unit
  with_peers w again none h = (err out_of_fuel, h)
  with_peers w again (some peers) h = continue (tips_of w h.engine.chain peers) (decide again) h

  -- `Start`, attempt by attempt; the list is as long as the program runs
  unfoldable pub start : {C : Type 0} → List (Attempt C) → Exec (Handler S M R T) Unit
  unfolding use_tip gather required_peers
  start [] h = (err out_of_fuel, h)
  start (w ∷ ws) h = with_peers w (start ws) (gather (required_peers h.engine.chain) [] w.rounds) h

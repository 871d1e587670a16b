-- ===== src/Consensus/New.antt =====
-- `NewConsensus` of pkg/did/consensus/consensus.go, and options.go. The beacon and the validator are
-- no fields of the model's engine: the first is its events, the second a parameter of its handlers.
pub mod Laws
use didem.Base.{
  Bool, true, false, ◌&&◌, not, Option, none, some, List, [], ◌∷◌, Result, ok, err, panic, Exec,
  continue, wrapped, ◌then?◌, if◌then◌else◌,
}
use didem.W3cdid.Url.{text_bytes}
use didem.Tx.{Bytes}
use didem.Storage.Chain.{Block, GenesisInfo}
use didem.Storage.Store.{Store}
use didem.Consensus.Msg.{PeerId}
use didem.Consensus.State.{State, zero_state}
use didem.Consensus.Engine.{Engine, stopped}

pub data EngineOption (S : Type 0) : Type 0 where
  with_signing_key : Option Bytes → EngineOption S
  with_block_store : S → EngineOption S
  with_beacon_source with_validator : EngineOption S
  with_genesis : GenesisInfo → EngineOption S

-- what the options set; no store is a nil interface
pub record Settings (S : Type 0) : Type 0 where
  pub chain : Bytes
  pub signing_key : Option Bytes
  pub genesis : Option GenesisInfo
  pub store : Option S

module _ {S : Type 0} where
  -- each option sets its fields and gives no error
  unfoldable pub set_option : EngineOption S → Settings S → Settings S
  set_option (with_signing_key k) c = record c { signing_key = k }
  set_option (with_block_store s) c = record c { store = some s }
  set_option with_beacon_source c = c
  set_option with_validator c = c
  set_option (with_genesis g) c = record c { chain = text_bytes g.chain_id; genesis = some g }

  unfoldable pub set_options : List (EngineOption S) → Settings S → Settings S
  unfolding set_option
  set_options [] c = c
  set_options (o ∷ opts) c = set_options opts (set_option o c)

  abbrev pub no_settings : Settings S
  no_settings = record { chain = []; signing_key = none; genesis = none; store = none }

-- the state of the chain from the last block that was applied
unfoldable pub restore : Option Block → State
restore none = zero_state
restore (some b) = record zero_state { block_ = b.id; height = b.height; parent_block = b.parent }

module _ {S : Type 0} (st : Store S) where
  -- the genesis is applied to a store that has none yet
  unfoldable pub with_genesis_applied : Option GenesisInfo → Exec S Unit
  with_genesis_applied none s = (ok tt, s)
  with_genesis_applied (some g) s =
      if st.has_genesis_applied s
      then (ok tt, s)
      else (let (r, s') = st.apply_genesis g s in (wrapped r, s'))

module _ {S M : Type 0} (st : Store S) where
  abbrev pub engine_of : PeerId → M → Settings S → S → Option Block → Engine S M
  engine_of id pool c s last = record {
    chain = c.chain;
    id = id;
    signing_key = c.signing_key;
    genesis = c.genesis;
    mem_pool = pool;
    store = s;
    state = restore last;
    propsal_state = zero_state;
    timers = stopped;
    grace = 0;
    sent = [];
  }

  abbrev pub started : PeerId → M → Settings S → Result Unit × S → Result (Engine S M)
  started id pool c (r, s) =
      r then? λ _. wrapped (st.get_last_applied s) then? λ last. ok (engine_of id pool c s last)

  abbrev pub over_store : PeerId → M → Settings S → Option S → Result (Engine S M)
  over_store id pool c none = panic
  over_store id pool c (some s) = started id pool c (with_genesis_applied st c.genesis s)

  -- `NewConsensus`, for the host's identifier and the new pool
  unfoldable pub new_consensus : PeerId → M → List (EngineOption S) → Result (Engine S M)
  unfolding set_options with_genesis_applied restore
  new_consensus id pool opts = let c = set_options opts no_settings in over_store id pool c c.store

-- ===== src/Examples/Engine.antt =====
-- A node with two others at work on one round: a proposal, a vote, a precommit and the block.
use didem.Base.{
  insert, false, true, none, some, [], ◌∷◌, ok, err, ◌≡◌, ◌≢◌, refl, arith, nat_eq, if◌then◌else◌,
  ◌==◌, string_eq, nat_eqb, not_found, pure, ltb, ap,
}
use didem.Tx.{Node, pos}
use didem.Storage.Chain.{Block}
use didem.Storage.Store.{Store}
use didem.Storage.TxSet.{ChainEnv}
use didem.Consensus.Msg.{
  PeerId, Msg, msg_type_consensus, ConsensusMsg, type_proposal, type_vote, type_block, VoteType,
  vote_type_pre_vote, vote_type_pre_commit,
}
use didem.Consensus.State.{zero_state}
use didem.Consensus.Engine.{
  Engine, Env, MemPool, Validator, stopped, restart_timer, stop_timer, do_pv_once, do_pc_once,
  do_sb_once,
}
use didem.Consensus.Send.{empty_msg, send_msg, send_vote, send_evidence, signature_data}
use didem.Consensus.Round.{
  on_beacon, select_proposer, start_round, follow_round, enter_round, await_proposal,
}
use didem.Consensus.Votes.{
  enough_votes, on_vote, count_vote, on_pre_vote, lock_block, on_pre_commit, await_block, on_block,
  commit_block,
}
use didem.Consensus.Handlers.{
  on_msg, is_authentic, by_msg_type, by_consensus_type, on_proposal, accept_proposal, validate,
  bytes_equal,
}
use didem.Consensus.State.{reset_onces}
use didem.Consensus.New.{
  with_block_store, set_option, set_options, restore, with_genesis_applied, new_consensus,
}
use didem.Consensus.New.Laws.{IsRestored, new_consensus-IsRestored}
use didem.Consensus.Events.{Event, message, beacon, handle, is_enabled, Reach, here, next}
use didem.Consensus.Invariant.{IsConsistent}
use didem.Consensus.Commit.{IsDecided, commit-IsDecided, reachable-IsConsistent}
use didem.Consensus.Authentic.{IsSigned, on_msg_authentic}
use didem.Consensus.Quorum.{follower_threshold}
use didem.Resync.{reset, do_once}

abbrev pub some_block : Block
some_block = record {
  version = 1;
  id = 7;
  parent = 0;
  height = 1;
  created_at = pos 5;
  proposer = "p";
  signature = [];
  nonce = [];
  bloom = [];
  tx_root = 9;
}

abbrev a_node : Node
a_node = record { id = "q"; did = "did:example:q"; key = 3 ∷ [] }

-- a store with three nodes and one block
abbrev pub small_store : Store Unit
small_store = record {
  lookup_did = λ s id. err not_found;
  did_history = λ s id. err not_found;
  claims = λ s id. err not_found;
  nodes = λ s. ok ("p" ∷ "q" ∷ "me" ∷ []);
  node = λ s id. ok (some a_node);
  has_genesis_applied = λ s. true;
  apply_genesis = λ g. pure tt;
  apply_tx = λ id t. pure tt;
  start_test = λ s. ok s;
  complete_test = pure tt;
  put_tx = λ t. pure 1;
  get_tx = λ s id. err not_found;
  put_block = λ b. pure 7;
  get_block = λ s id. ok some_block;
  all_tx = λ s b. ok [];
  put_set = λ set. pure 9;
  get_set = λ s id. err not_found;
  get_tx_block = λ s id. err not_found;
  mark_block = λ id st. pure tt;
  update_last_applied = λ id. pure tt;
  get_last_applied = λ s. ok none;
}

abbrev pub no_pool : MemPool Unit
no_pool = record { add_tx = λ t n. pure tt; get_tx = λ m. (none, m); len = λ m. 0 }

abbrev pub lenient : Validator Unit
lenient = record { is_block_valid = λ b is_new. pure tt }

abbrev pub small_chain : ChainEnv
small_chain = record {
  now = pos 100;
  nonce = some [];
  make_bloom = λ l. some [];
  cid_less = λ a b. ltb a b;
}

abbrev pub small_env : Env
small_env = record {
  peer_string = λ p. p;
  peer_bytes = λ p. some (4 ∷ []);
  cid_string = λ c. if nat_eqb c 7 then "7" else "";
  cid_parse = λ s. if s == "7" then some 7 else none;
  marshal_msg = λ m. some (5 ∷ []);
  sign = λ k d. some (6 ∷ []);
  decode_multibase = λ b. some b;
  is_public_key = λ b. true;
  verify = λ k sig d. bytes_equal sig (6 ∷ []);
  aggregate_keys = λ l. some [];
  aggregate_signatures = λ l. some [];
  publish = λ m. ok tt;
  now = 100;
  chain_env = small_chain;
}

abbrev pub says : PeerId → ConsensusMsg → Msg
says p m = record {
  type = msg_type_consensus;
  from = p;
  chain = 1 ∷ [];
  tx = none;
  block = none;
  consensus = some m;
  timestamp = 100;
  signature = 6 ∷ [];
  key = [];
}

abbrev the_proposal : Msg
the_proposal = says "p" (record empty_msg {
  type = type_proposal;
  proposal = some (record { height = 1; round = 1; block_id = "7"; timestamp = 100 });
})

abbrev a_vote : VoteType → Msg
a_vote t = says "q" (record empty_msg {
  type = type_vote;
  vote = some (record {
    type = t;
    height = 1;
    round = 1;
    block_id = "7";
    timestamp = 100;
    validator = "q";
  });
})

abbrev the_block : Msg
the_block = says "p" (record empty_msg {
  type = type_block;
  block = some (record { height = 1; round = 1; cid = "7"; validators = []; signature = [] });
})

abbrev pub new_engine : Engine Unit Unit
new_engine = record {
  chain = 1 ∷ [];
  id = "me";
  signing_key = none;
  genesis = none;
  mem_pool = tt;
  store = tt;
  state = zero_state;
  propsal_state = zero_state;
  timers = stopped;
  grace = 0;
  sent = [];
}

abbrev run : Event Unit Unit → Engine Unit Unit → Engine Unit Unit
run ev e = (handle small_store no_pool small_env lenient ev e).1

abbrev locked_engine : Engine Unit Unit
locked_engine = run (message (a_vote vote_type_pre_commit)) (
    run (message (a_vote vote_type_pre_vote))
      (run (message the_proposal) (run (beacon 0) new_engine)))

locked-Reach : Reach small_store no_pool small_env lenient new_engine locked_engine
unfolding is_enabled
locked-Reach =
    next (message (a_vote vote_type_pre_commit))
      (next (message (a_vote vote_type_pre_vote))
        (next (message the_proposal) (next (beacon 0) here refl) refl) refl)
      refl

locked_block : (run (message the_block) locked_engine).state.block_ ≡ 7
unfolding handle on_msg is_authentic by_msg_type by_consensus_type on_proposal accept_proposal
    validate on_beacon select_proposer start_round follow_round enter_round await_proposal on_vote
    count_vote on_pre_vote lock_block on_pre_commit await_block on_block commit_block restart_timer
    stop_timer do_pv_once do_pc_once do_sb_once send_msg send_vote send_evidence reset_onces reset
    do_once signature_data
locked_block = refl

locked_before : locked_engine.state.block_ ≡ 0
unfolding handle on_msg is_authentic by_msg_type by_consensus_type on_proposal accept_proposal
    validate on_beacon select_proposer start_round follow_round enter_round await_proposal on_vote
    count_vote on_pre_vote lock_block on_pre_commit await_block on_block commit_block restart_timer
    stop_timer do_pv_once do_pc_once do_sb_once send_msg send_vote send_evidence reset_onces reset
    do_once signature_data
locked_before = refl

locked_changed :
    (handle small_store no_pool small_env lenient (message the_block) locked_engine).1.state.block_
    ≢ locked_engine.state.block_
unfolding handle
locked_changed h = ground (arith, locked_block, locked_before)

block_changes :
    (on_msg small_store no_pool small_env lenient the_block locked_engine).1 ≢ locked_engine
unfolding handle
block_changes h = locked_changed (ap (λ e. e.state.block_) h)

commit-IsDecided_example :
    IsDecided small_env locked_engine
      (handle small_store no_pool small_env lenient (message the_block) locked_engine).1
commit-IsDecided_example =
    commit-IsDecided small_store no_pool small_env lenient new_engine locked_engine
      (message the_block) (refl, refl, refl) locked-Reach locked_changed

reachable-IsConsistent_example :
    IsConsistent small_env locked_engine.propsal_state locked_engine.state.proposer
reachable-IsConsistent_example =
    reachable-IsConsistent small_store no_pool small_env lenient new_engine locked_engine
      (refl, refl, refl) locked-Reach

on_msg_authentic_example :
    (bytes_equal the_block.chain locked_engine.chain ≡ true)
    × IsSigned small_store no_pool small_env lenient the_block locked_engine
on_msg_authentic_example =
    on_msg_authentic small_store no_pool small_env lenient the_block locked_engine block_changes

-- a store that has applied a block
abbrev grown_store : Store Unit
grown_store = record small_store { get_last_applied = λ s. ok (some some_block) }

abbrev resumed : Engine Unit Unit
resumed = record new_engine {
  chain = [];
  state = record zero_state { block_ = 7; height = 1; parent_block = 0 };
}

new_consensus_runs : new_consensus grown_store "me" tt (with_block_store tt ∷ []) ≡ ok resumed
unfolding new_consensus set_options set_option with_genesis_applied restore
new_consensus_runs = refl

new_consensus-IsRestored_example : IsRestored grown_store (with_block_store tt ∷ []) resumed
new_consensus-IsRestored_example =
    new_consensus-IsRestored grown_store "me" tt (with_block_store tt ∷ []) new_consensus_runs

abbrev follower : Engine Unit Unit
follower = record new_engine {
  state = record zero_state { proposer = "p" };
  propsal_state = record zero_state { f = 5 };
}

follower_threshold_example :
    ((start_round small_store no_pool small_env false follower).1.propsal_state.f ≡ 5)
    × ((start_round small_store no_pool small_env false follower).1.propsal_state.pre_votes ≡ [])
    × ((start_round small_store no_pool small_env false follower).1.propsal_state.pre_commits ≡ [])
    × (enough_votes
          (record ((start_round small_store no_pool small_env false follower).1.propsal_state) {
            pre_votes = insert "q" (a_vote vote_type_pre_vote) [];
          })
        ≡ false)
follower_threshold_example =
    follower_threshold small_store no_pool small_env false follower "q" (a_vote vote_type_pre_vote)
      (λ h. ground (arith, string_eq.same_iff follower.state.proposer "me"))

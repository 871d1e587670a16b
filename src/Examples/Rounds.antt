-- ===== src/Examples/Rounds.antt =====
-- A round of four nodes, seen by one that follows the proposer.
use didem.Base.{string_eq, List, length, Distinct, All, true, ◌<◌, ◌≤◌, ◌⊎◌, ◌↔◌}
use didem.Consensus.State.{State}
use didem.Consensus.Votes.{enough_commits}
use didem.Consensus.Round.{threshold}
use didem.Consensus.Overlap.{shared, IsBoth, quorums_overlap}
use didem.Base.{some, ok, panic, [], ◌∷◌, ◌++◌, ◌≡◌, ◌≢◌, refl, arith}
use didem.Resync.{do_once}
use didem.Consensus.Msg.{
  PeerId, Msg, type_proposal, type_vote, type_block, VoteType, vote_type_pre_vote,
  vote_type_pre_commit,
}
use didem.Consensus.State.{zero_state}
use didem.Consensus.Engine.{Engine, do_pv_once, stop_timer, restart_timer}
use didem.Consensus.Send.{empty_msg, signature_data, send_vote, send_msg}
use didem.Consensus.Handlers.{
  is_authentic, on_msg, by_msg_type, by_consensus_type, on_proposal, validate, accept_proposal,
}
use didem.Consensus.Progress.{Counts}
use didem.Consensus.Progress.Locking.{deliver}
use didem.Consensus.Progress.Round.{IsFinal, TakesBlock}
use didem.Consensus.Progress.Proposal.{IsWaiting, Proposes, CanSend}
use didem.Consensus.Progress.Whole.{round_commits}
use didem.Examples.Engine.{small_store, small_env, no_pool, lenient, says, new_engine, some_block}

abbrev vote_by : VoteType → PeerId → Msg
vote_by t p = says p (record empty_msg {
  type = type_vote;
  vote =
      some (record {
        type = t;
        height = 1;
        round = 1;
        block_id = "7";
        timestamp = 100;
        validator = p;
      });
})

abbrev final_block : Msg
final_block = says "p" (record empty_msg {
  type = type_block;
  block = some (record { height = 1; round = 1; cid = "7"; validators = []; signature = [] });
})

abbrev offered : Msg
offered = says "p" (record empty_msg {
  type = type_proposal;
  proposal = some (record { height = 1; round = 1; block_id = "7"; timestamp = 100 });
})

abbrev waiting : Engine Unit Unit
waiting = record new_engine {
  state = record zero_state { proposer = "p" };
  propsal_state = record zero_state { proposer = "p"; height = 1; round = 1; f = 1 };
}

-- behind the proposal
abbrev voting : Engine Unit Unit
voting = (on_msg small_store no_pool small_env lenient offered waiting).1

waiting-IsWaiting : IsWaiting waiting
waiting-IsWaiting = record {
  step = refl;
  following = refl;
  no_votes = refl;
  no_commits = refl;
  pv_armed = refl;
  pc_armed = refl;
  sb_armed = refl;
}

waiting-Proposes : Proposes small_store no_pool small_env lenient waiting 7 offered
unfolding is_authentic signature_data
waiting-Proposes = record {
  content = _;
  offer = _;
  found = some_block;
  chain = refl;
  authentic = refl;
  carried = (refl, refl);
  form = (refl, refl);
  sender = refl;
  named = refl;
  parsed = refl;
  stored = refl;
  valid = refl;
}

small_env-CanSend : CanSend small_env
small_env-CanSend = record {
  peers = λ p h. ground arith;
  encodes = λ m h. ground arith;
  signs = λ k d h. ground arith;
  publishes = λ m. refl;
}

vote_q : (t : VoteType) → Counts small_store no_pool small_env lenient t voting (vote_by t "q")
unfolding is_authentic signature_data on_msg by_msg_type by_consensus_type on_proposal validate
    accept_proposal do_pv_once do_once stop_timer restart_timer send_vote send_msg
vote_q t = record {
  content = _;
  vote = _;
  chain = refl;
  authentic = refl;
  carried = (refl, refl);
  form = (refl, refl);
  type = refl;
  current = refl;
  other = refl;
}

vote_r : (t : VoteType) → Counts small_store no_pool small_env lenient t voting (vote_by t "r")
unfolding is_authentic signature_data on_msg by_msg_type by_consensus_type on_proposal validate
    accept_proposal do_pv_once do_once stop_timer restart_timer send_vote send_msg
vote_r t = record {
  content = _;
  vote = _;
  chain = refl;
  authentic = refl;
  carried = (refl, refl);
  form = (refl, refl);
  type = refl;
  current = refl;
  other = refl;
}

final_block-IsFinal : IsFinal small_store no_pool small_env lenient voting 7 1 final_block
unfolding is_authentic signature_data on_msg by_msg_type by_consensus_type on_proposal validate
    accept_proposal do_pv_once do_once stop_timer restart_timer send_vote send_msg
final_block-IsFinal = record {
  content = _;
  final = _;
  chain = refl;
  authentic = refl;
  carried = (refl, refl);
  form = (refl, refl);
  sender = refl;
  same_block = refl;
  same_round = refl;
}

ok-no_panic : {A : Type 0} (a : A) → ok a ≢ panic
ok-no_panic a h = ground arith

store-TakesBlock : TakesBlock small_store no_pool small_env lenient tt 7
store-TakesBlock = record { defined = refl; marks = ok-no_panic tt; applies = ok-no_panic tt }

round_commits_example :
    (deliver small_store no_pool small_env lenient
      (offered
        ∷ ((vote_by vote_type_pre_vote "q" ∷ vote_by vote_type_pre_vote "r" ∷ [])
            ++ ((vote_by vote_type_pre_commit "q" ∷ vote_by vote_type_pre_commit "r" ∷ [])
                ++ final_block ∷ [])))
      waiting).state
    ≡ record zero_state { proposer = "p"; height = 1; parent_block = 0; block_ = 7 }
round_commits_example =
    round_commits small_store no_pool small_env lenient offered
      (vote_by vote_type_pre_vote "q" ∷ vote_by vote_type_pre_vote "r" ∷ [])
      (vote_by vote_type_pre_commit "q" ∷ vote_by vote_type_pre_commit "r" ∷ []) final_block 7
      waiting waiting-IsWaiting waiting-Proposes small_env-CanSend
      (vote_q vote_type_pre_vote, (vote_r vote_type_pre_vote, tt))
      (vote_q vote_type_pre_commit, (vote_r vote_type_pre_commit, tt)) (refl, (refl, tt))
      (refl, (refl, tt)) (omega arith) (omega arith) final_block-IsFinal store-TakesBlock

abbrev others : List PeerId
others = "a" ∷ "b" ∷ "c" ∷ "d" ∷ "e" ∷ "f" ∷ "g" ∷ []

abbrev commits_of : List PeerId → List (PeerId × Msg)
commits_of [] = []
commits_of (p ∷ peers) = (p, vote_by vote_type_pre_commit p) ∷ commits_of peers

-- a node that has the precommits of these peers, with the threshold of seven
abbrev decided_by : List PeerId → State
decided_by peers = record zero_state { f = 5; pre_commits = commits_of peers }

abbrev first_six : State
first_six = decided_by ("a" ∷ "b" ∷ "c" ∷ "d" ∷ "e" ∷ "f" ∷ [])

abbrev last_six : State
last_six = decided_by ("b" ∷ "c" ∷ "d" ∷ "e" ∷ "f" ∷ "g" ∷ [])

five : 5 ≡ threshold (length others)
unfolding threshold
five = refl

quorums_overlap_example :
    (2 < length (shared first_six.pre_commits last_six.pre_commits))
    × Distinct (shared first_six.pre_commits last_six.pre_commits)
    × All
        (IsBoth first_six.pre_commits last_six.pre_commits)
        (shared first_six.pre_commits last_six.pre_commits)
    × ((enough_commits (decided_by others) ≡ true) ↔ ((length others ≡ 2) ⊎ (4 ≤ length others)))
quorums_overlap_example =
    quorums_overlap others first_six last_six (decided_by others) five five five
      (refl, (refl, (refl, (refl, (refl, (refl, tt))))))
      (refl, (refl, (refl, (refl, (refl, (refl, tt))))))
      (refl, (refl, (refl, (refl, (refl, (refl, tt))))))
      (refl, (refl, (refl, (refl, (refl, (refl, tt)))))) refl refl refl

-- ===== src/Consensus/Round.antt =====
-- The rounds of pkg/did/consensus/consensus.go: choosing the proposer and starting a round.
use didem.Base.{
  ℕ, zero, suc, ◌+◌, ◌-◌, ◌*◌, ◌/◌, ◌%◌, ◌^◌, Bool, false, ◌&&◌, Option, none, some, List, [],
  String, Result, ok, err, panic, Exec, wrapped, ◌>>=◌, ◌>>◌, pure, lift, ◌then?◌, ◌==◌, nat_eq,
  string_eq, if◌then◌else◌, ltb, length, get_elem?, set, take,
}
use didem.Tx.{undef}
use didem.Storage.Chain.{Block}
use didem.Storage.Store.{Store}
use didem.Consensus.State.{State, propose, prevote, reset_onces, set_step}
use didem.Consensus.Engine.{
  Engine, Env, MemPool, modify, on_propsal, in_store, wrapped_in, logged, reading, timer_propose,
  timer_prevote, restart_timer,
}
use didem.Consensus.Send.{send_new_round, send_proposal}
use didem.Consensus.Blocks.{make_block}

-- `nodes[b % uint64(len(nodes))]`: no nodes is a division by zero
unfoldable pub select_proposer : ℕ → List String → Result String
select_proposer b nodes =
    if length nodes == 0
    then panic
    else elim (get_elem? nodes (b % length nodes)) [ none ↦ panic | some p ↦ ok p ]

-- Both indices below are checked against the length of the slice as it is by then.
abbrev move_last : List String → ℕ → ℕ → Result (List String × ℕ)
move_last arr len i =
    if ltb i len
    then elim (get_elem? arr (len - 1)) [ none ↦ panic | some last ↦ ok (set arr i last, len - 1) ]
    else panic

-- The loop that takes the node's own name out. It ranges over the slice as it was first, whose
-- array the writes go to: `left` rounds are to come, `arr` is the array and `len` the length of `n`.
unfoldable pub remove_loop : String → ℕ → ℕ → List String → ℕ → Result (List String × ℕ)
remove_loop self zero i arr len = ok (arr, len)
remove_loop self (suc left) i arr len = elim (get_elem? arr i) [
  | none ↦ panic
  | some ni ↦
      if ni == self
      then (move_last arr len i then? λ next. remove_loop self left (i + 1) next.0 next.1)
      else remove_loop self left (i + 1) arr len
]

unfoldable pub remove_self : String → List String → Result (List String)
unfolding remove_loop
remove_self self n = remove_loop self (length n) 0 n (length n) then? λ r. ok (take r.1 r.0)

-- the number of votes that a round has to exceed
unfoldable pub threshold : ℕ → ℕ
threshold n = n / 3 * 2 + 1

-- the votes, the evidence, the lock and the onces of a new round
abbrev pub clear_votes : State → State
clear_votes s = record s {
  locked_round = 0;
  locked_value = undef;
  step = propose;
  pre_votes = [];
  pre_commits = [];
  pre_votes_evidence = [];
  pre_commits_evidence = [];
}

-- what `startRound` sets before it looks who proposes, from the chain's state and its own
unfoldable pub enter_round : Bool → Bool → ℕ → State → State
unfolding reset_onces
enter_round inc am height s =
    let t =
      reset_onces (record (clear_votes s) { am_proposer = am; height = (height + 1) % 2 ^ 64 }) in
    if inc
    then record t { round = (s.round + 1) % 2 ^ 32; step = prevote }
    else record t { round = 1; block_ = undef }

-- a node that is not the proposer and still has no proposal waits for one
unfoldable pub await_proposal : State → State
await_proposal s = if s.block_ == undef && ltb 1 s.round then record s { step = propose } else s

module _ {S M : Type 0} (st : Store S) (mp : MemPool M) (env : Env) where
  unfoldable pub count_others : Exec (Engine S M) Unit
  count_others = reading (λ e. lift (wrapped (st.nodes e.store)) >>= λ n.
      lift (remove_self (env.peer_string e.id) n) >>= λ others.
      on_propsal (λ s. record s { f = threshold (length others) }))

  abbrev pub put_made : Option Block → Exec (Engine S M) Unit
  put_made none = pure tt
  put_made (some b) =
      wrapped_in (in_store (st.put_block b)) >>= λ id. on_propsal (λ s. record s { block_ = id })

  -- build and upload a block, unless one is left from an earlier round
  unfoldable pub build_block : Exec (Engine S M) Unit
  build_block = reading (λ e.
      if e.propsal_state.block_ == undef
      then (wrapped_in (make_block st mp env) >>= put_made)
      else pure tt)

  -- the proposer's part of `startRound`
  unfoldable pub lead_round : Exec (Engine S M) Unit
  lead_round =
      restart_timer timer_prevote
      >> (wrapped_in (send_new_round env)
          >> (count_others
              >> (build_block
                  >> (wrapped_in (send_proposal env) >> on_propsal (set_step prevote)))))

  -- everyone else's
  unfoldable pub follow_round : Exec (Engine S M) Unit
  follow_round = on_propsal await_proposal >> restart_timer timer_propose

  -- `startRound`
  unfoldable pub start_round : Bool → Exec (Engine S M) Unit
  start_round inc = reading (λ e.
      on_propsal (enter_round inc (e.state.proposer == env.peer_string e.id) e.state.height)
      >> (if e.state.proposer == env.peer_string e.id then lead_round else follow_round))

  abbrev pub set_proposer : String → Engine S M → Engine S M
  set_proposer p e = record e {
    propsal_state = set_step propose e.propsal_state;
    state = record (e.state) { proposer = p };
  }

  abbrev pub begin : String → Exec (Engine S M) Unit
  begin p = modify (set_proposer p) >> logged (start_round false)

  -- a failure to list the nodes is logged and skips the value
  abbrev pub begin_among : ℕ → Result (List String) → Exec (Engine S M) Unit
  begin_among b (ok nodes) = lift (select_proposer b nodes) >>= begin
  begin_among b (err x) = pure tt
  begin_among b panic = lift panic

  -- one value of the beacon, through `proposer` and `watchProposer`
  unfoldable pub on_beacon : ℕ → Exec (Engine S M) Unit
  on_beacon b = reading (λ e. begin_among b (st.nodes e.store))

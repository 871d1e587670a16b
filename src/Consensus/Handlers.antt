-- ===== src/Consensus/Handlers.antt =====
-- Messages and timeouts (pkg/did/consensus/consensus.go).
use didem.Base.{
  Bool, true, false, ◌&&◌, not, Option, none, some, [], ◌∷◌, ◌++◌, String, Result, ok, err, panic,
  Exec, wrapped, wrap, ◌>>=◌, ◌>>◌, pure, lift, ◌==◌, nat_eq, string_eq, nat_eqb, if◌then◌else◌,
  invalid_cid,
}
use didem.Tx.{Cid, undef, Bytes, Node}
use didem.Storage.Store.{Store}
use didem.Consensus.Msg.{
  Msg, TxMsg, ConsensusMsg, ConsensusMsgNewRound, ConsensusMsgProposal, ConsensusMsgType,
  msg_type_consensus, msg_type_tx, MsgType, type_new_round, type_proposal, type_vote, type_block,
  type_evidence, vote_type_pre_vote, vote_type_pre_commit,
}
use didem.Consensus.State.{State, Step, propose, prevote, precommit, set_step, reset_onces}
use didem.Consensus.Engine.{
  Engine, Env, MemPool, Validator, on_propsal, in_store, wrapped_in, logged, reading, log_error,
  timer_propose, timer_prevote, timer_precommit, restart_timer, stop_timer, do_pv_once, do_pc_once,
}
use didem.Consensus.Send.{send_vote, send_block, signature_data}
use didem.Consensus.Round.{clear_votes, start_round}
use didem.Consensus.Votes.{given, when, is_step, on_vote, on_evidence, on_block}

-- The record of `onNewRound`: the block of the round before it stays.
unfoldable pub follow : ConsensusMsgNewRound → State → State
unfolding reset_onces
follow m s = reset_onces (record (clear_votes s) { height = m.height; round = m.round })

abbrev pub parse_block_id : Env → String → Result Cid
parse_block_id env value = elim (env.cid_parse value) [
  | none ↦ err (wrap invalid_cid)
  | some cv ↦ ok cv
]

-- the block that a proposal leads to: none after an error
abbrev pub or_undef : Result Cid → Result Cid
or_undef (ok cv) = ok cv
or_undef (err _) = ok undef
or_undef panic = panic

-- `bytes.Equal`
abbrev pub bytes_equal : Bytes → Bytes → Bool
bytes_equal [] [] = true
bytes_equal (a ∷ x) (b ∷ y) = nat_eqb a b && bytes_equal x y
bytes_equal _ _ = false

abbrev pub timed_out : Step → State → State → Bool
timed_out st' c p = not (nat_eqb p.height c.height) && not (is_step p.step st')

module _ {S M : Type 0} (st : Store S) (mp : MemPool M) (env : Env) (vd : Validator S) where
  unfoldable pub on_new_round : Option ConsensusMsgNewRound → String → Exec (Engine S M) Unit
  on_new_round v from = reading (λ e.
      when (from == e.state.proposer)
        (given v (λ m. on_propsal (follow m) >> restart_timer timer_propose)))

  -- `validate`: the empty CID stands for no block, and needs no check
  unfoldable pub validate : String → Exec (Engine S M) Cid
  validate value e =
      if value == env.cid_string undef
      then (ok undef, e)
      else (lift (parse_block_id env value) >>= λ cv e'.
            (lift (wrapped (st.get_block e'.store cv)) >>= λ b.
            wrapped_in (in_store (vd.is_block_valid b true)) >>= λ _. pure cv)
              e')
          e

  abbrev pub recover : Exec (Engine S M) Cid → Exec (Engine S M) Cid
  recover f e = let (r, e') = f e in (or_undef r, e')

  -- the action of `pvOnce` in `onProposal`: a failed send is logged, and ends it
  unfoldable pub accept_proposal : String → Cid → Exec (Engine S M) Unit
  accept_proposal block_id bc = logged (
      on_propsal (λ s. record s { block_ = bc })
      >> (stop_timer timer_propose
          >> (send_vote env vote_type_pre_vote
                (if bc == undef then env.cid_string undef else block_id)
              >> (restart_timer timer_prevote >> on_propsal (set_step prevote)))))

  abbrev pub take_proposal : ConsensusMsgProposal → Exec (Engine S M) Unit
  take_proposal m =
      recover (validate m.block_id) >>= λ cv. do_pv_once (accept_proposal m.block_id cv)

  unfoldable pub on_proposal : Option ConsensusMsgProposal → String → Exec (Engine S M) Unit
  on_proposal v from = reading (λ e.
      when (from == e.state.proposer && is_step e.propsal_state.step propose)
        (given v take_proposal))

  -- `onConsensusMsg`
  unfoldable pub by_consensus_type :
      ConsensusMsgType → Msg → ConsensusMsg → String → Exec (Engine S M) Unit
  by_consensus_type type_new_round msg m from = on_new_round m.new_round from
  by_consensus_type type_proposal msg m from = on_proposal m.proposal from
  by_consensus_type type_vote msg m from = on_vote env msg m.vote from
  by_consensus_type type_block msg m from = on_block env st m.block from
  by_consensus_type type_evidence msg m from = on_evidence env m.evidence from
  by_consensus_type _ msg m from = pure tt

  -- `onTx`
  unfoldable pub on_tx : Option TxMsg → Exec (Engine S M) Unit
  on_tx none e = (panic, e)
  on_tx (some m) e =
      let (r, pool) = mp.add_tx m.tx m.ttl e.mem_pool in (log_error r, record e { mem_pool = pool })

  unfoldable pub by_msg_type : MsgType → Msg → Exec (Engine S M) Unit
  by_msg_type msg_type_consensus m =
      given m.consensus (λ cm. by_consensus_type cm.type m cm (env.peer_string m.from))
  by_msg_type msg_type_tx m = on_tx m.tx
  by_msg_type _ m = pure tt

  -- The check of a message before it is handled: `ok false` drops it. A key that is no point of the
  -- curve is logged and then used, as a nil pointer.
  abbrev pub signature_ok : Msg → Node → Result Bool
  signature_ok m n = elim (env.peer_bytes m.from) [
    | none ↦ ok false
    | some d ↦ elim (signature_data env m) [
      | none ↦ ok false
      | some sd ↦ elim (env.decode_multibase n.key) [
        | none ↦ ok false
        | some raw ↦
            if env.is_public_key raw then ok (env.verify raw m.signature (d ++ sd)) else panic
      ]
    ]
  ]

  abbrev pub judge : Msg → Result (Option Node) → Result Bool
  judge m (ok none) = ok false
  judge m (ok (some n)) = signature_ok m n
  judge m (err _) = ok false
  judge m panic = panic

  unfoldable pub is_authentic : Msg → Engine S M → Result Bool
  is_authentic m e = judge m (st.node e.store (env.peer_string m.from))

  -- `onMsg`
  unfoldable pub on_msg : Msg → Exec (Engine S M) Unit
  on_msg m = reading (λ e.
      when (bytes_equal m.chain e.chain)
        (lift (is_authentic m e) >>= λ good. when good (by_msg_type m.type m)))

  -- `onTimeoutProposal`
  unfoldable pub on_timeout_proposal : Exec (Engine S M) Unit
  on_timeout_proposal = reading (λ e. when (not (timed_out propose e.state e.propsal_state)) (
      on_propsal (set_step prevote)
      >> do_pv_once (logged (send_vote env vote_type_pre_vote "") >> restart_timer timer_prevote)))

  -- `onTimeoutPrevote`
  unfoldable pub on_timeout_prevote : Exec (Engine S M) Unit
  on_timeout_prevote = reading (λ e. when (not (timed_out prevote e.state e.propsal_state)) (
      on_propsal (set_step precommit)
      >> do_pc_once
          (logged (send_vote env vote_type_pre_commit "") >> restart_timer timer_precommit)))

  -- `onTimeoutPrecommit`
  unfoldable pub on_timeout_precommit : Exec (Engine S M) Unit
  on_timeout_precommit = logged (start_round st mp env true)

  -- `onTimeoutBlock` only logs
  unfoldable pub on_timeout_block : Exec (Engine S M) Unit
  on_timeout_block = pure tt

  -- the call that `time.AfterFunc` makes when the grace period is over
  unfoldable pub on_grace : Exec (Engine S M) Unit
  on_grace =
      logged
        (send_block env st >>= λ m. reading (λ e. on_block env st (some m) (env.peer_string e.id)))

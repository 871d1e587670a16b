-- ===== src/Consensus/Progress/Proposal.antt =====
-- The proposal of a round of pkg/did/consensus/consensus.go, as a follower takes it.
use didem.Base.{
  true, false, none, some, [], ok, ◌==◌, nat_eq, string_eq, String, ◌≡◌, ◌≢◌, refl, ap, ◌∙◌, sym,
  subst, arith, if◌then◌else◌, Option-cases, inl, inr, ◌++◌,
}
use didem.Resync.{do_once}
use didem.Tx.{Cid, undef, Bytes}
use didem.Storage.Chain.{Block}
use didem.Storage.Store.{Store}
use didem.Consensus.Msg.{
  Msg, ConsensusMsg, ConsensusMsgProposal, msg_type_consensus, type_proposal, vote_type_pre_vote,
  VoteType,
}
use didem.Consensus.State.{propose, prevote}
use didem.Consensus.Engine.{
  Engine, Env, MemPool, Validator, stop_timer, restart_timer, do_pv_once, set_timer, timer_propose,
  timer_prevote,
}
use didem.Consensus.Send.{Outgoing, vote, header, send_vote, send_msg, signed_msg, signature_data}
use didem.Consensus.Frame.{Frames, Frames-send_vote}
use didem.Consensus.Handlers.{
  bytes_equal, is_authentic, on_msg, by_msg_type, by_consensus_type, on_proposal, accept_proposal,
  validate, parse_block_id,
}
use didem.Consensus.Progress.Round.{IsVoting}

-- A follower that waits for the proposal of its round.
pub record IsWaiting {S M : Type 0} (e : Engine S M) : Type 0 where
  pub step : e.propsal_state.step ≡ propose
  pub following : e.propsal_state.am_proposer ≡ false
  pub no_votes : e.propsal_state.pre_votes ≡ []
  pub no_commits : e.propsal_state.pre_commits ≡ []
  pub pv_armed : (e.propsal_state.pv_once.done == 1) ≡ false
  pub pc_armed : (e.propsal_state.pc_once.done == 1) ≡ false
  pub sb_armed : (e.propsal_state.sb_once.done == 1) ≡ false

-- The libraries encode, sign and publish whatever they are given.
pub record CanSend (env : Env) : Type 0 where
  pub peers : (p : String) → env.peer_bytes p ≢ none
  pub encodes : (m : Msg) → env.marshal_msg m ≢ none
  pub signs : (k d : Bytes) → env.sign k d ≢ none
  pub publishes : (m : Msg) → env.publish m ≡ ok tt

module _ {S M : Type 0} (env : Env) (c : CanSend env) where
  signed_msg-ok :
      (e : Engine S M) (key : Bytes) (m : Outgoing) → (x : Msg) × (signed_msg env e key m ≡ ok x)
  unfolding signed_msg signature_data
  signed_msg-ok e key m = elim (Option-cases (env.peer_bytes e.id)) [
    | inl bad ↦ absurd (c.peers e.id bad)
    | inr (d, p) ↦ elim (Option-cases (env.marshal_msg (header env e m))) [
      | inl bad ↦ absurd (c.encodes _ bad)
      | inr (sd, q) ↦ elim (Option-cases (env.sign key (d ++ sd))) [
        | inl bad ↦ absurd (c.signs key _ bad)
        | inr (sig, r) ↦ (record (header env e m) { signature = sig }, rw (p, q, r) refl)
      ]
    ]
  ]

  send_msg-ok : (m : Outgoing) (e : Engine S M) → (send_msg env m e).0 ≡ ok tt
  unfolding send_msg
  send_msg-ok m e = elim (Option-cases e.signing_key) [
    | inl p ↦ ground arith
    | inr (key, p) ↦ let (x, q) = signed_msg-ok e key m in ground (arith, q, c.publishes x)
  ]

  send_vote-ok : (t : VoteType) (v : String) (e : Engine S M) → (send_vote env t v e).0 ≡ ok tt
  unfolding send_vote
  send_vote-ok t v e =
      send_msg-ok
        (vote (record {
          type = t;
          height = e.propsal_state.height;
          round = e.propsal_state.round;
          block_id = v;
          timestamp = env.now;
          validator = env.peer_string e.id;
        }))
        e

module _ {S M : Type 0} (st : Store S) (mp : MemPool M) (env : Env) (vd : Validator S) where
  -- The message is the proposer's, signed and for the engine's chain, and names a block of the store
  -- that the validator accepts.
  pub record Proposes (e : Engine S M) (b : Cid) (m : Msg) : Type 0 where
    pub content : ConsensusMsg
    pub offer : ConsensusMsgProposal
    pub found : Block
    pub chain : bytes_equal m.chain e.chain ≡ true
    pub authentic : is_authentic st mp env vd m e ≡ ok true
    pub carried : (m.type ≡ msg_type_consensus) × (m.consensus ≡ some content)
    pub form : (content.type ≡ type_proposal) × (content.proposal ≡ some offer)
    pub sender : (env.peer_string m.from == e.state.proposer) ≡ true
    pub named : (offer.block_id == env.cid_string undef) ≡ false
    pub parsed : env.cid_parse offer.block_id ≡ some b
    pub stored : st.get_block e.store b ≡ ok found
    pub valid : (vd.is_block_valid found true e.store).0 ≡ ok tt

  -- the engine behind the validation, with the block at hand
  abbrev proposed : Block → Cid → Engine S M → Engine S M
  proposed f b e = record e {
    store = (vd.is_block_valid f true e.store).1;
    propsal_state = record (e.propsal_state) { block_ = b };
    timers = set_timer timer_propose false e.timers;
  }

  -- one that has sent its vote
  abbrev voted : Engine S M → Engine S M
  voted x = record x {
    timers = set_timer timer_prevote true x.timers;
    propsal_state = record (x.propsal_state) { step = prevote; pv_once = record { done = 1 } };
  }

  validate-ok :
      (value : String) (f : Block) (b : Cid) (e : Engine S M)
      → (value == env.cid_string undef) ≡ false
      → env.cid_parse value ≡ some b
      → st.get_block e.store b ≡ ok f
      → (vd.is_block_valid f true e.store).0 ≡ ok tt
      → validate st mp env vd value e
        ≡ (ok b, record e { store = (vd.is_block_valid f true e.store).1 })
  unfolding validate
  validate-ok value f b e named parsed stored valid =
      rw (named, parse_block_id, parsed, stored, valid) refl

  on_msg-voted :
      (m : Msg) (b : Cid) (e : Engine S M) (w : IsWaiting e) (h : Proposes e b m)
      → CanSend env
      → (on_msg st mp env vd m e).1
        ≡ voted
            (send_vote env vote_type_pre_vote
              (if b == undef then env.cid_string undef else h.offer.block_id)
              (proposed h.found b e)).1
  unfolding on_msg by_msg_type by_consensus_type on_proposal do_pv_once do_once accept_proposal
      stop_timer restart_timer
  on_msg-voted m b e w h c =
      rw
        (
          h.chain,
          h.authentic,
          h.carried.0,
          h.carried.1,
          h.form.0,
          h.form.1,
          validate-ok h.offer.block_id h.found b e h.named h.parsed h.stored h.valid,
          w.pv_armed,
          send_vote-ok env c _ _ _,
          h.sender,
          w.step,
        )
        refl

  -- What a follower is behind a proposal that it accepts.
  pub record Accepts (e : Engine S M) (b : Cid) (e' : Engine S M) : Type 0 where
    pub voting : IsVoting e'
    pub block_ : e'.propsal_state.block_ ≡ b
    pub height : e'.propsal_state.height ≡ e.propsal_state.height
    pub round : e'.propsal_state.round ≡ e.propsal_state.round
    pub f : e'.propsal_state.f ≡ e.propsal_state.f
    pub state : e'.state ≡ e.state

  voted-Accepts :
      (f : Block) (b : Cid) (v : String) (e : Engine S M)
      → IsWaiting e
      → Accepts e b (voted (send_vote env vote_type_pre_vote v (proposed f b e)).1)
  voted-Accepts f b v e w =
      let k : Frames {S = S} {M = M} (send_vote env vote_type_pre_vote v) =
        Frames-send_vote env vote_type_pre_vote v in
      let x = proposed f b e in
      record {
        voting = record {
          step = refl;
          following = ap (λ s. s.am_proposer) (k.propsal x) ∙ w.following;
          no_votes = ap (λ s. s.pre_votes) (k.propsal x) ∙ w.no_votes;
          no_commits = ap (λ s. s.pre_commits) (k.propsal x) ∙ w.no_commits;
          pc_armed = ap (λ s. s.pc_once.done == 1) (k.propsal x) ∙ w.pc_armed;
          sb_armed = ap (λ s. s.sb_once.done == 1) (k.propsal x) ∙ w.sb_armed;
        };
        block_ = ap (λ s. s.block_) (k.propsal x);
        height = ap (λ s. s.height) (k.propsal x);
        round = ap (λ s. s.round) (k.propsal x);
        f = ap (λ s. s.f) (k.propsal x);
        state = k.state x;
      }

  -- That block is at hand, with no vote yet, in the same round, under the same threshold.
  pub proposal-Accepts :
      (m : Msg) (b : Cid) (e : Engine S M)
      → IsWaiting e
      → Proposes e b m
      → CanSend env
      → Accepts e b (on_msg st mp env vd m e).1
  proposal-Accepts m b e w h c =
      subst (Accepts e b) (sym (on_msg-voted m b e w h c)) (voted-Accepts h.found b _ e w)

-- ===== src/Consensus/Authentic.antt =====
-- Lemmas on `onMsg` of pkg/did/consensus/consensus.go: which messages an engine takes notice of.
use didem.Base.{
  Bool, true, false, Option, none, some, ◌++◌, Result, ok, err, panic, continue, ◌≡◌, ◌≢◌, arith,
  refl, Bool-cases, inl, inr, Option-cases,
}
use didem.Tx.{Bytes, Node}
use didem.Storage.Store.{Store}
use didem.Consensus.Msg.{Msg}
use didem.Consensus.Engine.{Engine, Env, MemPool, Validator}
use didem.Consensus.Send.{signature_data}
use didem.Consensus.Handlers.{bytes_equal, is_authentic, signature_ok, judge, on_msg, by_msg_type}
use didem.Consensus.Votes.{when}

module _ {S M : Type 0} (st : Store S) (mp : MemPool M) (env : Env) (vd : Validator S) where
  -- The sender is a node of the store, and its key, a public key, verifies the signature over the
  -- sender's bytes and the message with the signature taken out.
  pub record IsSigned (m : Msg) (e : Engine S M) : Type 0 where
    pub node : Node
    pub raw : Bytes
    pub peer : Bytes
    pub content : Bytes
    pub known : st.node e.store (env.peer_string m.from) ≡ ok (some node)
    pub encoded : (env.peer_bytes m.from ≡ some peer) × (signature_data env m ≡ some content)
    pub key : (env.decode_multibase node.key ≡ some raw) × (env.is_public_key raw ≡ true)
    pub verified : env.verify raw m.signature (peer ++ content) ≡ true

  signature_ok-parts :
      (m : Msg) (e : Engine S M) (n : Node)
      → st.node e.store (env.peer_string m.from) ≡ ok (some n)
      → signature_ok st mp env vd m n ≡ ok true
      → IsSigned m e
  signature_ok-parts m e n known h = elim (Option-cases (env.peer_bytes m.from)) [
    | inl bad ↦ absurd (ground arith)
    | inr (peer, p) ↦ elim (Option-cases (signature_data env m)) [
      | inl bad ↦ absurd (ground arith)
      | inr (content, q) ↦ elim (Option-cases (env.decode_multibase n.key)) [
        | inl bad ↦ absurd (ground arith)
        | inr (raw, r) ↦ record {
          node = n;
          raw = raw;
          peer = peer;
          content = content;
          known = known;
          encoded = (p, q);
          key = (r, ground arith);
          verified = ground arith;
        }
      ]
    ]
  ]

  judge-IsSigned :
      (m : Msg) (e : Engine S M) (r : Result (Option Node))
      → st.node e.store (env.peer_string m.from) ≡ r
      → judge st mp env vd m r ≡ ok true
      → IsSigned m e
  judge-IsSigned m e (ok none) known h = absurd (ground arith)
  judge-IsSigned m e (ok (some n)) known h = signature_ok-parts m e n known h
  judge-IsSigned m e (err _) known h = absurd (ground arith)
  judge-IsSigned m e panic known h = absurd (ground arith)

  is_authentic-IsSigned :
      (m : Msg) (e : Engine S M) → is_authentic st mp env vd m e ≡ ok true → IsSigned m e
  unfolding is_authentic
  is_authentic-IsSigned m e h = judge-IsSigned m e (st.node e.store (env.peer_string m.from)) refl h

  checked :
      (m : Msg) (r : Result Bool) (e : Engine S M)
      → (continue r (λ good. when good (by_msg_type st mp env vd m.type m)) e).1 ≢ e
      → r ≡ ok true
  checked m (ok true) e h = refl
  checked m (ok false) e h = absurd (h refl)
  checked m (err _) e h = absurd (h refl)
  checked m panic e h = absurd (h refl)

  -- A message changes nothing of an engine unless it is for the engine's chain and signed by a node
  -- that the store knows.
  pub on_msg_authentic :
      (m : Msg) (e : Engine S M)
      → (on_msg st mp env vd m e).1 ≢ e
      → (bytes_equal m.chain e.chain ≡ true) × IsSigned m e
  unfolding on_msg
  on_msg_authentic m e h = elim (Bool-cases (bytes_equal m.chain e.chain)) [
    | inl same ↦ (
      same,
      is_authentic-IsSigned m e (checked m (is_authentic st mp env vd m e) e (rw same at h)),
    )
    | inr other ↦ absurd ((rw other at h) refl)
  ]

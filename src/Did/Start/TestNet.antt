-- ===== src/Did/Start/TestNet.antt =====
-- `Start` of internal/did/handler.go on a test chain, with another node at the end of the stream.
use didem.Base.{
  true, false, some, List, [], ◌∷◌, String, string_eq, starts_with, same_bytes_refl, Result, ok,
  ◌≡◌, refl,
}
use didem.W3cdid.Url.{text_bytes}
use didem.Tx.{Bytes}
use didem.Storage.Store.{Store}
use didem.Storage.Validator.{ValidatorEnv}
use didem.Consensus.Msg.{PeerId}
use didem.Consensus.Channels.{Router}
use didem.Stream.{Wire}
use didem.Did.Tips.{Codec, req_tip, ask_for_tip}
use didem.Did.Exchange.{IsFaithful, asking, replies, req_tip-handle}
use didem.Did.Start.{Attempt, Handler, TipEnv, required_peers, gather, use_tip, start}

one_answer :
    (ask : PeerId → Result String) (p : PeerId) (t : String)
    → ask p ≡ ok t
    → ask_for_tip ask false (p ∷ []) ≡ ok ((t, 1) ∷ [])
unfolding ask_for_tip
one_answer ask p t e = rw e refl

one_required : (c : Bytes) → starts_with (text_bytes "test") c ≡ true → required_peers c ≡ 1
unfolding required_peers
one_required c test = rw test refl

module _ {S M R T : Type 0} (st : Store S) (venv : ValidatorEnv) (net : Router R T)
    (env : TipEnv) where
  -- On a test chain, where the first of the shuffled peers is a node of the same chain that answers in
  -- time, `Start` goes on with that node's tip, after one attempt and one request.
  pub start-test_net :
      (code : Codec) (own : String) (w : Attempt Wire) (ws : List (Attempt Wire))
      (h : Handler S M R T) (p : PeerId) (peers more : List PeerId)
      → IsFaithful code h.engine.chain own h.engine.chain
      → starts_with (text_bytes "test") h.engine.chain ≡ true
      → gather 1 [] w.rounds ≡ some peers
      → w.shuffled peers ≡ p ∷ more
      → w.answering (p ∷ []) ≡ p ∷ []
      → w.late ≡ false
      → w.streams ≡ asking code (replies code h.engine.chain own)
      → start st venv net env (w ∷ ws) h ≡ use_tip st venv net env own h
  unfolding start
  start-test_net code own w ws h p peers more faithful test found first answers late streams =
      let same = same_bytes_refl h.engine.chain in
      let asked = req_tip-handle code h.engine.chain own h.engine.chain faithful p in
      let tip : req_tip w.streams h.engine.chain p ≡ ok own = rw (streams, asked, same) refl in
      let got = one_answer (req_tip w.streams h.engine.chain) p own tip in
      let one = one_required h.engine.chain test in
      rw (one, found, first, one, answers, late, got, one) refl

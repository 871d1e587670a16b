-- ===== src/Did/Exchange.antt =====
-- What one node learns of another over internal/did/handler.go: ReqTip of the one against Handle of the
-- other.
use didem.Base.{
  ℕ, ◌≤◌, true, false, some, List, [], ◌∷◌, ◌++◌, String, length, nat_eq, if◌then◌else◌, ok, err,
  Exec, wrap, eof, Bool-cases, inl, inr, same_bytes, same_bytes_refl, same_bytes_eq, ◌≡◌, refl,
  arith,
}
use didem.Tx.{Bytes}
use didem.Consensus.Msg.{PeerId}
use didem.Stream.{Wire, wire, wire_read_by, next_read}
use didem.Stream.Frames.{
  frame, sent, read_one, read_piece-err, write-frame, next_read-cons, length-frame,
}
use didem.Did.Tips.{tip, Codec, Peers, handle, serve, handle_tip_req, talk, req_tip}

-- The encodings are read back, and these messages are short enough for one frame.
pub record IsFaithful (code : Codec) (chain : Bytes) (own : String) (chain' : Bytes) : Type 0 where
  pub request : Bytes
  pub response : Bytes
  pub asks : code.marshal_request (tip (record { chain_id = chain })) ≡ some request
  pub asked : code.unmarshal_request request ≡ some (tip (record { chain_id = chain }))
  pub answers : code.marshal_response (record { tip = own; chain_id = chain' }) ≡ some response
  pub answered : code.unmarshal_response response ≡ some (record { tip = own; chain_id = chain' })
  pub request_fits : length request ≤ 4092
  pub response_fits : length response ≤ 4092

-- a node that answers on a stream that was opened to it
abbrev pub answering : Codec → Peers Wire
answering code = record { open_stream = λ p. err eof; net = wire; close = λ w. w; code = code }

-- what it sends back for what was sent to it
abbrev pub replies : Codec → Bytes → String → List Bytes → List Bytes
replies code chain own pieces =
    (handle (answering code) chain own (record { incoming = pieces; outgoing = [] })).1.outgoing

-- A read comes after the replies to what was written since the last one.
abbrev pub linked : (List Bytes → List Bytes) → ℕ → Exec Wire Bytes
linked f n w = next_read n (record { incoming = w.incoming ++ f w.outgoing; outgoing = [] })

-- a node that asks, with the other one at the end of its streams
abbrev pub asking : Codec → (List Bytes → List Bytes) → Peers Wire
asking code f = record {
  open_stream = λ p. ok (record { incoming = []; outgoing = [] });
  net = wire_read_by (linked f);
  close = λ w. w;
  code = code;
}

module _ (code : Codec) (chain : Bytes) (own : String) (chain' : Bytes)
    (faithful : IsFaithful code chain own chain') where
  open faithful use {request, response, asks, asked, answers, answered, request_fits, response_fits}

  replies_lem :
      replies code chain' own (frame request ∷ [])
      ≡ (if same_bytes chain chain' then frame response ∷ [] else [])
  unfolding handle serve handle_tip_req
  replies_lem =
      let size : length (frame request) ≤ 4096 = omega (arith, length-frame request) in
      let empty : Wire = record { incoming = []; outgoing = [] } in
      let (buf, r) =
        read_one wire (record { incoming = frame request ∷ []; outgoing = [] }) empty [] request
          request_fits (next_read-cons (frame request) [] [] size) in
      let (_, written) = write-frame next_read empty buf [] response response_fits in
      rw (replies, r, asked)
        (elim (Bool-cases (same_bytes chain chain')) [
          | inl t ↦ rw (t, answers, written) refl
          | inr f ↦ rw f refl
        ])

  abbrev asked_wire : Wire
  asked_wire = record { incoming = []; outgoing = frame request ∷ [] }

  answer_comes :
      same_bytes chain chain' ≡ true
      → linked (replies code chain' own) 4096 asked_wire
        ≡ (ok (frame response), record { incoming = []; outgoing = [] })
  answer_comes t =
      let size : length (frame response) ≤ 4096 = omega (arith, length-frame response) in
      rw (replies_lem, t) (next_read-cons (frame response) [] [] size)

  no_answer :
      same_bytes chain chain' ≡ false
      → linked (replies code chain' own) 4096 asked_wire
        ≡ (err eof, record { incoming = []; outgoing = [] })
  no_answer n = rw (replies_lem, n) refl

  same_chain : same_bytes chain chain' ≡ true → same_bytes chain' chain ≡ true
  same_chain t = rw (same_bytes_eq chain chain' t) (same_bytes_refl chain')

  -- A node learns the tip of the node that it asks where the two are on one chain, and otherwise an
  -- error, since the other one closes the stream without an answer.
  pub req_tip-handle :
      (p : PeerId)
      → req_tip (asking code (replies code chain' own)) chain p
        ≡ (if same_bytes chain chain' then ok own else err (wrap eof))
  unfolding req_tip talk
  req_tip-handle p =
      let f = replies code chain' own in
      let empty : Wire = record { incoming = []; outgoing = [] } in
      let (buf, written) = write-frame (linked f) empty [] [] request request_fits in
      rw (asks, written)
        (elim (Bool-cases (same_bytes chain chain')) [
          | inl t ↦
              let (_, r) =
                read_one (wire_read_by (linked f)) (sent empty (frame request)) empty buf response
                  response_fits (answer_comes t) in
              rw (r, answered, t) (rw (same_chain t) refl)
          | inr n ↦
              let r =
                read_piece-err (wire_read_by (linked f)) (sent empty (frame request)) buf empty eof
                  (no_answer n) in
              rw (r, n) refl
        ])

-- ===== src/Stream/Laws.antt =====
-- What internal/stream/stream.go reads back of what it wrote.
use didem.Base.{
  ℕ, zero, suc, ◌%◌, ◌^◌, ◌≤◌, ◌<◌, leb, [], ◌∷◌, length, take, drop, ok, take_all, ◌≡◌, refl,
  arith, length-take, Bool-cases, inl, inr,
}
use didem.Tx.{Bytes}
use didem.Stream.{Rw, read, Wire, wire, next_read, write, new_rw}
use didem.Stream.Frames.{write-frame, write-long, read_whole, read_front}

-- What the network delivers of the pieces that a sender has written: each read gives one of them.
abbrev pub delivered : Wire → Rw Wire
delivered w = new_rw (record { incoming = w.outgoing; outgoing = [] })

abbrev pub fresh : Rw Wire
fresh = new_rw (record { incoming = []; outgoing = [] })

abbrev empty : Wire
empty = record { incoming = []; outgoing = [] }

short_message :
    (b : Bytes)
    → length b ≤ 4092
    → (read wire (delivered (write wire b fresh).1.stream)).0 ≡ ok (take 4092 b)
short_message b h =
    let (_, e) = write-frame next_read empty [] [] b h in
    rw (e, take_all 4092 b h) (read_whole b [] [] h)

long_message :
    (b : Bytes) (x : ℕ) (rest : Bytes)
    → length b < 2 ^ 32
    → 4092 < length b
    → drop 4092 b ≡ x ∷ rest
    → (read wire (delivered (write wire b fresh).1.stream)).0 ≡ ok (take 4092 b)
long_message [] x rest h over e = absurd (omega arith)
long_message (y ∷ b) x rest h over e =
    let (_, written) = write-long empty [] [] (y ∷ b) x rest over e in
    let low : length (y ∷ b) % 2 ^ 32 ≡ length (y ∷ b) = omega arith in
    let size = length-take 4092 (y ∷ b) (omega arith) in
    rw (written, low)
      (read_front (length (y ∷ b)) y (take 4091 b) ((x ∷ rest) ∷ []) [] h (rw size (omega arith))
        (rw size (omega arith)))

-- `drop` leaves something of a longer list
drop_cons : (n : ℕ) (xs : Bytes) → n < length xs → (x : ℕ) × (rest : Bytes) × (drop n xs ≡ x ∷ rest)
drop_cons n [] h = absurd (omega arith)
drop_cons zero (x ∷ xs) h = (x, xs, refl)
drop_cons (suc n) (x ∷ xs) h = drop_cons n xs (omega arith)

-- A message below 4 GiB that is written to a new stream and delivered in the pieces in which it was
-- written is read back by a new reader up to its first 4092 bytes, without an error: whole exactly
-- where it is no longer than that.
pub read-write :
    (b : Bytes)
    → length b < 2 ^ 32
    → (read wire (delivered (write wire b fresh).1.stream)).0 ≡ ok (take 4092 b)
read-write b h = elim (Bool-cases (leb (length b) 4092)) [
  | inl t ↦ short_message b (ground arith)
  | inr f ↦
      let over : 4092 < length b = ground arith in
      let (x, rest, e) = drop_cons 4092 b over in long_message b x rest h over e
]

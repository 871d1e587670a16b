-- ===== src/Stream/Frames.antt =====
-- What internal/stream/stream.go writes and reads, frame by frame.
use didem.Base.{
  ℕ, ◌+◌, ◌%◌, ◌^◌, ◌≤◌, ◌<◌, leb, Option, none, List, [], ◌∷◌, ◌++◌, length, take, drop, Error, ok,
  err, Exec, take-append, drop-append, take_all, drop_all, ◌≡◌, ◌∙◌, refl, ap, arith, append-nil,
  Bool-cases, true, false, inl, inr,
}
use didem.Tx.{Bytes}
use didem.Ipfs.Keys.{put_uint32}
use didem.Ipfs.KeyLaws.{uint32-put_uint32}
use didem.Stream.{
  NetStream, Rw, grow, overwrite, read_into, read, Wire, wire, wire_read_by, next_read, put_length,
  write, new_rw, default_size,
}

-- a message behind its length
unfoldable pub frame : Bytes → Bytes
unfolding put_uint32
frame b = put_uint32 (length b % 2 ^ 32) ++ b

abbrev pub state_of : {W : Type 0} → W → Bytes → Option Error → Bytes → Bytes → Rw W
state_of s us we buf unread = record {
  stream = s;
  buf = buf;
  unread = unread;
  unsent = us;
  write_err = we;
}

-- one that holds nothing back
abbrev pub idle : {W : Type 0} → W → Bytes → Bytes → Rw W
idle w buf unread = state_of w [] none buf unread

module _ {W : Type 0} (net : NetStream W) (s : W) (us : Bytes) (we : Option Error) where
  read_into-append :
      (buf xs rest : Bytes)
      → read_into net (length xs) (state_of s us we buf (xs ++ rest))
        ≡ (ok xs, state_of s us we (overwrite xs (grow (length xs) buf)) rest)
  unfolding read_into
  read_into-append buf [] rest = refl
  read_into-append buf (x ∷ xs) rest = ground (
    arith,
    take-append xs rest,
    drop-append xs rest,
    take-append xs (drop (length (x ∷ xs)) (grow (length (x ∷ xs)) buf)),
  )

  read_announced :
      (buf b rest : Bytes)
      → length b < 2 ^ 32
      → (buf' : Bytes) × (read net (state_of s us we buf (put_uint32 (length b) ++ (b ++ rest)))
          ≡ (ok b, state_of s us we buf' rest))
  unfolding read put_uint32
  read_announced buf b rest h =
      let stored = overwrite (put_uint32 (length b)) (grow 4 buf) in
      (
        overwrite b (grow (length b) stored),
        rw (uint32-put_uint32 (length b) h) (read_into-append stored b rest),
      )

  -- A frame that is buffered is read whole, and what follows it stays for the next call.
  pub read-frame :
      (buf b rest : Bytes)
      → length b < 2 ^ 32
      → (buf' : Bytes) × (read net (state_of s us we buf (frame b ++ rest))
          ≡ (ok b, state_of s us we buf' rest))
  unfolding frame put_uint32
  read-frame buf b rest h =
      let low : length b % 2 ^ 32 ≡ length b = omega arith in rw low (read_announced buf b rest h)

abbrev pub sent : Wire → Bytes → Wire
sent w b = record w { outgoing = w.outgoing ++ (b ∷ []) }

-- a message that fits the buffer behind its length is sent as one piece
pub write-frame :
    (f : ℕ → Exec Wire Bytes) (w : Wire) (buf unread b : Bytes)
    → length b ≤ 4092
    → (buf' : Bytes) × (write (wire_read_by f) b (idle w buf unread)
        ≡ (ok tt, idle (sent w (frame b)) buf' unread))
unfolding write frame
write-frame f w buf unread b h =
    let fits : leb (length b) 4092 ≡ true = ground arith in (put_length b buf, rw fits refl)

leb-false : (m n : ℕ) → n < m → leb m n ≡ false
leb-false m n h = ground arith

pub leb-true : (m n : ℕ) → m ≤ n → leb m n ≡ true
leb-true m n h = ground arith

-- a longer one fills the buffer once, and the rest of it is a second piece
pub write-long :
    (w : Wire) (buf unread b : Bytes) (x : ℕ) (rest : Bytes)
    → 4092 < length b
    → drop 4092 b ≡ x ∷ rest
    → (buf' : Bytes) × (write wire b (idle w buf unread) ≡ (
      ok tt,
      idle (sent (sent w (put_uint32 (length b % 2 ^ 32) ++ take 4092 b)) (x ∷ rest)) buf' unread,
    ))
unfolding write
write-long w buf unread b x rest h e = (
  put_length b buf,
  rw (leb-false (length b) 4092 h, e)
      (elim (Bool-cases (leb (length (x ∷ rest)) default_size)) [
        | inl t ↦ rw t refl
        | inr f ↦ rw f refl
      ]),
)

module _ (w : Wire) where
  read_into-short :
      (buf : Bytes) (n x : ℕ) (xs : Bytes)
      → length (x ∷ xs) ≤ n
      → read_into wire n (idle w buf (x ∷ xs))
        ≡ (ok (x ∷ xs), idle w (overwrite (x ∷ xs) (grow n buf)) [])
  unfolding read_into
  read_into-short buf n x xs h = ground (
    arith,
    take_all n (x ∷ xs) h,
    drop_all n (x ∷ xs) h,
    take-append xs (drop (length (x ∷ xs)) (grow n buf)),
  )

  -- a frame of which only the front is buffered is read short
  read-short :
      (buf : Bytes) (n x : ℕ) (xs : Bytes)
      → n < 2 ^ 32
      → length (x ∷ xs) ≤ n
      → (buf' : Bytes) × (read wire (idle w buf (put_uint32 n ++ (x ∷ xs)))
          ≡ (ok (x ∷ xs), idle w buf' []))
  unfolding read put_uint32
  read-short buf n x xs h short =
      let stored = overwrite (put_uint32 n) (grow 4 buf) in
      (
        overwrite (x ∷ xs) (grow n stored),
        rw (uint32-put_uint32 n h) (read_into-short stored n x xs short),
      )

module _ {W : Type 0} (net : NetStream W) (w : W) (buf : Bytes) where
  -- what a reader with nothing buffered does first is take the next piece
  pub read_piece :
      (w' : W) (x : ℕ) (b : Bytes)
      → net.read 4096 w ≡ (ok (x ∷ b), w')
      → read net (idle w buf []) ≡ read net (idle w' buf (x ∷ b))
  unfolding read read_into
  read_piece w' x b e = rw e refl

  pub read_piece-err :
      (w' : W) (e : Error) → net.read 4096 w ≡ (err e, w') → (read net (idle w buf [])).0 ≡ err e
  unfolding read read_into
  read_piece-err w' e h = rw h refl

pub next_read-cons :
    (b : Bytes) (l o : List Bytes)
    → length b ≤ 4096
    → next_read 4096 (record { incoming = b ∷ l; outgoing = o })
      ≡ (ok b, record { incoming = l; outgoing = o })
next_read-cons b l o h = rw (leb-true (length b) 4096 h) refl

-- a frame that comes in one piece is read whole
pub read_one :
    {W : Type 0} (net : NetStream W) (w w' : W) (buf b : Bytes)
    → length b ≤ 4092
    → net.read 4096 w ≡ (ok (frame b), w')
    → (buf' : Bytes) × (read net (idle w buf []) ≡ (ok b, idle w' buf' []))
unfolding frame put_uint32
read_one net w w' buf b h e =
    let (buf', r) = read-frame net w' [] none buf b [] (omega arith) in
    let same = append-nil (frame b) in (buf', read_piece net w buf w' _ _ e ∙ (rw same at r))

pub length-frame : (b : Bytes) → length (frame b) ≡ length b + 4
unfolding frame put_uint32
length-frame b = omega arith

pub read_whole :
    (b : Bytes) (l o : List Bytes)
    → length b ≤ 4092
    → (read wire (new_rw (record { incoming = frame b ∷ l; outgoing = o }))).0 ≡ ok b
unfolding frame put_uint32
read_whole b l o h =
    let piece = next_read-cons (frame b) l o (omega arith) in
    let (_, e) = read_one wire _ _ [] b h piece in ap (λ r. r.0) e

pub read_front :
    (n x : ℕ) (xs : Bytes) (l o : List Bytes)
    → n < 2 ^ 32
    → length (x ∷ xs) ≤ n
    → length (x ∷ xs) ≤ 4092
    → (read wire (new_rw (record { incoming = (put_uint32 n ++ (x ∷ xs)) ∷ l; outgoing = o }))).0
      ≡ ok (x ∷ xs)
unfolding put_uint32
read_front n x xs l o h short fits =
    let w : Wire = record { incoming = (put_uint32 n ++ (x ∷ xs)) ∷ l; outgoing = o } in
    let (_, e) = read-short (record w { incoming = l }) [] n x xs h short in
    rw
      (read_piece wire w [] (record w { incoming = l }) _ _
        (next_read-cons (put_uint32 n ++ (x ∷ xs)) l o (omega arith)))
      (ap (λ r. r.0) e)

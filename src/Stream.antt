-- ===== src/Stream.antt =====
-- internal/stream/stream.go: messages behind their length on a network stream, with the parts of
-- bytes.Buffer (Grow) and of bufio (Reader.Read, Writer.Write, Writer.Flush) that it uses.
pub mod Frames
pub mod Laws
use didem.Base.{
  ℕ, ◌+◌, ◌-◌, ◌*◌, ◌%◌, ◌^◌, leb, nat_eqb, if◌then◌else◌, Option, none, some, List, [], ◌∷◌, ◌++◌,
  length, take, drop, replicate, Error, eof, Result, ok, err, panic, Exec, ◌>>=◌,
}
use didem.Tx.{Bytes}
use didem.Storage.TxSet.{wrapped_exec}
use didem.Ipfs.Keys.{put_uint32, uint32}

-- What a `network.Stream` does: one read gives at most as many bytes as asked, one write takes all of
-- them or fails.
pub record NetStream (W : Type 0) : Type 0 where
  pub read : ℕ → Exec W Bytes
  pub write : Bytes → Exec W Unit

pub record Rw (W : Type 0) : Type 0 where
  pub stream : W
  -- the whole array of the bytes.Buffer, which keeps its bytes when the buffer is reset
  pub buf : Bytes
  -- what the bufio.Reader has read and not handed over
  pub unread : Bytes
  -- what the bufio.Writer has not written yet, and the error after which it writes no more
  pub unsent : Bytes
  pub write_err : Option Error

-- `NewRW`
abbrev pub new_rw : {W : Type 0} → W → Rw W
new_rw s = record { stream = s; buf = []; unread = []; unsent = []; write_err = none }

-- the size of both bufio buffers
abbrev pub default_size : ℕ
default_size = 4096

-- `Reset` and `Grow`: the array stays where it is large enough, and is replaced by zeros elsewhere
-- (64 of them for the first small one).
unfoldable pub grow : ℕ → Bytes → Bytes
grow n [] = if leb n 64 then replicate 64 0 else replicate n 0
grow n (b ∷ buf) =
    let size : ℕ = length (b ∷ buf) in if leb n size then b ∷ buf else replicate (2 * size + n) 0

-- `copy` to the front of the array
abbrev pub overwrite : Bytes → Bytes → Bytes
overwrite xs buf = xs ++ drop (length xs) buf

-- the length, as 32 bits, at the front of the array
abbrev pub put_length : Bytes → Bytes → Bytes
put_length b buf = overwrite (put_uint32 (length b % 2 ^ 32)) (grow 4 buf)

module _ {W : Type 0} (net : NetStream W) where
  abbrev pub outside : {A : Type 0} → Exec W A → Exec (Rw W) A
  outside f c = let (r, w) = f c.stream in (r, record c { stream = w })

  -- `Reader.Read` copies what is buffered, and no more
  abbrev pub hand_over : ℕ → Exec (Rw W) Bytes
  hand_over n c = (ok (take n c.unread), record c { unread = drop n c.unread })

  abbrev pub keep_unread : Bytes → Exec (Rw W) Unit
  keep_unread b c = (ok tt, record c { unread = b })

  -- an empty buffer: a large read goes to the stream, a small one fills the buffer by one read
  unfoldable pub read_more : ℕ → Exec (Rw W) Bytes
  read_more n =
      if leb default_size n
      then outside (net.read n)
      else outside (net.read default_size) >>= λ b. keep_unread b >>= λ _. hand_over n

  abbrev pub when_buffered : ℕ → Bytes → Exec (Rw W) Bytes
  when_buffered n [] = read_more n
  when_buffered n (b ∷ bs) = hand_over n

  -- `Reader.Read` into a slice of that length
  unfoldable pub read_buffered : ℕ → Exec (Rw W) Bytes
  unfolding read_more
  read_buffered n c = if nat_eqb n 0 then (ok [], c) else when_buffered n c.unread c

  -- the bytes read stand at the front of the array, which is handed out from there
  abbrev pub keep_read : Bytes → Exec (Rw W) Bytes
  keep_read got c =
      let buf : Bytes = overwrite got c.buf in (ok (take (length got) buf), record c { buf = buf })

  unfoldable pub read_into : ℕ → Exec (Rw W) Bytes
  unfolding read_buffered grow
  read_into n c = (read_buffered n >>= keep_read) (record c { buf = grow n c.buf })

  -- the length stands in the first four bytes of the array, however many of them were read
  abbrev pub announced : Exec (Rw W) ℕ
  announced c = (uint32 (take 4 c.buf), c)

  -- `Rw.Read`
  unfoldable pub read : Exec (Rw W) Bytes
  unfolding read_into
  read = read_into 4 >>= λ _. announced >>= λ n. read_into n

  abbrev pub keep_write : Result Unit × W → Exec (Rw W) Unit
  keep_write (ok _, w) c = (ok tt, record c { stream = w })
  keep_write (err e, w) c = (err e, record c { stream = w; write_err = some e })
  keep_write (panic, w) c = (panic, record c { stream = w })

  abbrev pub put : Bytes → Exec (Rw W) Unit
  put b c = keep_write (net.write b c.stream) c

  abbrev pub keep_unsent : Bytes → Exec (Rw W) Unit
  keep_unsent b c = (ok tt, record c { unsent = b })

  abbrev pub unless_failed : Option Error → Exec (Rw W) Unit → Exec (Rw W) Unit
  unless_failed (some e) f c = (err e, c)
  unless_failed none f c = f c

  -- what fits the empty buffer waits there, the rest is written at once
  abbrev pub write_rest : Bytes → Exec (Rw W) Unit
  write_rest b = if leb (length b) default_size then keep_unsent b else put b

  -- what does not fit fills the buffer, which is then flushed
  abbrev pub write_more : Bytes → Exec (Rw W) Unit
  write_more b c =
      let room : ℕ = default_size - length c.unsent in
      (put (c.unsent ++ take room b) >>= λ _. keep_unsent [] >>= λ _. write_rest (drop room b)) c

  abbrev pub overflowing : Bytes → Bytes → Exec (Rw W) Unit
  overflowing [] b = put b
  overflowing (x ∷ l) b = write_more b

  -- `Writer.Write`
  unfoldable pub write_buffered : Bytes → Exec (Rw W) Unit
  write_buffered b c =
      unless_failed c.write_err
        (if leb (length b) (default_size - length c.unsent)
          then keep_unsent (c.unsent ++ b)
          else overflowing c.unsent b)
        c

  abbrev pub flush_bytes : Bytes → Exec (Rw W) Unit
  flush_bytes [] c = (ok tt, c)
  flush_bytes (x ∷ l) c = (put (x ∷ l) >>= λ _. keep_unsent []) c

  -- `Writer.Flush`
  unfoldable pub flush : Exec (Rw W) Unit
  flush c = unless_failed c.write_err (flush_bytes c.unsent) c

  -- `Rw.Write`
  unfoldable pub write : Bytes → Exec (Rw W) Unit
  unfolding write_buffered flush put_uint32 grow
  write b c =
      let buf : Bytes = put_length b c.buf in
      (wrapped_exec (write_buffered (take 4 buf)) >>= λ _.
      wrapped_exec (write_buffered b) >>= λ _. flush)
        (record c { buf = buf })

-- A stream whose bytes arrive in pieces, and which keeps what is written, the newest piece last. It
-- ends behind the last piece.
pub record Wire : Type 0 where
  pub incoming : List Bytes
  pub outgoing : List Bytes

abbrev pub next_piece : ℕ → List Bytes → Result Bytes × List Bytes
next_piece n [] = (err eof, [])
next_piece n (b ∷ l) = if leb (length b) n then (ok b, l) else (ok (take n b), drop n b ∷ l)

abbrev pub next_read : ℕ → Exec Wire Bytes
next_read n w = let (r, l) = next_piece n w.incoming in (r, record w { incoming = l })

abbrev pub wire_read_by : (ℕ → Exec Wire Bytes) → NetStream Wire
wire_read_by f = record {
  read = f;
  write = λ b w. (ok tt, record w { outgoing = w.outgoing ++ (b ∷ []) });
}

abbrev pub wire : NetStream Wire
wire = wire_read_by next_read

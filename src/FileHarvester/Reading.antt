-- ===== src/FileHarvester/Reading.antt =====
-- file.hpp, read_available: each byte that the reads deliver is consumed once and in order, whatever
-- the sizes of the reads.
use loglite.Prelude.{
  All, Bool, Bool-cases, List, Text, [], ap, arith, false, if◌then◌else◌, inl, inr, length,
  length-append, ltb, refl, sym, true, ℕ, ◌++◌, ◌+◌, ◌==◌, ◌∙◌, ◌∷◌, ◌≡◌, ◌≤◌,
}
use loglite.FileHarvester.{
  OpenFile, Options, consume_byte, consume_bytes, drain_for_grace_period, read_available, read_loop,
  seek_to, streamoff_max,
}
use loglite.FileHarvester.Lines.{
  NoNewline, accept_all, consume_bytes-append, consume_bytes-join_lines, in_line, join_lines,
}

-- The bytes of one call: the reads up to the first that is short of the buffer.
abbrev pub delivered : ℕ → List Text → Text
delivered buffer [] = []
delivered buffer (bytes ∷ reads) =
    if length bytes == 0
    then []
    else if ltb (length bytes) buffer
    then bytes
    else bytes ++ delivered buffer reads

abbrev pub delivered_all : ℕ → List (Bool × List Text) → Text
delivered_all buffer [] = []
delivered_all buffer ((seekable, reads) ∷ rounds) =
    delivered buffer reads ++ delivered_all buffer rounds

abbrev pub CanSeek : Bool × List Text → Type 0
CanSeek round = round.0 ≡ true

abbrev pub advance : OpenFile → ℕ → OpenFile
advance f n = record f { offset = f.offset + n }

module _ (o : Options) where
  consume_byte-advance :
      (f : OpenFile) (n c : ℕ)
      → consume_byte o (advance f n) c ≡ ((consume_byte o f c).0, advance (consume_byte o f c).1 n)
  unfolding consume_byte
  consume_byte-advance f n c = ground arith

  consume_bytes-advance :
      (f : OpenFile) (n : ℕ) (s : Text)
      → consume_bytes o (advance f n) s
        ≡ ((consume_bytes o f s).0, advance (consume_bytes o f s).1 n)
  unfolding consume_bytes
  consume_bytes-advance f n [] = refl
  consume_bytes-advance f n (c ∷ s) =
      rw (consume_byte-advance f n c, consume_bytes-advance (consume_byte o f c).1 n s) refl

  advance_zero : (f : OpenFile) → advance f 0 ≡ f
  advance_zero f = ground arith

  advance_twice : (f : OpenFile) (m n : ℕ) → advance (advance f m) n ≡ advance f (m + n)
  advance_twice f m n = ground arith

  -- What the bytes `s` make of `f`, with the offset behind them.
  abbrev after : OpenFile → Text → List Text × OpenFile
  after f s = ((consume_bytes o f s).0, advance (consume_bytes o f s).1 (length s))

  after-append :
      (f : OpenFile) (s t : Text)
      → after f (s ++ t) ≡ ((after f s).0 ++ (after (after f s).1 t).0, (after (after f s).1 t).1)
  after-append f s t =
      rw
        (
          consume_bytes-append o f s t,
          consume_bytes-advance (consume_bytes o f s).1 (length s) t,
          length-append s t,
        )
        (ap (λ g. ((consume_bytes o f s).0 ++ (consume_bytes o (consume_bytes o f s).1 t).0, g))
          (sym (advance_twice (consume_bytes o (consume_bytes o f s).1 t).1 (length s) (length t))))

  after-then :
      (f : OpenFile) (s t : Text) {r p : List Text × OpenFile}
      → r ≡ after p.1 t
      → p ≡ after f s
      → ◌≡◌ {A = List Text × OpenFile} (p.0 ++ r.0, r.1) (after f (s ++ t))
  after-then f s t {r} {p} hr hp =
      ap {B = List Text × OpenFile} (λ q. (p.0 ++ q.0, q.1)) hr
      ∙ ap {B = List Text × OpenFile} (λ q. (q.0 ++ (after q.1 t).0, (after q.1 t).1)) hp
      ∙ sym (after-append f s t)

  read_loop-after :
      (f : OpenFile) (reads : List Text)
      → ((read_loop o f reads).0, (read_loop o f reads).2)
        ≡ after f (delivered o.read_buffer_size reads)
  unfolding read_loop consume_bytes
  read_loop-after f [] = ap (λ g. ([], g)) (sym (advance_zero f))
  read_loop-after f (bytes ∷ reads) =
      let one = consume_bytes-advance f (length bytes) bytes in
      let rest = read_loop-after (consume_bytes o (advance f (length bytes)) bytes).1 reads in
      elim (Bool-cases (length bytes == 0)) [
        | inl e ↦ rw e (ap (λ g. ([], g)) (sym (advance_zero f)))
        | inr e ↦ elim (Bool-cases (ltb (length bytes) o.read_buffer_size)) [
          | inl k ↦ rw (e, k) one
          | inr k ↦ rw (e, k) (after-then f bytes (delivered o.read_buffer_size reads) rest one)
        ]
      ]

  offset-consume_byte : (f : OpenFile) (c : ℕ) → (consume_byte o f c).1.offset ≡ f.offset
  unfolding consume_byte
  offset-consume_byte f c = ground arith

  offset-consume_bytes : (f : OpenFile) (s : Text) → (consume_bytes o f s).1.offset ≡ f.offset
  unfolding consume_bytes
  offset-consume_bytes f [] = refl
  offset-consume_bytes f (c ∷ s) =
      offset-consume_bytes (consume_byte o f c).1 s ∙ offset-consume_byte f c

  read_available-after :
      (f : OpenFile) (seekable : Bool) (reads : List Text)
      → seekable ≡ true
      → f.offset ≤ streamoff_max
      → ((read_available o f seekable reads).0, (read_available o f seekable reads).2)
        ≡ after f (delivered o.read_buffer_size reads)
  unfolding read_available seek_to
  read_available-after f seekable reads e h =
      let small : ltb streamoff_max f.offset ≡ false = ground arith in
      rw (small, e) (read_loop-after f reads)

  drain-after :
      (f : OpenFile) (rounds : List (Bool × List Text))
      → All CanSeek rounds
      → f.offset + length (delivered_all o.read_buffer_size rounds) ≤ streamoff_max
      → drain_for_grace_period o f rounds ≡ after f (delivered_all o.read_buffer_size rounds)
  unfolding drain_for_grace_period consume_bytes
  drain-after f [] h le = ap (λ g. ([], g)) (sym (advance_zero f))
  drain-after f ((seekable, reads) ∷ rounds) h le =
      let bytes = delivered o.read_buffer_size reads in
      let more = delivered_all o.read_buffer_size rounds in
      let read = read_available-after f seekable reads h.0 (omega arith) in
      let there : (read_available o f seekable reads).2.offset ≡ f.offset + length bytes =
        ap (λ (p : List Text × OpenFile). p.1.offset) read
        ∙ ap (λ (n : ℕ). n + length bytes) (offset-consume_bytes f bytes) in
      after-then f bytes more
        (drain-after (read_available o f seekable reads).2 rounds h.1
          (omega (arith, there, length-append bytes more)))
        read

  -- Rounds of reading one file, each of any number of reads of any sizes, while its offset can be
  -- sought: if the bytes that they deliver are finished lines followed by an unfinished one, read from
  -- the start of a line, then the lines that come out are the acceptable ones among them, each once
  -- and in order, the offset has advanced by the bytes, and the unfinished line is kept.
  pub drain-join_lines :
      (f : OpenFile) (rounds : List (Bool × List Text)) (ls : List Text) (r : Text)
      → All CanSeek rounds
      → f.offset + length (delivered_all o.read_buffer_size rounds) ≤ streamoff_max
      → All NoNewline ls
      → NoNewline r
      → delivered_all o.read_buffer_size rounds ≡ join_lines ls r
      → drain_for_grace_period o (in_line o f []) rounds
        ≡ (accept_all o ls, advance (in_line o f r) (length (join_lines ls r)))
  drain-join_lines f rounds ls r seek le hs h e =
      drain-after (in_line o f []) rounds seek le
      ∙ ap (after (in_line o f [])) e
      ∙ ap {B = List Text × OpenFile} (λ p. (p.0, advance p.1 (length (join_lines ls r))))
          (consume_bytes-join_lines o f ls r hs h)

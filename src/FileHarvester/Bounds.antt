-- ===== src/FileHarvester/Bounds.antt =====
-- file.hpp: no line passes max_line_bytes, whatever is read and however the loop goes.
use loglite.Prelude.{
  All, All-append, Bool, Bool-cases, List, Option, Option-cases, Text, [], arith, inl, inr, length,
  length-append, ltb, none, some, ℕ, ◌&&◌, ◌++◌, ◌+◌, ◌<◌, ◌==◌, ◌∷◌, ◌≡◌, ◌≤◌,
}
use loglite.Prelude.Int.{pos_part}
use loglite.FileHarvester.{
  OpenFile, Options, consume_byte, consume_bytes, drain_for_grace_period, finish_line,
  flush_or_drop_pending_line, normalize_options, read_available, read_loop, seek_to, strip_cr,
}
use loglite.FileHarvester.Polling.{
  OpenAnswers, PollAnswers, RunState, after_read, file_of_turn, handle_truncation, leave_file,
  open_file, poll, poll_file, run, shutdown, started,
}

strip_cr-length : (s : Text) → length (strip_cr s) ≤ length s
strip_cr-length [] = omega arith
strip_cr-length (c ∷ []) = ground arith
strip_cr-length (c ∷ d ∷ s) = omega (arith, strip_cr-length (d ∷ s))

module _ (o : Options) where
  abbrev pub Fits : List Text → Type 0
  Fits = All (λ l. length l ≤ o.max_line_bytes)

  abbrev IsBounded : OpenFile → Type 0
  IsBounded f = length f.pending_line ≤ o.max_line_bytes

  abbrev BoundedFile : Option OpenFile → Type 0
  BoundedFile none = Unit {0}
  BoundedFile (some f) = IsBounded f

  Fits-append : (xs ys : List Text) → Fits xs → Fits ys → Fits (xs ++ ys)
  Fits-append = All-append (λ l. length l ≤ o.max_line_bytes)

  finish_line-bounds :
      (f : OpenFile) → IsBounded f → Fits (finish_line o f).0 × IsBounded (finish_line o f).1
  unfolding finish_line
  finish_line-bounds f h = ground (arith, strip_cr-length f.pending_line)

  consume_byte-bounds :
      (f : OpenFile) (c : ℕ)
      → IsBounded f
      → Fits (consume_byte o f c).0 × IsBounded (consume_byte o f c).1
  unfolding consume_byte
  consume_byte-bounds f c h =
      ground (arith, strip_cr-length f.pending_line, length-append f.pending_line (c ∷ []))

  consume_bytes-bounds :
      (f : OpenFile) (s : Text)
      → IsBounded f
      → Fits (consume_bytes o f s).0 × IsBounded (consume_bytes o f s).1
  unfolding consume_bytes
  consume_bytes-bounds f [] h = (tt, h)
  consume_bytes-bounds f (c ∷ s) h =
      let one = consume_byte-bounds f c h in
      let rest = consume_bytes-bounds (consume_byte o f c).1 s one.1 in
      (Fits-append _ _ one.0 rest.0, rest.1)

  flush-bounds :
      (f : OpenFile)
      → IsBounded f
      → Fits (flush_or_drop_pending_line o f).0 × IsBounded (flush_or_drop_pending_line o f).1
  unfolding flush_or_drop_pending_line
  flush-bounds f h = ground arith

  read_loop-bounds :
      (f : OpenFile) (reads : List Text)
      → IsBounded f
      → Fits (read_loop o f reads).0 × IsBounded (read_loop o f reads).2
  unfolding read_loop
  read_loop-bounds f [] h = (tt, h)
  read_loop-bounds f (bytes ∷ reads) h =
      let one = consume_bytes-bounds (record f { offset = f.offset + length bytes }) bytes h in
      let rest =
        read_loop-bounds (consume_bytes o (record f { offset = f.offset + length bytes }) bytes).1
          reads one.1 in
      elim (Bool-cases (length bytes == 0)) [
        | inl e ↦ rw e (tt, h)
        | inr e ↦ elim (Bool-cases (ltb (length bytes) o.read_buffer_size)) [
          | inl k ↦ rw (e, k) (one.0, one.1)
          | inr k ↦ rw (e, k) (Fits-append _ _ one.0 rest.0, rest.1)
        ]
      ]

  read_available-bounds :
      (f : OpenFile) (seekable : Bool) (reads : List Text)
      → IsBounded f
      → Fits (read_available o f seekable reads).0 × IsBounded (read_available o f seekable reads).2
  unfolding read_available
  read_available-bounds f seekable reads h = elim (Bool-cases (seek_to seekable f.offset)) [
    | inl e ↦ rw (e, read_available) (read_loop-bounds f reads h)
    | inr e ↦ rw (e, read_available) (tt, h)
  ]

  drain-bounds :
      (f : OpenFile) (rounds : List (Bool × List Text))
      → IsBounded f
      → Fits (drain_for_grace_period o f rounds).0 × IsBounded (drain_for_grace_period o f rounds).1
  unfolding drain_for_grace_period
  drain-bounds f [] h = (tt, h)
  drain-bounds f ((seekable, reads) ∷ rounds) h =
      let one = read_available-bounds f seekable reads h in
      let rest = drain-bounds (read_available o f seekable reads).2 rounds one.1 in
      (Fits-append _ _ one.0 rest.0, rest.1)

  leave_file-bounds : (f : OpenFile) (a : PollAnswers) → IsBounded f → Fits (leave_file o f a)
  unfolding leave_file
  leave_file-bounds f a h =
      let drained = drain-bounds f a.drain h in
      Fits-append _ _ drained.0 (flush-bounds (drain_for_grace_period o f a.drain).1 drained.1).0

  truncation-bounds :
      (f : OpenFile) (size : Option ℕ)
      → IsBounded f
      → Fits (handle_truncation o f size).0 × IsBounded (handle_truncation o f size).1
  unfolding handle_truncation
  truncation-bounds f none h = (tt, h)
  truncation-bounds f (some size) h = elim (Bool-cases (ltb size f.offset)) [
    | inl e ↦ rw e (flush-bounds f h)
    | inr e ↦ rw e (tt, h)
  ]

  after_read-bounds :
      (f : OpenFile) (a : PollAnswers)
      → IsBounded f
      → Fits (after_read o f a).0 × BoundedFile (after_read o f a).1
  unfolding after_read
  after_read-bounds f a h = ground (arith, leave_file-bounds f a h, truncation-bounds f a.size h)

  poll_file-bounds :
      (f : OpenFile) (a : PollAnswers)
      → IsBounded f
      → Fits (poll_file o f a).0 × BoundedFile (poll_file o f a).1
  unfolding poll_file
  poll_file-bounds f a h =
      let read = read_available-bounds f a.seekable a.reads h in
      let after = after_read-bounds (read_available o f a.seekable a.reads).2 a read.1 in
      (Fits-append _ _ read.0 after.0, after.1)

  opened-bounds : (at_end : Bool) (a : OpenAnswers) → BoundedFile (open_file at_end a)
  unfolding open_file
  opened-bounds at_end a = ground arith

  file_of_turn-bounds :
      (s : RunState) (a : PollAnswers) → BoundedFile s.current → BoundedFile (file_of_turn o s a)
  unfolding file_of_turn
  file_of_turn-bounds s a h =
      ground (arith, opened-bounds (s.first_open && o.start_at_end) a.opening)

  IsBounded-of_turn :
      (t : Option OpenFile) (f : OpenFile) → t ≡ some f → BoundedFile t → IsBounded f
  IsBounded-of_turn none f e h = cc
  IsBounded-of_turn (some g) f e h = ground arith

  poll-bounds :
      (s : RunState) (a : PollAnswers)
      → BoundedFile s.current
      → Fits (poll o s a).0 × BoundedFile (poll o s a).1.current
  unfolding poll
  poll-bounds s a h = elim (Option-cases (file_of_turn o s a)) [
    | inl e ↦ rw (e, poll) (tt, h)
    | inr (f, e) ↦
        rw (e, poll) (poll_file-bounds f a (IsBounded-of_turn _ f e (file_of_turn-bounds s a h)))
  ]

  shutdown-bounds : (s : RunState) → BoundedFile s.current → Fits (shutdown o s)
  unfolding shutdown
  shutdown-bounds s h = elim (Option-cases s.current) [
    | inl e ↦ rw e tt
    | inr (f, e) ↦ rw e (flush-bounds f (IsBounded-of_turn _ f e h)).0
  ]

  run-Fits :
      (s : RunState) (turns : List PollAnswers) → BoundedFile s.current → Fits (run o s turns)
  unfolding run
  run-Fits s [] h = shutdown-bounds s h
  run-Fits s (a ∷ turns) h =
      let one = poll-bounds s a h in
      elim (Bool-cases (poll o s a).2) [
        | inl e ↦ rw e (Fits-append _ _ one.0 (shutdown-bounds (poll o s a).1 one.1))
        | inr e ↦ rw e (Fits-append _ _ one.0 (run-Fits (poll o s a).1 turns one.1))
      ]

  -- Whatever the operating system answers, and for however many turns, rotations and truncations,
  -- every line that the harvester processes is at most max_line_bytes long.
  pub run-started-Fits : (turns : List PollAnswers) → Fits (run o started turns)
  run-started-Fits turns = run-Fits started turns tt

-- What the options are after they were normalized.
abbrev pub IsNormal : Options → Type 0
IsNormal o =
    (0 < pos_part o.poll_interval)
    × (0 < pos_part o.missing_file_interval)
    × (0 < o.read_buffer_size)
    × (0 < o.max_line_bytes)

-- Normalized options have positive intervals and sizes, and options that have them are kept.
pub normalize_options-IsNormal :
    (o : Options)
    → IsNormal (normalize_options o)
      × (normalize_options (normalize_options o) ≡ normalize_options o)
unfolding normalize_options
normalize_options-IsNormal o = ground arith

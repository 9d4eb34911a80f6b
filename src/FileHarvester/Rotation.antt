-- ===== src/FileHarvester/Rotation.antt =====
-- file.hpp, run: what happens to a file that is rotated away, and where the next one starts.
use loglite.Prelude.{
  All, Bool-cases, List, Option-cases, Text, [], ap, arith, false, if◌then◌else◌, inl, inr,
  is_empty, length, ltb, none, refl, some, true, ℕ, ◌++◌, ◌+◌, ◌∷◌, ◌≡◌, ◌≤◌,
}
use loglite.FileHarvester.{OpenFile, Options, flush_or_drop_pending_line, streamoff_max}
use loglite.FileHarvester.Lines.{NoNewline, accept_all, in_line, join_lines}
use loglite.FileHarvester.Reading.{CanSeek, advance, delivered_all, drain-join_lines}
use loglite.FileHarvester.Polling.{
  PollAnswers, RunState, close_file, file_of_turn, handle_truncation, leave_file, open_file, poll,
  started,
}

module _ (o : Options) where
  -- Only the first open of all may start at the end.
  abbrev pub IsTracked : RunState → Type 0
  IsTracked s = s.first_open ≡ true → s.current ≡ none

  poll-IsTracked : (s : RunState) (a : PollAnswers) → IsTracked s → IsTracked (poll o s a).1
  unfolding poll
  poll-IsTracked s a h = elim (Option-cases (file_of_turn o s a)) [
    | inl e ↦ rw (e, poll) h
    | inr (f, e) ↦ elim (Option-cases s.current) [
      | inl c ↦ rw (e, poll, c) (λ k. cc)
      | inr (g, c) ↦ rw (e, poll, c) (λ k. cc (h k))
    ]
  ]

  opened_later :
      (s : RunState) (a : PollAnswers) (f : OpenFile)
      → s.current ≡ none
      → s.first_open ≡ false
      → file_of_turn o s a ≡ some f
      → f ≡ record f { offset = 0; pending_line = []; dropping_overlong_line = false }
  unfolding file_of_turn open_file
  opened_later s a f c h e = ground arith

  unfoldable pub states : RunState → List PollAnswers → RunState
  states s [] = s
  states s (a ∷ turns) = states (poll o s a).1 turns

  states-IsTracked :
      (s : RunState) (turns : List PollAnswers) → IsTracked s → IsTracked (states s turns)
  unfolding states
  states-IsTracked s [] h = h
  states-IsTracked s (a ∷ turns) h = states-IsTracked (poll o s a).1 turns (poll-IsTracked s a h)

  poll_later :
      (s : RunState) (a : PollAnswers) → s.first_open ≡ false → (poll o s a).1.first_open ≡ false
  unfolding poll
  poll_later s a h = elim (Option-cases (file_of_turn o s a)) [
    | inl e ↦ rw (e, poll) h
    | inr (f, e) ↦ rw (e, poll) (ground arith)
  ]

  stays_later :
      (s : RunState) (turns : List PollAnswers)
      → s.first_open ≡ false
      → (states s turns).first_open ≡ false
  unfolding states
  stays_later s [] h = h
  stays_later s (a ∷ turns) h = stays_later (poll o s a).1 turns (poll_later s a h)

  later_of_tracked :
      (s : RunState) (f : OpenFile) → IsTracked s → s.current ≡ some f → s.first_open ≡ false
  later_of_tracked s f t e = elim (Bool-cases s.first_open) [
    | inl first ↦ absurd (cc (t first))
    | inr later ↦ later
  ]

  -- Once a file has been open, however many turns, losses and rotations later, every file that is
  -- opened is read from its very beginning, with nothing pending from the one before.
  pub reopened_at_start :
      (before later : List PollAnswers) (f g : OpenFile) (a : PollAnswers)
      → (states started before).current ≡ some f
      → (states (states started before) later).current ≡ none
      → file_of_turn o (states (states started before) later) a ≡ some g
      → g ≡ record g { offset = 0; pending_line = []; dropping_overlong_line = false }
  reopened_at_start before later f g a was gone opens =
      let tracked = states-IsTracked started before (λ k. refl) in
      opened_later (states (states started before) later) a g gone
        (stays_later (states started before) later
          (later_of_tracked (states started before) f tracked was))
        opens

  -- The last line of a file that is left, if it is not finished.
  abbrev pub last_line : Text → List Text
  last_line r =
      if ltb o.max_line_bytes (length r)
      then []
      else if is_empty r
      then []
      else if o.flush_partial_line_on_close
      then r ∷ []
      else []

  close-in_line :
      (f : OpenFile) (r : Text) (n : ℕ) → close_file o (advance (in_line o f r) n) ≡ last_line r
  unfolding close_file flush_or_drop_pending_line
  close-in_line f r n = ground arith

  -- A file that was rotated away is drained before it is left: every acceptable line that the rounds
  -- of draining deliver is processed, and so is the unfinished last one where the options say so.
  pub leave_file-join_lines :
      (f : OpenFile) (a : PollAnswers) (ls : List Text) (r : Text)
      → All CanSeek a.drain
      → f.offset + length (delivered_all o.read_buffer_size a.drain) ≤ streamoff_max
      → All NoNewline ls
      → NoNewline r
      → delivered_all o.read_buffer_size a.drain ≡ join_lines ls r
      → leave_file o (in_line o f []) a ≡ accept_all o ls ++ last_line r
  unfolding leave_file
  leave_file-join_lines f a ls r seek le hs h e =
      rw (drain-join_lines o f a.drain ls r seek le hs h e) (
        ap (λ (xs : List Text). accept_all o ls ++ xs)
          (close-in_line f r (length (join_lines ls r))))

  -- A file that has become shorter than what was read of it is read again from its beginning, behind
  -- the line that was pending; a file that has not is left as it is.
  pub handle_truncation-in_line :
      (f : OpenFile) (r : Text) (size : ℕ)
      → handle_truncation o (in_line o f r) (some size) ≡ (
          if ltb size f.offset
          then (last_line r, in_line o (record f { offset = 0 }) [])
          else ([], in_line o f r))
  unfolding handle_truncation flush_or_drop_pending_line
  handle_truncation-in_line f r size = ground arith

-- ===== src/FileHarvester/Lines.antt =====
-- file.hpp, consume_bytes and finish_line: how a stream of bytes becomes lines.
use loglite.Prelude.{
  All, List, Text, [], append-nil, append_assoc, arith, false, if◌then◌else◌, is_empty, length,
  length-append, ltb, not, refl, ℕ, ◌++◌, ◌==◌, ◌||◌, ◌∷◌, ◌≡◌,
}
use loglite.FileHarvester.{OpenFile, Options, consume_byte, consume_bytes, newline, strip_cr}

abbrev pub NoNewline : Text → Type 0
NoNewline = All (λ c. (c == newline) ≡ false)

-- A text as its finished lines and an unfinished one.
abbrev pub join_lines : List Text → Text → Text
join_lines [] r = r
join_lines (l ∷ ls) r = l ++ newline ∷ join_lines ls r

module _ (o : Options) where
  -- What the harvester takes from one finished line.
  abbrev pub accept : Text → List Text
  accept l =
      if ltb o.max_line_bytes (length l)
      then []
      else if not (is_empty (strip_cr l)) || not o.ignore_empty_lines
      then strip_cr l ∷ []
      else []

  abbrev pub accept_all : List Text → List Text
  accept_all [] = []
  accept_all (l ∷ ls) = accept l ++ accept_all ls

  -- The state when `r` is what has been read of the current line.
  abbrev pub in_line : OpenFile → Text → OpenFile
  in_line f r = record f {
    pending_line = if ltb o.max_line_bytes (length r) then [] else r;
    dropping_overlong_line = ltb o.max_line_bytes (length r);
  }

  -- The bytes may come in chunks of any size.
  pub consume_bytes-append :
      (f : OpenFile) (a b : Text)
      → consume_bytes o f (a ++ b) ≡ (
        (consume_bytes o f a).0 ++ (consume_bytes o (consume_bytes o f a).1 b).0,
        (consume_bytes o (consume_bytes o f a).1 b).1,
      )
  unfolding consume_bytes
  consume_bytes-append f [] b = refl
  consume_bytes-append f (c ∷ a) b =
      rw (consume_bytes-append (consume_byte o f c).1 a b, append_assoc) refl

  consume_byte-in_line :
      (f : OpenFile) (r : Text) (c : ℕ)
      → (c == newline) ≡ false
      → consume_byte o (in_line f r) c ≡ ([], in_line f (r ++ c ∷ []))
  unfolding consume_byte
  consume_byte-in_line f r c h = ground (arith, length-append r (c ∷ []))

  consume_byte-newline :
      (f : OpenFile) (r : Text) → consume_byte o (in_line f r) newline ≡ (accept r, in_line f [])
  unfolding consume_byte
  consume_byte-newline f r = ground arith

  consume_bytes-in_line :
      (f : OpenFile) (r l : Text)
      → NoNewline l
      → consume_bytes o (in_line f r) l ≡ ([], in_line f (r ++ l))
  unfolding consume_bytes
  consume_bytes-in_line f r [] h = rw append-nil refl
  consume_bytes-in_line f r (c ∷ l) h =
      rw (consume_byte-in_line f r c h.0, consume_bytes-in_line f (r ++ c ∷ []) l h.1, append_assoc)
        refl

  consume_line :
      (f : OpenFile) (l rest : Text)
      → NoNewline l
      → consume_bytes o (in_line f []) (l ++ newline ∷ rest) ≡ (
        accept l ++ (consume_bytes o (in_line f []) rest).0,
        (consume_bytes o (in_line f []) rest).1,
      )
  unfolding consume_bytes
  consume_line f l rest h =
      rw (consume_bytes-append (in_line f []) l (newline ∷ rest), consume_bytes-in_line f [] l h)
        (rw (consume_byte-newline f l) refl)

  -- From the start of a line, any finished lines followed by an unfinished one are consumed to
  -- exactly this: each line in order, less a final carriage return, but for the overlong ones and, if
  -- blank lines are ignored, the blank ones; and the unfinished line is pending, or is being dropped
  -- if it is overlong already.
  pub consume_bytes-join_lines :
      (f : OpenFile) (ls : List Text) (r : Text)
      → All NoNewline ls
      → NoNewline r
      → consume_bytes o (in_line f []) (join_lines ls r) ≡ (accept_all ls, in_line f r)
  consume_bytes-join_lines f [] r hs h = consume_bytes-in_line f [] r h
  consume_bytes-join_lines f (l ∷ ls) r hs h =
      rw (consume_line f l (join_lines ls r) hs.0, consume_bytes-join_lines f ls r hs.1 h) refl

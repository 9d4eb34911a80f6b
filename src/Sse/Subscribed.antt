-- ===== src/Sse/Subscribed.antt =====
-- sse.hpp, notifier.hpp and the gauge of the sessions: what is subscribed and counted is what is open.
use loglite.Prelude.{
  All, All-append, Bool, Bool-cases, List, NoDup, [], any, ap, arith, false, inl, inr, keep, length,
  length-append, not, refl, subst, true, ℕ, ◌++◌, ◌+◌, ◌<◌, ◌==◌, ◌∙◌, ◌∷◌, ◌≡◌, ◌≤◌,
}
use loglite.Prelude.Int.{int_laws, pos, ℤ, ◌+ℤ◌, ◌-ℤ◌}
use loglite.Metrics.Gauges.{gauge-decrement, gauge-increment}
use loglite.Metrics.{Registry, gauge, sse_session}
use loglite.Notifier.{}
use loglite.Sse.Streams.{
  StreamEvent, Streams, begin_stream, connects, disconnects, end_stream, no_streams, notifies,
  stream_events, stream_step,
}

keep_other :
    (k : ℕ) (xs : List ℕ) → All (λ j. (j == k) ≡ false) xs → keep (λ i. not (i == k)) xs ≡ xs
keep_other k [] h = refl
keep_other k (x ∷ xs) h = rw h.0 (ap (◌∷◌ x) (keep_other k xs h.1))

All-keep : (P : ℕ → Type 0) (p : ℕ → Bool) (xs : List ℕ) → All P xs → All P (keep p xs)
All-keep P p [] h = tt
All-keep P p (x ∷ xs) h = elim (Bool-cases (p x)) [
  | inl e ↦ rw e (h.0, All-keep P p xs h.1)
  | inr e ↦ rw e (All-keep P p xs h.1)
]

NoDup-keep : (p : ℕ → Bool) (xs : List ℕ) → NoDup xs → NoDup (keep p xs)
NoDup-keep p [] h = tt
NoDup-keep p (x ∷ xs) h = elim (Bool-cases (p x)) [
  | inl e ↦ rw e (All-keep _ p xs h.0, NoDup-keep p xs h.1)
  | inr e ↦ rw e (NoDup-keep p xs h.1)
]

NoDup-append : (n : ℕ) (xs : List ℕ) → All (λ x. x < n) xs → NoDup xs → NoDup (xs ++ n ∷ [])
NoDup-append n [] b h = (tt, tt)
NoDup-append n (x ∷ xs) b h =
    (All-append _ xs (n ∷ []) h.0 (ground (arith, b.0), tt), NoDup-append n xs b.1 h.1)

All-below : (m n : ℕ) (xs : List ℕ) → m ≤ n → All (λ x. x < m) xs → All (λ x. x < n) xs
All-below m n [] le h = tt
All-below m n (x ∷ xs) le h = (omega (arith, le, h.0), All-below m n xs le h.1)

length-keep_other :
    (k : ℕ) (xs : List ℕ)
    → NoDup xs
    → any (λ i. i == k) xs ≡ true
    → length (keep (λ i. not (i == k)) xs) + 1 ≡ length xs
length-keep_other k [] d h = cc
length-keep_other k (x ∷ xs) d h = elim (Bool-cases (x == k)) [
  | inl e ↦
      let same : x ≡ k = ground (arith, e) in
      rw (e, keep_other k xs (subst (λ n. All (λ j. (j == n) ≡ false) xs) same d.0)) (omega arith)
  | inr e ↦ rw e (omega (arith, length-keep_other k xs d.1 (rw e at h)))
]

nothing_added : (z : ℤ) → z ≡ z +ℤ pos 0
nothing_added z = omega int_laws

module _ {V : Type 0} where
  -- The open sessions are the subscriptions, of which none stands twice, and are counted, above what
  -- the gauge read before.
  pub record IsSubscribed (base : ℤ) (s : Streams V) : Type 0 where
    pub subscribed : s.notifier.subs ≡ s.open_streams
    pub fresh : All (λ i. i < s.notifier.next_sub) s.open_streams
    pub distinct : NoDup s.open_streams
    pub counted : gauge s.registry sse_session ≡ base +ℤ pos (length s.open_streams)

  begin_stream-IsSubscribed :
      (base : ℤ) (s : Streams V) (w : Bool)
      → IsSubscribed base s
      → IsSubscribed base (begin_stream s w)
  unfolding begin_stream
  begin_stream-IsSubscribed base s false v = v
  begin_stream-IsSubscribed base s true v = record {
    subscribed = ap (λ l. l ++ s.notifier.next_sub ∷ []) v.subscribed;
    fresh =
        All-append _ s.open_streams (s.notifier.next_sub ∷ [])
          (All-below _ _ s.open_streams (omega arith) v.fresh) (omega arith, tt);
    distinct = NoDup-append s.notifier.next_sub s.open_streams v.fresh v.distinct;
    counted =
        gauge-increment s.registry sse_session
        ∙ ap (λ z. z +ℤ pos 1) v.counted
        ∙ one_more base (length s.open_streams) _
            (length-append s.open_streams (s.notifier.next_sub ∷ []));
  }
    where
      one_more : (a : ℤ) (n m : ℕ) → m ≡ n + 1 → a +ℤ pos n +ℤ pos 1 ≡ a +ℤ pos m
      one_more a n m e = omega int_laws

  end_stream-IsSubscribed :
      (base : ℤ) (s : Streams V) (sub : ℕ)
      → IsSubscribed base s
      → any (λ i. i == sub) s.open_streams ≡ true
      → IsSubscribed base (end_stream s sub)
  unfolding end_stream
  end_stream-IsSubscribed base s sub v h = record {
    subscribed = ap (keep (λ i. not (i == sub))) v.subscribed;
    fresh = All-keep _ _ s.open_streams v.fresh;
    distinct = NoDup-keep _ s.open_streams v.distinct;
    counted =
        gauge-decrement s.registry sse_session
        ∙ ap (λ z. z -ℤ pos 1) v.counted
        ∙ one_less base (length s.open_streams) _
            (length-keep_other sub s.open_streams v.distinct h);
  }
    where
      one_less : (a : ℤ) (n m : ℕ) → m + 1 ≡ n → a +ℤ pos n -ℤ pos 1 ≡ a +ℤ pos m
      one_less a n m e = omega int_laws

  stream_step-IsSubscribed :
      (base : ℤ) (s : Streams V) (e : StreamEvent)
      → IsSubscribed base s
      → IsSubscribed base (stream_step s e)
  unfolding stream_step
  stream_step-IsSubscribed base s (connects w) v = begin_stream-IsSubscribed base s w v
  stream_step-IsSubscribed base s (disconnects sub) v =
      elim (Bool-cases (any (λ i. i == sub) s.open_streams)) [
        | inl h ↦ rw (stream_step, h) (end_stream-IsSubscribed base s sub v h)
        | inr h ↦ rw (stream_step, h) v
      ]
  stream_step-IsSubscribed base s (notifies id) v = record {
    subscribed = v.subscribed;
    fresh = v.fresh;
    distinct = v.distinct;
    counted = v.counted;
  }

  stream_events-kept :
      (base : ℤ) (es : List StreamEvent) (s : Streams V)
      → IsSubscribed base s
      → IsSubscribed base (stream_events s es)
  unfolding stream_events
  stream_events-kept base [] s v = v
  stream_events-kept base (e ∷ es) s v =
      stream_events-kept base es (stream_step s e) (stream_step-IsSubscribed base s e v)

  -- However sessions begin and end and new logs are told, the subscriptions of the notifier are those
  -- of the sessions that are open, each once, and the gauge of the sessions reads what it read at
  -- first, plus their number.
  pub stream_events-IsSubscribed :
      (r : Registry V) (es : List StreamEvent)
      → IsSubscribed (gauge r sse_session) (stream_events (no_streams r) es)
  unfolding no_streams
  stream_events-IsSubscribed r es =
      stream_events-kept (gauge r sse_session) es (no_streams r) (record {
        subscribed = refl;
        fresh = tt;
        distinct = tt;
        counted = nothing_added (gauge r sse_session);
      })

-- ===== src/Tasks/Conservation.antt =====
-- flush_backlog.hpp over the backlog and the writer: no log is handed over twice or out of order, and
-- every one that is missing was counted.
use loglite.Prelude.{
  Bool, Bool-cases, List, Option, Text, [], ap, append-nil, append_assoc, arith, count,
  if◌then◌else◌, inl, inr, is_empty, length, length-append, none, refl, some, subst, sym, ℕ, ◌++◌,
  ◌+◌, ◌∷◌, ◌≡◌,
}
use loglite.Prelude.Int.{pos}
use loglite.Json.{ColumnInfo, Json}
use loglite.Backlog.{Backlog, add, flush}
use loglite.Backlog.Bounds.{IsValid, flush-IsValid, push-Pushed}
use loglite.Writer.{Writer}
use loglite.Metrics.{backlog_drop, collect}
use loglite.Tasks.Flush.{
  Event, Run, TaskState, Wake, after_insert, arrives, flush_round, is_running, run_events, step,
  wakes,
}
use loglite.Tasks.Subsequences.{Sub, no_elements, pushed_length, pushed_queue}

module _ {V : Type 0} where
  abbrev pub arrivals : List (Event V) → List Json
  arrivals [] = []
  arrivals (arrives now log ∷ es) = log ∷ arrivals es
  arrivals (wakes w ∷ es) = arrivals es

  -- Between what has arrived, and what was handed over, is pending, and was dropped.
  abbrev pub Conserved : List Json → Run V → Type 0
  Conserved arrived r =
      IsValid r.state.backlog
      × Sub (r.handed ++ r.state.backlog.queue) arrived
      × (length arrived ≡ length r.handed + length r.state.backlog.queue + r.drops)

  module _ (zero_value : V) (dump : Json → Text) (compressed : List Text)
      (infos : List ColumnInfo) where
    abbrev after_arrival : Run V → ℕ → Backlog Json → Bool → Run V
    after_arrival r now b' dropped = record r {
      state = record r.state {
        backlog = b';
        registry =
            if dropped
            then collect r.state.registry now backlog_drop zero_value (pos 1)
            else r.state.registry;
      };
      drops = (if dropped then 1 else 0) + r.drops;
    }

    arrives-Conserved :
        (arrived : List Json) (r : Run V) (now : ℕ) (log : Json)
        → Conserved arrived r
        → (r' : Run V) × (step zero_value dump compressed infos r (arrives now log) ≡ some r')
          × Conserved (arrived ++ log ∷ []) r'
    unfolding step add
    arrives-Conserved arrived r now log (v, sub, n) =
        let (b', dropped, e, p) = push-Pushed r.state.backlog log v in
        let kept : length b'.queue + (if dropped then 1 else 0) ≡ length r.state.backlog.queue + 1 =
          pushed_length r.state.backlog.queue log r.state.backlog.max_size b'.queue dropped
            v.bounded v.has_room p.2 p.3 in
        (
          after_arrival r now b' dropped,
          rw (step, add, e) refl,
          (
            p.0,
            subst (λ q. Sub (r.handed ++ q) (arrived ++ log ∷ [])) (sym p.2)
                (pushed_queue r.handed r.state.backlog.queue arrived log r.state.backlog.max_size
                  v.bounded v.has_room sub),
            omega (arith, n, kept, length-append arrived (log ∷ [])),
          ),
        )

    after_insert-backlog :
        (s : TaskState V) (w : Wake V) (o : Option ℕ × Writer)
        → (after_insert zero_value dump compressed infos s w o).backlog ≡ s.backlog
    unfolding after_insert
    after_insert-backlog s w (none, writer) = refl
    after_insert-backlog s w (some count, writer) = refl

    -- Logs of the queue that are handed over, behind those that were.
    moved :
        (arrived handed logs : List Json) (b b' : Backlog Json) (drops : ℕ)
        → b.queue ≡ logs
        → b' ≡ (flush b).1
        → IsValid b
        → Sub (handed ++ b.queue) arrived
        → length arrived ≡ length handed + length b.queue + drops
        → IsValid b'
          × Sub ((handed ++ logs) ++ b'.queue) arrived
          × (length arrived ≡ length (handed ++ logs) + length b'.queue + drops)
    unfolding flush
    moved arrived handed logs b b' drops same flushed v sub n = rw flushed (
      flush-IsValid b v,
      rw append-nil (subst (λ q. Sub (handed ++ q) arrived) same sub),
      omega (arith, n, ap length same, length-append handed logs),
    )

    -- What a round leaves pending, and what it hands over.
    flush_round-Conserved :
        (arrived : List Json) (r : Run V) (w : Wake V)
        → Conserved arrived r
        → let after = flush_round zero_value dump compressed infos r.state w in
          Conserved arrived (record r { state = after.0; handed = r.handed ++ after.1 })
    unfolding flush_round flush
    flush_round-Conserved arrived r w (v, sub, n) = elim (Bool-cases w.is_stopping) [
      | inl e ↦ rw (flush_round, e, append-nil r.handed) (v, sub, n)
      | inr e ↦ elim (Bool-cases (is_empty r.state.backlog.queue)) [
        | inl k ↦
            rw (flush_round, e, k)
              (moved arrived r.handed [] r.state.backlog _ r.drops (no_elements _ k) refl v sub n)
        | inr k ↦
            rw (flush_round, e, k)
              (moved arrived r.handed r.state.backlog.queue r.state.backlog _ r.drops refl
                (after_insert-backlog (record r.state { backlog = (flush r.state.backlog).1 }) w _)
                v sub n)
      ]
    ]

    wakes-Conserved :
        (arrived : List Json) (r : Run V) (w : Wake V)
        → Conserved arrived r
        → (r' : Run V) × (step zero_value dump compressed infos r (wakes w) ≡ some r')
          × Conserved arrived r'
    unfolding step
    wakes-Conserved arrived r w c = elim (Bool-cases (is_running r.state.status)) [
      | inl e ↦
          let after = flush_round zero_value dump compressed infos r.state w in
          (
            record r { state = after.0; handed = r.handed ++ after.1 },
            rw (step, e) refl,
            flush_round-Conserved arrived r w c,
          )
      | inr e ↦ (r, rw (step, e) refl, c)
    ]

    run_from :
        (es : List (Event V)) (arrived : List Json) (r : Run V)
        → Conserved arrived r
        → (r' : Run V) × (run_events zero_value dump compressed infos r es ≡ some r')
          × Conserved (arrived ++ arrivals es) r'
    unfolding run_events
    run_from [] arrived r c = (r, refl, rw append-nil c)
    run_from (arrives now log ∷ es) arrived r c =
        let (r', e, c') = arrives-Conserved arrived r now log c in
        let (r'', e', c'') = run_from es (arrived ++ log ∷ []) r' c' in
        (
          r'',
          rw (run_events, e) e',
          subst (λ l. Conserved l r'') (append_assoc arrived (log ∷ []) (arrivals es)) c'',
        )
    run_from (wakes w ∷ es) arrived r c =
        let (r', e, c') = wakes-Conserved arrived r w c in
        let (r'', e', c'') = run_from es arrived r' c' in (r'', rw (run_events, e) e', c'')

    -- However logs arrive and the flush task wakes, from an empty valid backlog, nothing is undefined,
    -- and what was handed to Insert, followed by what is pending, is what arrived, in order and each
    -- log once, without as many logs as were dropped.
    pub run_events-Conserved :
        (s : TaskState V) (es : List (Event V))
        → IsValid s.backlog
        → s.backlog.queue ≡ []
        → (r : Run V) × (run_events zero_value dump compressed infos
              (record { state = s; handed = []; drops = 0 })
              es
            ≡ some r)
          × Conserved (arrivals es) r
    run_events-Conserved s es v empty =
        run_from es [] (record { state = s; handed = []; drops = 0 })
          (v, rw empty tt, rw empty (omega arith))

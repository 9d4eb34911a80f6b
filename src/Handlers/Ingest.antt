-- ===== src/Handlers/Ingest.antt =====
-- insert.hpp, HandleInsert, over the backlog: what a request adds.
use loglite.Prelude.{
  Bool, List, Option, Option-cases, Text, [], ap, codes, drop, false, if◌then◌else◌, inl, inr,
  length, none, refl, some, suc, sym, true, zero, ℕ, ◌++◌, ◌+◌, ◌-◌, ◌>>=◌, ◌∙◌, ◌∷◌, ◌≡◌,
}
use loglite.Prelude.Int.{pos}
use loglite.Json.{Items, Json, array, boolean, cons, floating, integer, nil, null, object, string}
use loglite.Backlog.{Backlog, add, flush, push}
use loglite.Metrics.{Registry, backlog_drop, collect, ingest_request}
use loglite.Backlog.Bounds.{IsValid, flush-IsValid}
use loglite.Backlog.Refine.{push_all, push_all-Newest}
use loglite.Http.{Request, Response}
use loglite.Handlers.Insert.{
  Parsed, accepted, add_entries, handle_insert, ingest, parse_error, parsed, refused_body,
}

abbrev pub item_list : Items → List Json
item_list nil = []
item_list (cons v vs) = v ∷ item_list vs

-- The logs that a body holds.
abbrev pub logs_of : Parsed → List Json
logs_of (parsed (array vs)) = item_list vs
logs_of (parsed (object fs)) = object fs ∷ []
logs_of _ = []

abbrev pub is_accepted : Parsed → Bool
is_accepted (parsed (array vs)) = true
is_accepted (parsed (object fs)) = true
is_accepted _ = false

abbrev pub why_refused : Parsed → Text
why_refused (parse_error what) = codes "Invalid JSON: " ++ what
why_refused (parsed v) = codes "Body must be a JSON object or array"

abbrev kept : {A R : Type 0} → Option (A × R) → Option A
kept none = none
kept (some (a, r)) = some a

first_kept :
    {A : Type 0} (k : ℕ) (o : Option (A × ℕ)) → kept o ≡ kept (o >>= λ x. some (x.0, k + x.1))
first_kept k none = refl
first_kept k (some p) = refl

bind-some : {A : Type 0} (o : Option A) → (o >>= some) ≡ o
bind-some none = refl
bind-some (some a) = refl

first_known :
    {A R : Type 0} (o : Option (A × R)) (a : A) → kept o ≡ some a → (r : R) × (o ≡ some (a, r))
first_known none a h = cc
first_known (some (a', r)) a h = (r, cc)

drop-nil : {A : Type 0} (n : ℕ) (xs : List A) → xs ≡ [] → xs ≡ drop n []
drop-nil zero xs h = h
drop-nil (suc n) xs h = h

module _ {V : Type 0} (zero_value : V) (clock : ℕ → ℕ) where
  -- What is added to the backlog does not depend on the registry.
  add_entries-push_all :
      (i : ℕ) (b : Backlog Json) (r : Registry V) (vs : Items)
      → kept (add_entries zero_value clock i (b, r) vs) ≡ kept (push_all b (item_list vs))
  unfolding add_entries push_all add
  add_entries-push_all i b r nil = refl
  add_entries-push_all i b r (cons v vs) = elim (Option-cases (push b v)) [
    | inl m ↦ rw (add_entries, push_all, add, m) refl
    | inr ((b', true), m) ↦
        let r' = collect r (clock i) backlog_drop zero_value (pos 1) in
        rw (add_entries, push_all, add, m)
          (add_entries-push_all (suc i) b' r' vs ∙ first_kept 1 (push_all b' (item_list vs)))
    | inr ((b', false), m) ↦
        rw (add_entries, push_all, add, m)
          (add_entries-push_all (suc i) b' r vs ∙ first_kept 0 (push_all b' (item_list vs)))
  ]

  -- The logs that `add_entries` adds to an empty valid backlog, as a flush hands them over.
  abbrev Stored : Backlog Json → Registry V → Items → ℕ → Type 0
  Stored b r vs i =
      (b' : Backlog Json) × (r' : Registry V) × (add_entries zero_value clock i (b, r) vs
        ≡ some (b', r'))
      × ((flush b').0 ≡ drop (length (item_list vs) - b.max_size) (item_list vs))
      × IsValid b'
      × IsValid (flush b').1

  add_entries-Stored :
      (b : Backlog Json) (r : Registry V) (vs : Items) (i : ℕ)
      → IsValid b
      → b.queue ≡ []
      → Stored b r vs i
  add_entries-Stored b r vs i v empty =
      let (b', n, e, newest, dropped, held, v', emptied) =
        push_all-Newest b (item_list vs) v empty in
      let (r', e') =
        first_known (add_entries zero_value clock i (b, r) vs) b'
          (add_entries-push_all i b r vs ∙ ap kept e) in
      (b', r', e', newest, held, v')

  module _ (size_value : ℕ → V) (parse : Text → Parsed) (dump : Json → Option Text)
      (origin : Text) where
    abbrev pub answer : Request → Parsed → Option Response
    answer req p =
        if is_accepted p
        then accepted dump origin req
        else refused_body dump origin req (why_refused p)

    abbrev pub After : Backlog Json → Registry V → Request → Parsed → Type 0
    After b r req p =
        (b' : Backlog Json) × (r' : Registry V) × (handle_insert zero_value clock size_value parse
            dump origin (b, r) req
          ≡ some ((b', r'), answer req p))
        × ((flush b').0 ≡ drop (length (logs_of p) - b.max_size) (logs_of p))
        × IsValid b'
        × IsValid (flush b').1

    module _ (b : Backlog Json) (r : Registry V) (req : Request) (v : IsValid b)
        (empty : b.queue ≡ []) where
      abbrev counted : Registry V
      counted = collect r (clock 0) ingest_request (size_value (length req.body)) (pos 1)

      unchanged :
          (p : Parsed) (r' : Registry V)
          → logs_of p ≡ []
          → handle_insert zero_value clock size_value parse dump origin (b, r) req
            ≡ some ((b, r'), answer req p)
          → After b r req p
      unchanged p r' nothing e = (
        b,
        r',
        e,
        unfold flush in rw nothing (drop-nil (0 - b.max_size) b.queue empty),
        v,
        flush-IsValid b v,
      )

      added :
          (p : Parsed) (vs : Items) (i : ℕ) (r0 : Registry V)
          → logs_of p ≡ item_list vs
          → handle_insert zero_value clock size_value parse dump origin (b, r) req
            ≡ (add_entries zero_value clock i (b, r0) vs >>= λ s. some (s, answer req p))
          → After b r req p
      added p vs i r0 same e =
          let (b', r', e', newest, held, v') = add_entries-Stored b r0 vs i v empty in
          (b', r', e ∙ rw e' refl, rw same newest, held, v')

      handle_insert-After : (p : Parsed) → parse req.body ≡ p → After b r req p
      unfolding handle_insert ingest add_entries
      handle_insert-After (parse_error what) e =
          unchanged (parse_error what) counted refl (rw (handle_insert, e) refl)
      handle_insert-After (parsed null) e =
          unchanged (parsed null) counted refl (rw (handle_insert, e) refl)
      handle_insert-After (parsed (boolean x)) e =
          unchanged (parsed (boolean x)) counted refl (rw (handle_insert, e) refl)
      handle_insert-After (parsed (integer x)) e =
          unchanged (parsed (integer x)) counted refl (rw (handle_insert, e) refl)
      handle_insert-After (parsed (floating x)) e =
          unchanged (parsed (floating x)) counted refl (rw (handle_insert, e) refl)
      handle_insert-After (parsed (string x)) e =
          unchanged (parsed (string x)) counted refl (rw (handle_insert, e) refl)
      handle_insert-After (parsed (array vs)) e =
          added (parsed (array vs)) vs 1 counted refl (rw (handle_insert, e) refl)
      handle_insert-After (parsed (object fs)) e =
          added (parsed (object fs)) (cons (object fs) nil) 1 counted refl (
            rw (handle_insert, e)
              (ap (λ o. o >>= λ s. some (s, accepted dump origin req))
                (sym (bind-some (add zero_value (clock 1) (b, counted) (object fs))))))

      -- A request to insert into an empty valid backlog ends in a defined way: with the answer 200 for an
      -- array or an object, else with the answer 400 and the reason, or, where the answer cannot be
      -- printed, with an exception. A flush then hands over the logs of the body, the entries of the
      -- array or the object, the newest of them in order, as many as the capacity allows, none where
      -- the body is refused; and the backlog is valid before that flush and behind it.
      pub handle_insert-flush : After b r req (parse req.body)
      handle_insert-flush = handle_insert-After (parse req.body) refl

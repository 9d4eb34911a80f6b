-- ===== src/Server/Routes.antt =====
-- router.hpp, kRoutes and Dispatch.
use loglite.Prelude.{
  All, All-In, Bool-cases, In, List, Text, [], inl, inr, refl, some, some_eq, subst, sym, text_eq,
  text_eq_iff, true, ◌↔◌, ◌∷◌, ◌≡◌,
}
use loglite.Http.{Verb, get, options, other_verb, post}
use loglite.Server.{Handler, RouteEntry, dispatch, find_route, routes, verb_eq}

verb_eq-true : (a b : Verb) → verb_eq a b ≡ true → a ≡ b
verb_eq-true get get h = refl
verb_eq-true get post h = cc
verb_eq-true get options h = cc
verb_eq-true get other_verb h = cc
verb_eq-true post get h = cc
verb_eq-true post post h = refl
verb_eq-true post options h = cc
verb_eq-true post other_verb h = cc
verb_eq-true options get h = cc
verb_eq-true options post h = cc
verb_eq-true options options h = refl
verb_eq-true options other_verb h = cc
verb_eq-true other_verb get h = cc
verb_eq-true other_verb post h = cc
verb_eq-true other_verb options h = cc
verb_eq-true other_verb other_verb h = refl

-- A place of the table.
abbrev pub Routed : Text → Verb → Handler → Type 0
Routed path method handler = In (record { path = path; method = method; handler = handler }) routes

same_entry :
    (r : RouteEntry) (path : Text) (method : Verb)
    → path ≡ r.path
    → method ≡ r.method
    → ◌≡◌ {A = RouteEntry} (record { path = path; method = method; handler = r.handler }) r
same_entry r path method h k =
    subst (λ p. ◌≡◌ {A = RouteEntry} (record { path = p; method = method; handler = r.handler }) r)
      (sym h)
      (subst
        (λ m. ◌≡◌ {A = RouteEntry} (record { path = r.path; method = m; handler = r.handler }) r)
        (sym k) refl)

find_route-In :
    (rs : List RouteEntry) (path : Text) (method : Verb) (h : Handler)
    → find_route rs path method ≡ some h
    → In (record { path = path; method = method; handler = h }) rs
unfolding find_route
find_route-In [] path method h e = cc
find_route-In (r ∷ rs) path method h e = elim (Bool-cases (text_eq path r.path)) [
  | inr k ↦ inr (find_route-In rs path method h (rw (find_route, k) at e))
  | inl k ↦ elim (Bool-cases (verb_eq method r.method)) [
    | inr k' ↦ inr (find_route-In rs path method h (rw (find_route, k, k') at e))
    | inl k' ↦
        let same : r.handler ≡ h = some_eq (rw (find_route, k, k') at e) in
        inl (
          subst (λ x. ◌≡◌ {A = RouteEntry} (record { path = path; method = method; handler = x }) r)
            same
            (same_entry r path method ((text_eq_iff path r.path).0 k)
              (verb_eq-true method r.method k')))
  ]
]

-- Every place of the table is found.
Found : RouteEntry → Type 0
Found r = dispatch r.path r.method ≡ some r.handler

routes-Found : All Found routes
unfolding Found dispatch
routes-Found = (refl, (refl, (refl, (refl, (refl, (refl, (refl, tt)))))))

-- A request is dispatched to a handler exactly when the table has that handler for its path and its
-- method: no route hides another.
pub dispatch_iff :
    (path : Text) (method : Verb) (h : Handler)
    → (dispatch path method ≡ some h) ↔ Routed path method h
unfolding dispatch Found
dispatch_iff path method h = (
  find_route-In routes path method h,
  λ i. All-In Found (record { path = path; method = method; handler = h }) routes routes-Found i,
)

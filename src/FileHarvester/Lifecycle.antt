-- ===== src/FileHarvester/Lifecycle.antt =====
-- file.hpp, Start and Stop, run_safely and responsive_sleep: the thread of a harvester. Each of Start
-- and Stop holds the lifecycle's mutex from end to end.
use loglite.Prelude.{
  Bool, Bool-cases, List, [], arith, false, if◌then◌else◌, inl, inr, leb, min, not, refl, subst,
  suc, sym, true, ℕ, ◌-◌, ◌/◌, ◌∷◌, ◌≡◌, ◌≤◌,
}

pub record Thread : Type 0 where
  -- The thread has been started, and has not been joined.
  pub is_joinable : Bool
  pub stop_requested : Bool
  -- How many workers run.
  pub workers : ℕ

abbrev pub no_thread : Thread
no_thread = record { is_joinable = false; stop_requested = false; workers = 0 }

pub data LifecycleCall : Type 0 where
  start_call : LifecycleCall
  -- The flag says whether the worker itself calls.
  stop_call : Bool → LifecycleCall
  -- The worker returns, or throws, which `run_safely` catches.
  worker_ends : LifecycleCall

unfoldable pub start : Thread → Thread
start t =
    if t.is_joinable
    then t
    else record { is_joinable = true; stop_requested = false; workers = suc t.workers }

-- A join returns when the worker has ended.
unfoldable pub stop_thread : Thread → Bool → Thread
stop_thread t from_itself =
    if not t.is_joinable
    then t
    else if from_itself
    then record t { stop_requested = true }
    else record { is_joinable = false; stop_requested = true; workers = 0 }

unfoldable pub lifecycle_step : Thread → LifecycleCall → Thread
unfolding start stop_thread
lifecycle_step t start_call = start t
lifecycle_step t (stop_call from_itself) = stop_thread t from_itself
lifecycle_step t worker_ends = record t { workers = t.workers - 1 }

unfoldable pub lifecycle_steps : Thread → List LifecycleCall → Thread
unfolding lifecycle_step
lifecycle_steps t [] = t
lifecycle_steps t (c ∷ cs) = lifecycle_steps (lifecycle_step t c) cs

-- The reading of the clock, in nanoseconds, and whether a stop is requested, in each round.
pub record Wakeup : Type 0 where
  pub is_stopping : Bool
  pub now : ℕ

-- The milliseconds that each round sleeps, in order.
unfoldable pub responsive_sleep : ℕ → List Wakeup → List ℕ
responsive_sleep deadline [] = []
responsive_sleep deadline (w ∷ ws) =
    let rest = responsive_sleep deadline ws in
    if w.is_stopping
    then []
    else if leb deadline w.now
    then []
    else min ((deadline - w.now) / 1000000) 50 ∷ rest

abbrev IsSingle : Thread → Type 0
IsSingle t = (t.workers ≤ 1) × ((t.is_joinable ≡ false) → t.workers ≡ 0)

start-IsSingle : (t : Thread) → IsSingle t → IsSingle (start t)
unfolding start
start-IsSingle t (h, k) =
    elim t.is_joinable
        as (λ b.
          (b ≡ false → t.workers ≡ 0)
          → IsSingle (
              if b then t else record {
                is_joinable = true;
                stop_requested = false;
                workers = suc t.workers;
              })) [
                | true ↦ λ none_left. (h, k)
                | false ↦ λ none_left. (omega (arith, none_left refl), λ e. cc)
              ]
      k

stop_thread-IsSingle : (t : Thread) (b : Bool) → IsSingle t → IsSingle (stop_thread t b)
unfolding stop_thread
stop_thread-IsSingle t b (h, k) = elim (Bool-cases t.is_joinable) [
  | inr e ↦
      subst
        (λ j.
          IsSingle (if not j then t else if b then record t { stop_requested = true } else gone))
        (sym e) (h, k)
  | inl e ↦
      subst
        (λ j.
          IsSingle (if not j then t else if b then record t { stop_requested = true } else gone))
        (sym e) (told b)
]
  where
    gone : Thread
    gone = record { is_joinable = false; stop_requested = true; workers = 0 }

    told : (b : Bool) → IsSingle (if b then record t { stop_requested = true } else gone)
    told true = (h, k)
    told false = (omega arith, λ e. refl)

-- However a harvester is started and stopped, it has at most one worker, and none when its thread is
-- not joinable.
pub lifecycle_steps-IsSingle :
    (cs : List LifecycleCall) (t : Thread) → IsSingle t → IsSingle (lifecycle_steps t cs)
unfolding lifecycle_steps lifecycle_step
lifecycle_steps-IsSingle [] t v = v
lifecycle_steps-IsSingle (start_call ∷ cs) t v =
    lifecycle_steps-IsSingle cs (start t) (start-IsSingle t v)
lifecycle_steps-IsSingle (stop_call b ∷ cs) t v =
    lifecycle_steps-IsSingle cs (stop_thread t b) (stop_thread-IsSingle t b v)
lifecycle_steps-IsSingle (worker_ends ∷ cs) t (h, k) =
    lifecycle_steps-IsSingle cs (record t { workers = t.workers - 1 })
      (omega (arith, h), λ e. omega (arith, k e))

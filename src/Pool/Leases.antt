-- ===== src/Pool/Leases.antt =====
-- reader_database.hpp, ConnectionLease and UseConnection: who holds which connection, over any
-- interleaving of the threads that use the pool.
use loglite.Prelude.{
  Bool-cases, List, [], ap, arith, count, count-append, false, if◌then◌else◌, inl, inr, refl, suc,
  zero, ℕ, ◌++◌, ◌+◌, ◌<◌, ◌==◌, ◌∷◌, ◌≡◌, ◌≢◌, ◌≤◌,
}
use loglite.Pool.{Pool, acquire, close, connection, create, numbered, release, waits}

-- The first occurrence is taken out.
abbrev pub returned_one : ℕ → List ℕ → List ℕ
returned_one id [] = []
returned_one id (x ∷ xs) = if id == x then xs else x ∷ returned_one id xs

-- The pool, and the connections that are on lease.
abbrev pub Leased : Type 0
Leased = Pool × List ℕ

-- A lease begins, or ends, or the pool is closed.
pub data Step : Leased → Leased → Type 0 where
  taken :
      {p q : Pool} {held : List ℕ} (id : ℕ)
      → acquire p ≡ connection id q
      → Step (p, held) (q, id ∷ held)
  ended :
      {p : Pool} {held : List ℕ} (id : ℕ)
      → 0 < count id held
      → Step (p, held) (release p id, returned_one id held)
  closes : {p : Pool} {held : List ℕ} → Step (p, held) (close p, held)

pub data Reachable (size : ℕ) : Leased → Type 0 where
  fresh : Reachable size (create size, [])
  then_step : {s t : Leased} → Reachable size s → Step s t → Reachable size t

-- No connection is on lease twice, and in an open pool each of its connections is on lease or
-- available, once.
pub record IsExclusive (size : ℕ) (s : Leased) : Type 0 where
  pub once : (id : ℕ) → count id s.1 ≤ 1
  pub whole :
      s.0.closed ≡ false
      → (id : ℕ) → count id s.0.available + count id s.1 ≡ count id (numbered 0 size)

count-returned_one :
    (id j : ℕ) (xs : List ℕ)
    → 0 < count id xs
    → count j (returned_one id xs) + (if j == id then 1 else 0) ≡ count j xs
count-returned_one id j [] h = absurd (omega (arith, h))
count-returned_one id j (x ∷ xs) h = elim (Bool-cases (id == x)) [
  | inl e ↦ let same : x ≡ id = ground arith in rw (e, same) (omega arith)
  | inr e ↦
      let later : 0 < count id xs = omega (arith, rw e at h) in
      rw e (omega (arith, count-returned_one id j xs later))
]

count-numbered_low : (n size id : ℕ) → id < n → count id (numbered n size) ≡ 0
count-numbered_low n zero id h = refl
count-numbered_low n (suc size) id h =
    let differs : (id == n) ≡ false = ground arith in
    rw differs (omega (arith, count-numbered_low (suc n) size id (omega (arith, h))))

count-numbered : (n size id : ℕ) → count id (numbered n size) ≤ 1
count-numbered n zero id = omega arith
count-numbered n (suc size) id = elim (Bool-cases (id == n)) [
  | inl e ↦
      let same : id ≡ n = ground arith in
      rw e (omega (arith, count-numbered_low (suc n) size id (omega (arith, same))))
  | inr e ↦ rw e (omega (arith, count-numbered (suc n) size id))
]

acquire-connection :
    (p q : Pool) (id : ℕ)
    → acquire p ≡ connection id q
    → (p.closed ≡ false) × (p.available ≡ id ∷ q.available) × (q.closed ≡ false)
unfolding acquire
acquire-connection p q id h = ground arith

release-open :
    (p : Pool) (id : ℕ)
    → (release p id).closed ≡ false
    → (p.closed ≡ false) × ((release p id).available ≡ p.available ++ id ∷ [])
unfolding release
release-open p id h = ground arith

close-closed : (p : Pool) → (close p).closed ≢ false
unfolding close
close-closed p h = ground arith

module _ (size : ℕ) where
  released :
      (p : Pool) (held : List ℕ) (id j : ℕ)
      → 0 < count id held
      → p.closed ≡ false
      → (release p id).available ≡ p.available ++ id ∷ []
      → count j p.available + count j held ≡ count j (numbered 0 size)
      → count j (release p id).available + count j (returned_one id held)
        ≡ count j (numbered 0 size)
  released p held id j h is_open back whole =
      rw (back, count-append j p.available (id ∷ []))
        (omega (arith, whole, count-returned_one id j held h))

  once_of_whole :
      (available held : List ℕ)
      → ((id : ℕ) → count id available + count id held ≡ count id (numbered 0 size))
      → (id : ℕ) → count id held ≤ 1
  once_of_whole available held h id = omega (arith, h id, count-numbered 0 size id)

  step-IsExclusive : (s t : Leased) → Step s t → IsExclusive size s → IsExclusive size t
  step-IsExclusive s t (taken {p} {q} {held} id e) v =
      let (is_open, front, still) = acquire-connection p q id e in
      let all : (j : ℕ) → count j q.available + count j (id ∷ held) ≡ count j (numbered 0 size) =
        λ j. omega (arith, v.whole is_open j, ap (count j) front) in
      record { once = once_of_whole q.available (id ∷ held) all; whole = λ k. all }
  step-IsExclusive s t (ended {p} {held} id h) v = record {
    once = λ j. omega (arith, v.once j, count-returned_one id j held h);
    whole = λ k j.
        released p held id j h (release-open p id k).0 (release-open p id k).1
          (v.whole (release-open p id k).0 j);
  }
  step-IsExclusive s t (closes {p} {held}) v = record {
    once = v.once;
    whole = λ k. absurd (close-closed p k);
  }

  -- However the threads that take and give back connections interleave, and whenever the pool is
  -- closed, no connection is ever on lease twice; while the pool is open, each of its connections is
  -- either on lease or available.
  pub Reachable-IsExclusive : (s : Leased) → Reachable size s → IsExclusive size s
  unfolding create
  Reachable-IsExclusive s fresh = record { once = λ id. omega arith; whole = λ h id. omega arith }
  Reachable-IsExclusive s (then_step r step) = step-IsExclusive _ s step (Reachable-IsExclusive _ r)

  -- A thread waits only when every connection of the pool is on lease.
  pub Reachable-waits :
      (p : Pool) (held : List ℕ) (id : ℕ)
      → Reachable size (p, held)
      → acquire p ≡ waits
      → count id held ≡ count id (numbered 0 size)
  unfolding acquire
  Reachable-waits p held id r h =
      let is_open : p.closed ≡ false = ground arith in
      let none_left : p.available ≡ [] = ground arith in
      omega (arith, (Reachable-IsExclusive (p, held) r).whole is_open id, ap (count id) none_left)

-- ===== src/Pool.antt =====
-- cpp/src/reader_database.hpp and reader_database.cpp: the pool of read connections. A connection is
-- its number; `acquire` and `release` hold the mutex, so each is one step.
mod Leases
mod Tests
use loglite.Prelude.{Bool, List, [], false, if◌then◌else◌, suc, true, zero, ℕ, ◌++◌, ◌∷◌}

pub record Pool : Type 0 where
  pub readers : List ℕ
  pub available : List ℕ
  pub closed : Bool

-- The numbers from `n` on.
abbrev pub numbered : ℕ → ℕ → List ℕ
numbered n zero = []
numbered n (suc size) = n ∷ numbered (suc n) size

unfoldable pub create : ℕ → Pool
create size = record { readers = numbered 0 size; available = numbered 0 size; closed = false }

unfoldable pub close : Pool → Pool
close p = if p.closed then p else record { readers = []; available = []; closed = true }

-- The wait goes on, an exception, or a connection.
pub data Acquired : Type 0 where
  waits closed_pool : Acquired
  connection : ℕ → Pool → Acquired

unfoldable pub acquire : Pool → Acquired
acquire p = if p.closed then closed_pool else elim p.available [
  | [] ↦ waits
  | ◌∷◌ id rest ↦ connection id (record p { available = rest })
]

unfoldable pub release : Pool → ℕ → Pool
release p id = if p.closed then p else record p { available = p.available ++ id ∷ [] }

-- ===== src/Examples/Parallel.antt =====
-- The theorems on the parallel map at four items, one of which fails.
use capa_x.Prelude.{
  ℕ, ◌≡◌, ◌≤◌, ◌+◌, ◌==◌, refl, Bool, true, false, some, List, [], ◌∷◌, ◌++◌, length, min, arith,
  if◌then◌else◌, String,
}
use capa_x.Prelude.Result.{Result, ok, err, collect}
use capa_x.Parallel.{Jobs, try_map, run, start, turn_at, turn, outcome, join}
use capa_x.Parallel.Serial.{try_map-collect}
use capa_x.Parallel.Ends.{try_map-completes}
use capa_x.Parallel.Bounds.{cursor_bounded}

abbrev two_jobs : Jobs
two_jobs = record { count = 2 }

-- fails at 30 and at 50
abbrev analyse : ℕ → Result String ℕ
analyse n = if n == 30 then err "thirty" else if n == 50 then err "fifty" else ok (n + 1)

abbrev functions : List ℕ
functions = 10 ∷ 20 ∷ 30 ∷ 40 ∷ 50 ∷ []

-- the second worker fails at the fifth item while the first still computes the third
abbrev racing : List (ℕ × Bool)
racing =
    (0, true)
    ∷ (0, true)
    ∷ (0, true)
    ∷ (0, true)
    ∷ (1, true)
    ∷ (1, true)
    ∷ (1, true)
    ∷ (0, true)
    ∷ (1, true)
    ∷ (1, true)
    ∷ (1, true)
    ∷ (1, true)
    ∷ (1, true)
    ∷ (1, true)
    ∷ (1, true)
    ∷ (0, true)
    ∷ (0, true)
    ∷ []

raced : try_map analyse functions two_jobs racing ≡ some (err "thirty")
unfolding try_map run turn_at turn outcome join
raced = refl

try_map-collect_example : err "thirty" ≡ collect analyse functions
try_map-collect_example =
    try_map-collect analyse functions two_jobs racing (err "thirty") (omega arith) raced

abbrev started : List (ℕ × Bool)
started = (1, true) ∷ (1, true) ∷ (0, false) ∷ []

try_map-completes_example :
    (rest : List (ℕ × Bool)) × (try_map analyse functions two_jobs (started ++ rest)
      ≡ some (collect analyse functions))
try_map-completes_example = try_map-completes analyse functions two_jobs started (omega arith)

cursor_bounded_example :
    (run analyse functions racing (start analyse functions two_jobs)).0.0
    ≤ length functions + min two_jobs.count (length functions)
cursor_bounded_example = cursor_bounded analyse functions racing two_jobs

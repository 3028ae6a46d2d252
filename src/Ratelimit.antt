-- ===== src/Ratelimit.antt =====
-- lib/ratelimit/ratelimit.go: the loop that serves the channel of requests, one at a time.
pub mod Window
use accounts_superposition_s.Prelude.{
  ℕ, ◌+◌, ◌-◌, ◌*◌, ◌^◌, ◌%◌, Bytes, List, [], ◌∷◌, Bool, true, false, bytes_eq, ltb, ◌==◌, not,
  if◌then◌else◌, map,
}

-- 5 minutes, in nanoseconds
abbrev pub timeslice_block : ℕ
timeslice_block = 5 * 60 * 10 ^ 9

abbrev pub max_count : ℕ
max_count = 4

-- a request: the id, and the time at which the loop takes it, in nanoseconds from Go's zero time
pub record Req : Type 0 where
  pub id : Bytes
  pub now : ℕ

-- `now.Truncate(TimesliceBlock)`
unfoldable pub slice_of : ℕ → ℕ
slice_of t = t - t % timeslice_block

abbrev pub Counts : Type 0
Counts = List (Bytes × ℕ)

-- `seen[id]`, zero for a missing key
unfoldable pub lookup : Counts → Bytes → ℕ
lookup [] id = 0
lookup ((k, n) ∷ m) id = if bytes_eq k id then n else lookup m id

-- `seen[id] = n`
unfoldable pub store : Counts → Bytes → ℕ → Counts
store [] id n = (id, n) ∷ []
store ((k, i) ∷ m) id n = if bytes_eq k id then (k, n) ∷ m else (k, i) ∷ store m id n

pub record State : Type 0 where
  pub last_slice : ℕ
  pub seen : Counts

abbrev pub init : State
init = record { last_slice = 0; seen = [] }

-- One round of the loop: whether the request is limited, and the state after it.
unfoldable pub step : State → Req → Bool × State
step s r =
    let cur_slice = slice_of r.now in
    if not (s.last_slice == cur_slice)
    then (false, record { last_slice = cur_slice; seen = store [] r.id 1 })
    else let cur_count = lookup s.seen r.id in
      if ltb max_count (cur_count + 1)
      then (true, s)
      else (false, record s { seen = store s.seen r.id (lookup s.seen r.id + 1) })

unfoldable pub serve : State → List Req → List Bool
unfolding step
serve s [] = []
serve s (r ∷ rs) = (step s r).0 ∷ serve (step s r).1 rs

-- `Run(db, dryrun)`: the answers to the requests, in order
unfoldable pub run : Bool → List Req → List Bool
unfolding serve
run dryrun rs = if dryrun then map (λ _. false) rs else serve init rs

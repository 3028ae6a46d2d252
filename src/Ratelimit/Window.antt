-- ===== src/Ratelimit/Window.antt =====
-- The limiter against its specification: a request is limited exactly when four or more requests
-- with its id came before it in the unbroken run of requests of its time slice.
use Prim.Native.Nat.{min}
use accounts_superposition_s.Prelude.{
  ℕ, ◌+◌, ◌≡◌, ◌≢◌, refl, Bytes, List, [], ◌∷◌, Bool, bytes_eq, bytes_eq_iff, leb, ◌==◌,
  if◌then◌else◌, arith,
}
use accounts_superposition_s.Ratelimit.{
  max_count, Req, slice_of, Counts, lookup, store, State, init, step, serve,
}

lookup-store :
    (m : Counts) (id j : Bytes) (n : ℕ)
    → lookup (store m id n) j ≡ (if bytes_eq id j then n else lookup m j)
unfolding lookup store
lookup-store [] id j n = refl
lookup-store ((k, i) ∷ m) id j n =
    ground (arith, bytes_eq_iff k id, bytes_eq_iff k j, bytes_eq_iff id j, lookup-store m id j n)

lookup-nil : (id : Bytes) → lookup [] id ≡ 0
unfolding lookup
lookup-nil id = refl

abbrev one_if : Bool → ℕ
one_if b = if b then 1 else 0

-- Earlier requests, the newest first: how many with this id, as long as the slice is this one.
pub same_run : ℕ → Bytes → List Req → ℕ
same_run slice id [] = 0
same_run slice id (q ∷ past) =
    if slice_of q.now == slice then one_if (bytes_eq q.id id) + same_run slice id past else 0

-- The answers that are due, each from the requests before it.
pub expected : List Req → List Req → List Bool
expected past [] = []
expected past (r ∷ rs) =
    leb max_count (same_run (slice_of r.now) r.id past) ∷ expected (r ∷ past) rs

record Agrees (s : State) (past : List Req) : Type 0 where
  counts : (id : Bytes) → lookup s.seen id ≡ min max_count (same_run s.last_slice id past)
  stale : (slice : ℕ) (id : Bytes) → slice ≢ s.last_slice → same_run slice id past ≡ 0

module _ (s : State) (past : List Req) (a : Agrees s past) (r : Req) where
  answer : (step s r).0 ≡ leb max_count (same_run (slice_of r.now) r.id past)
  unfolding step
  answer = ground (arith, a.counts r.id, a.stale (slice_of r.now) r.id)

  counts_after :
      (id : Bytes)
      → lookup (step s r).1.seen id ≡ min max_count (same_run (step s r).1.last_slice id (r ∷ past))
  unfolding step same_run
  counts_after id = ground (
    arith,
    a.counts r.id,
    a.counts id,
    a.stale (slice_of r.now) id,
    lookup-store s.seen r.id id (lookup s.seen r.id + 1),
    lookup-store [] r.id id 1,
    lookup-nil id,
    bytes_eq_iff r.id id,
  )

  stale_after :
      (slice : ℕ) (id : Bytes) → slice ≢ (step s r).1.last_slice → same_run slice id (r ∷ past) ≡ 0
  unfolding step same_run
  stale_after slice id ne = ground arith

  Agrees-step : Agrees (step s r).1 (r ∷ past)
  Agrees-step = record { counts = counts_after; stale = stale_after }

serve-expected_from :
    (s : State) (past : List Req) → Agrees s past → (rs : List Req) → serve s rs ≡ expected past rs
unfolding serve expected
serve-expected_from s past a [] = refl
serve-expected_from s past a (r ∷ rs) =
    rw (answer s past a r, serve-expected_from (step s r).1 (r ∷ past) (Agrees-step s past a r) rs)

Agrees-init : Agrees init []
unfolding lookup same_run
Agrees-init = record { counts = λ id. refl; stale = λ slice id ne. refl }

-- A request is limited exactly when at least four requests with its id came before it in the
-- unbroken run of requests of its time slice, for every sequence of requests.
pub serve-expected : (rs : List Req) → serve init rs ≡ expected [] rs
serve-expected = serve-expected_from init [] Agrees-init

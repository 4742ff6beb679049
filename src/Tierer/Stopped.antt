-- ===== src/Tierer/Stopped.antt =====
-- When `runServiceLoops` of internal/tierer/service.go returns.
use cwm_minio_tierer.Prelude.{
  ◌≡◌, refl, Bool, true, false, ◌||◌, Option, some, List, [], ◌∷◌, if◌then◌else◌,
}
use cwm_minio_tierer.Tierer.Service.{
  Arrival, server_done, worker_done, shutdown_done, deadline, First, ServiceError, Loops,
  all_finished, first_select, wait_all, run_service_loops,
}

abbrev pub is_server : Arrival → Bool
is_server (server_done e) = true
is_server _ = false

abbrev pub is_worker : Arrival → Bool
is_worker (worker_done e) = true
is_worker _ = false

abbrev pub is_shutdown : Arrival → Bool
is_shutdown (shutdown_done e) = true
is_shutdown _ = false

abbrev pub any_of : (Arrival → Bool) → List Arrival → Bool
any_of p [] = false
any_of p (a ∷ rest) = p a || any_of p rest

-- All three have ended, by the flags or by what arrived.
abbrev pub AllEnd : Loops → List Arrival → Type 0
AllEnd l arrivals =
    ((l.server_finished || any_of is_server arrivals) ≡ true)
    × ((l.worker_finished || any_of is_worker arrivals) ≡ true)
    × ((l.shutdown_finished || any_of is_shutdown arrivals) ≡ true)

abbrev pub is_deadline : Arrival → Bool
is_deadline deadline = true
is_deadline _ = false

-- Without an error: nothing was wrong before, and all three end.
abbrev IsCleanEnd : Loops → List Arrival → Type 0
IsCleanEnd l arrivals = (l.errors ≡ []) × AllEnd l arrivals

returns :
    (b : Bool) (x y : List ServiceError)
    → (errors : List ServiceError) × ((if b then some x else some y) ≡ some errors)
returns true x y = (x, refl)
returns false x y = (y, refl)

either_returns :
    (b : Bool) (x : List ServiceError) (o : Option (List ServiceError))
    → (errors : List ServiceError) × (o ≡ some errors)
    → (errors : List ServiceError) × ((if b then some x else o) ≡ some errors)
either_returns true x o h = (x, refl)
either_returns false x o h = h

wait_all-ends :
    (arrivals : List Arrival) (l : Loops)
    → any_of is_deadline arrivals ≡ true
    → (errors : List ServiceError) × (wait_all l arrivals ≡ some errors)
unfolding wait_all
wait_all-ends [] l h = cc
wait_all-ends (server_done e ∷ rest) l h =
    either_returns (all_finished l) l.errors _ (wait_all-ends rest _ h)
wait_all-ends (worker_done e ∷ rest) l h =
    either_returns (all_finished l) l.errors _ (wait_all-ends rest _ h)
wait_all-ends (shutdown_done e ∷ rest) l h =
    either_returns (all_finished l) l.errors _ (wait_all-ends rest _ h)
wait_all-ends (deadline ∷ rest) l h = returns (all_finished l) l.errors _

-- With the deadline of the shutdown among what arrives, runServiceLoops returns.
pub run_service_loops_total :
    (first : First) (arrivals : List Arrival)
    → any_of is_deadline arrivals ≡ true
    → (errors : List ServiceError) × (run_service_loops first arrivals ≡ some errors)
unfolding run_service_loops
run_service_loops_total first arrivals h = wait_all-ends arrivals (first_select first) h

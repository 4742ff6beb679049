-- ===== src/Tierer/Service.antt =====
-- `runServiceLoops` and `Ready` of internal/tierer/service.go. What the channels deliver, in the order in
-- which the selects take it, is an argument.
use cwm_minio_tierer.Prelude.{
  Bool, true, false, ◌&&◌, Option, none, some, List, [], ◌∷◌, ◌++◌, if◌then◌else◌,
}
use cwm_minio_tierer.Text.{Str}

-- What ListenAndServe and the scanner return: an end that is asked for (http.ErrServerClosed; nil or
-- context.Canceled), or another error.
pub data Ending : Type 0 where
  clean : Ending
  broken : Str → Ending

-- What a select takes: one of the three channels, or the end of the shutdown's deadline.
pub data Arrival : Type 0 where
  server_done : Ending → Arrival
  worker_done : Ending → Arrival
  shutdown_done : Ending → Arrival
  deadline : Arrival

-- What the first select takes: the end of the context, or one of two channels.
pub data First : Type 0 where
  context_done : First
  server_first : Ending → First
  worker_first : Ending → First

pub data ServiceError : Type 0 where
  http_service scanner_service shutdown_failed : Str → ServiceError
  shutdown_deadline : ServiceError

pub record Loops : Type 0 where
  pub server_finished : Bool
  pub worker_finished : Bool
  pub shutdown_finished : Bool
  pub errors : List ServiceError

-- errors.Join of an error that is there.
abbrev pub join : List ServiceError → (Str → ServiceError) → Ending → List ServiceError
join errors kind clean = errors
join errors kind (broken why) = errors ++ (kind why ∷ [])

abbrev pub all_finished : Loops → Bool
all_finished l = l.server_finished && (l.worker_finished && l.shutdown_finished)

unfoldable pub first_select : First → Loops
first_select context_done = record {
  server_finished = false;
  worker_finished = false;
  shutdown_finished = false;
  errors = [];
}
first_select (server_first e) = record {
  server_finished = true;
  worker_finished = false;
  shutdown_finished = false;
  errors = join [] http_service e;
}
first_select (worker_first e) = record {
  server_finished = false;
  worker_finished = true;
  shutdown_finished = false;
  errors = join [] scanner_service e;
}

-- The loop: the errors with which it returns, or nothing while it waits for more. The deadline ends it
-- at once.
unfoldable pub wait_all : Loops → List Arrival → Option (List ServiceError)
wait_all l [] = if all_finished l then some l.errors else none
wait_all l (server_done e ∷ rest) =
    let next =
      wait_all (record l { server_finished = true; errors = join l.errors http_service e }) rest in
    if all_finished l then some l.errors else next
wait_all l (worker_done e ∷ rest) =
    let next =
      wait_all (record l { worker_finished = true; errors = join l.errors scanner_service e })
        rest in
    if all_finished l then some l.errors else next
wait_all l (shutdown_done e ∷ rest) =
    let next =
      wait_all (record l { shutdown_finished = true; errors = join l.errors shutdown_failed e })
        rest in
    if all_finished l then some l.errors else next
wait_all l (deadline ∷ rest) =
    if all_finished l then some l.errors else some (l.errors ++ (shutdown_deadline ∷ []))

unfoldable pub run_service_loops : First → List Arrival → Option (List ServiceError)
run_service_loops first arrivals = wait_all (first_select first) arrivals

-- `Ready`, by what Ping and Buckets answer: the dependency that failed.
pub data Dependency : Type 0 where
  redis minio : Dependency

unfoldable pub ready : Option Str → Option Str → Option Dependency
ready (some why) buckets = some redis
ready none (some why) = some minio
ready none none = none

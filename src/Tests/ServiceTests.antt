-- ===== src/Tests/ServiceTests.antt =====
-- The service loops with a server that ends first.
use cwm_minio_tierer.Prelude.{◌≡◌, refl, some, List, [], ◌∷◌}
use cwm_minio_tierer.Text.{bytes}
use cwm_minio_tierer.Tierer.Service.{
  Arrival, server_first, worker_done, shutdown_done, deadline, clean, broken, ServiceError,
  run_service_loops,
}
use cwm_minio_tierer.Tierer.Stopped.{run_service_loops_total}

abbrev calm : List Arrival
calm = worker_done clean ∷ shutdown_done clean ∷ []

abbrev late : List Arrival
late = worker_done (broken (bytes "x")) ∷ deadline ∷ []

run_service_loops_total_example :
    (errors : List ServiceError) × (run_service_loops (server_first clean) late ≡ some errors)
run_service_loops_total_example = run_service_loops_total (server_first clean) late refl

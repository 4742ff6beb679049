-- ===== src/Tests/BatcherTests.antt =====
-- internal/updater/batcher.go: a short history.
use cwm_minio_tierer.Prelude.{ℕ, length, ◌≡◌, refl, true, false, List, [], ◌∷◌}
use cwm_minio_tierer.Prelude.Int.{pos, ◌≤ℤ◌, ◌+ℤ◌, ◌-ℤ◌, wrap64}
use cwm_minio_tierer.Text.{bytes, str_eq, str_lt}
use cwm_minio_tierer.Batcher.Pending.{
  BatcherConfig, BatchJob, validate_request, check_increments, add, add_increments, add_increment,
  new_pending_batch, full, can_add, count_new, has_key,
}
use cwm_minio_tierer.Batcher.Defs.{
  Answer, store_done, Event, starts, submits, receives, stops, drains, run, step, new_batcher,
  start, submit, enqueue, receive, take_job, keep_or_flush, flush, stop, drain, drain_loop,
  sort_by_key, insert_sorted, resolve,
}
use cwm_minio_tierer.Batcher.Limits.{can_add_lem}
use cwm_minio_tierer.Batcher.Accounting.{told}
use cwm_minio_tierer.Batcher.History.{accepted}
use cwm_minio_tierer.Batcher.Shutdown.{all_answered}

abbrev config : BatcherConfig
config = record { queue_size = 2; max_events = pos 4; max_keys = pos 4 }

abbrev job : ℕ → BatchJob
job n = record {
  id = n;
  request = record {
    events = pos 2;
    increments = record { key = bytes "a"; delta = pos 2; expire_at = pos 7 } ∷ [];
  };
}

abbrev answers : ℕ → Answer
answers n = store_done

-- The third job finds the queue full.
abbrev history : List Event
history =
    starts
    ∷ submits (job 1)
    ∷ submits (job 2)
    ∷ submits (job 3)
    ∷ receives
    ∷ submits (job 4)
    ∷ stops
    ∷ drains (λ n. false)
    ∷ []

history-finished : (run config answers new_batcher history).finished ≡ true
unfolding run step new_batcher start submit validate_request check_increments enqueue receive
    take_job keep_or_flush flush add add_increments add_increment new_pending_batch full can_add
    count_new has_key stop drain drain_loop sort_by_key insert_sorted resolve str_eq str_lt wrap64
    ◌+ℤ◌ ◌-ℤ◌
history-finished = refl

history-accepted : accepted config answers new_batcher history ≡ 1 ∷ 2 ∷ 4 ∷ []
unfolding accepted run step new_batcher start submit validate_request check_increments enqueue
    receive take_job keep_or_flush flush add add_increments add_increment new_pending_batch full
    can_add count_new has_key stop drain drain_loop sort_by_key insert_sorted resolve str_eq str_lt
    wrap64 ◌+ℤ◌ ◌-ℤ◌
history-accepted = refl

all_answered_example :
    told (run config answers new_batcher history) ≡ accepted config answers new_batcher history
all_answered_example = all_answered config answers history history-finished

second_fits : can_add (new_pending_batch (job 1)) (job 2) config ≡ true
unfolding can_add new_pending_batch add add_increments add_increment count_new has_key str_eq wrap64
    ◌+ℤ◌ ◌-ℤ◌
second_fits = refl

can_add_lem_example :
    ((add (new_pending_batch (job 1)) (job 2)).events ≤ℤ pos 4)
    × (pos (length (add (new_pending_batch (job 1)) (job 2)).increments) ≤ℤ pos 4)
can_add_lem_example = can_add_lem (new_pending_batch (job 1)) (job 2) config second_fits

-- ===== src/Batcher/Defs.antt =====
-- `Batcher` of internal/updater/batcher.go: `Submit`, `Start`, `Stop`, and the goroutine `run` as one
-- step for each case of its selects. What the store answers and when the run context is cancelled is
-- chosen outside.
use cwm_minio_tierer.Prelude.{
  ℕ, suc, Bool, true, false, not, ◌&&◌, Option, none, some, List, [], ◌∷◌, ◌++◌, map, length,
  Result, ok, err, ltb, if◌then◌else◌,
}
use cwm_minio_tierer.Prelude.Int.{ℤ, pos, ◌+ℤ◌, ◌-ℤ◌}
use cwm_minio_tierer.Text.{Str, str_lt}
use cwm_minio_tierer.Batcher.Pending.{
  Increment, BatcherConfig, BatchJob, PendingBatch, SubmitError, not_running, queue_full, add,
  new_pending_batch, can_add, full, validate_request,
}

-- What a job is told: the store's answer, or that the batcher stopped before it was asked.
pub data Answer : Type 0 where
  store_done : Answer
  store_failed : Str → Answer
  batcher_stopped : Answer

-- The state of the batcher: its fields, the local `pending` of `run`, whether `run` has returned, and
-- the logs of what was sent to the jobs and to the store.
pub record Batcher : Type 0 where
  pub started : Bool
  pub accepting : Bool
  pub ready : Bool
  pub stop_closed : Bool
  pub finished : Bool
  pub depth : ℤ
  pub queue : List BatchJob
  pub pending : Option PendingBatch
  pub answers : List (ℕ × Answer)
  pub applied : List (List Increment)

unfoldable pub new_batcher : Batcher
new_batcher = record {
  started = false;
  accepting = false;
  ready = false;
  stop_closed = false;
  finished = false;
  depth = pos 0;
  queue = [];
  pending = none;
  answers = [];
  applied = [];
}

unfoldable pub start : Batcher → Batcher
start b = if b.started then b else record b { started = true; accepting = true; ready = true }

-- `Submit` up to the wait for the result.
unfoldable pub enqueue :
    BatcherConfig → Batcher → BatchJob → Batcher × Result SubmitError (Unit {0})
enqueue config b job =
    if not b.accepting
    then (b, err not_running)
    else if ltb (length b.queue) config.queue_size
    then (record b { depth = b.depth +ℤ pos 1; queue = b.queue ++ job ∷ [] }, ok tt)
    else (record b { depth = b.depth +ℤ pos 1 -ℤ pos 1 }, err queue_full)

abbrev pub submit_checked :
    BatcherConfig
    → Batcher
    → BatchJob
    → Result SubmitError (Unit {0})
    → Batcher × Result SubmitError (Unit {0})
submit_checked config b job (err e) = (b, err e)
submit_checked config b job (ok _) = enqueue config b job

unfoldable pub submit : BatcherConfig → Batcher → BatchJob → Batcher × Result SubmitError (Unit {0})
submit config b job = submit_checked config b job (validate_request config job.request)

-- `Stop` up to the wait for `run`.
unfoldable pub stop : Batcher → Batcher
stop b =
    if not b.started then b else record b { accepting = false; ready = false; stop_closed = true }

-- sort.Slice by key
unfoldable pub insert_sorted : Increment → List Increment → List Increment
insert_sorted i [] = i ∷ []
insert_sorted i (j ∷ js) = if str_lt j.key i.key then j ∷ insert_sorted i js else i ∷ j ∷ js

unfoldable pub sort_by_key : List Increment → List Increment
sort_by_key [] = []
sort_by_key (i ∷ is) = insert_sorted i (sort_by_key is)

-- b.resolve(jobs, err)
unfoldable pub resolve : List BatchJob → Answer → List (ℕ × Answer)
resolve jobs answer = map (λ j. (j.id, answer)) jobs

abbrev pub pending_jobs : Option PendingBatch → List BatchJob
pending_jobs none = []
pending_jobs (some batch) = batch.jobs

module _ (config : BatcherConfig) (apply : ℕ → Answer) where
  -- The store answers the n-th batch by `apply n`.
  unfoldable pub flush : Batcher → PendingBatch → Batcher
  flush b batch = record b {
    pending = none;
    answers = b.answers ++ resolve batch.jobs (apply (length b.applied));
    applied = b.applied ++ sort_by_key batch.increments ∷ [];
  }

  -- The batch becomes the pending one, or is flushed at once if it is full.
  unfoldable pub keep_or_flush : Batcher → PendingBatch → Batcher
  keep_or_flush b batch =
      if full batch config then flush b batch else record b { pending = some batch }

  unfoldable pub take_job : Batcher → Option PendingBatch → BatchJob → Batcher
  take_job b none job = keep_or_flush b (new_pending_batch job)
  take_job b (some batch) job =
      if can_add batch job config
      then keep_or_flush b (add batch job)
      else keep_or_flush (flush b batch) (new_pending_batch job)

  -- dequeued()
  abbrev pub dequeued : Batcher → List BatchJob → Batcher
  dequeued b rest = record b { depth = b.depth -ℤ pos 1; queue = rest }

  abbrev pub receive_from : Batcher → List BatchJob → Batcher
  receive_from b [] = b
  receive_from b (job ∷ rest) = take_job (dequeued b rest) b.pending job

  -- case job := <-b.queue
  unfoldable pub receive : Batcher → Batcher
  receive b = receive_from b b.queue

  abbrev pub flush_pending : Batcher → Option PendingBatch → Batcher
  flush_pending b none = b
  flush_pending b (some batch) = flush b batch

  -- case <-timerC
  unfoldable pub timer_fires : Batcher → Batcher
  timer_fires b = flush_pending b b.pending

  -- One job of the queue is told that the batcher stopped.
  abbrev pub abort_job : Batcher → BatchJob → List BatchJob → Batcher
  abort_job b job rest = record b {
    depth = b.depth -ℤ pos 1;
    queue = rest;
    answers = b.answers ++ (job.id, batcher_stopped) ∷ [];
  }

  unfoldable pub abort_queue : Batcher → List BatchJob → Batcher
  abort_queue b [] = b
  abort_queue b (job ∷ rest) = abort_queue (abort_job b job rest) rest

  unfoldable pub abort : Batcher → Batcher
  abort b =
      abort_queue
        (record b {
          pending = none;
          answers = b.answers ++ resolve (pending_jobs b.pending) batcher_stopped;
        })
        b.queue

  -- One round for each job of the queue, which nobody extends any more; `cancelled` is what
  -- b.runCtx.Err() says in each round.
  unfoldable pub drain_loop : (ℕ → Bool) → Batcher → List BatchJob → Batcher
  drain_loop cancelled b [] = if cancelled 0 then abort b else flush_pending b b.pending
  drain_loop cancelled b (job ∷ rest) =
      let next = drain_loop cancelled (take_job (dequeued b rest) b.pending job) rest in
      if cancelled (suc (length rest)) then abort b else next

  -- case <-b.stop, after which `run` returns
  unfoldable pub drain : (ℕ → Bool) → Batcher → Batcher
  drain cancelled b = record (drain_loop cancelled b b.queue) { finished = true }

  -- case <-b.runCtx.Done()
  unfoldable pub run_cancelled : Batcher → Batcher
  run_cancelled b = record (abort b) { finished = true }

-- What can happen to a batcher, one critical section or one case of a select at a time.
pub data Event : Type 0 where
  starts receives timer_expires stops cancels : Event
  submits : BatchJob → Event
  drains : (ℕ → Bool) → Event

-- The goroutine takes a case of its selects only while it runs; it sees the closed channels only
-- after `Stop`, which cancels the run context after it has closed b.stop.
abbrev pub is_running : Batcher → Bool
is_running b = b.started && not b.finished

abbrev pub may_stop : Batcher → Bool
may_stop b = b.started && not b.finished && b.stop_closed

module _ (config : BatcherConfig) (apply : ℕ → Answer) where
  unfoldable pub step : Batcher → Event → Batcher
  step b starts = start b
  step b (submits job) = (submit config b job).0
  step b receives = if is_running b then receive config apply b else b
  step b timer_expires = if is_running b then timer_fires config apply b else b
  step b stops = stop b
  step b (drains cancelled) = if may_stop b then drain config apply cancelled b else b
  step b cancels = if may_stop b then run_cancelled config apply b else b

  unfoldable pub run : Batcher → List Event → Batcher
  run b [] = b
  run b (e ∷ es) = run (step b e) es

-- ===== src/Batcher/History.antt =====
-- The accepted and the answered jobs of internal/updater/batcher.go over histories of events.
use mathlib.Core.List.{append_assoc, append-nil, map-append}
use cwm_minio_tierer.Prelude.{
  ℕ, ◌≡◌, refl, sym, ◌∙◌, ap, Bool, true, false, Option, none, some, List, [], ◌∷◌, ◌++◌, length,
  Result, ok, err, Result-cases, arith, Bool-cases, if◌then◌else◌, inl, inr, ltb,
}
use cwm_minio_tierer.Batcher.Pending.{
  BatcherConfig, BatchJob, PendingBatch, SubmitError, validate_request,
}
use cwm_minio_tierer.Batcher.Defs.{
  Batcher, Answer, Event, starts, receives, timer_expires, stops, cancels, submits, drains, start,
  submit, enqueue, stop, step, run, receive, timer_fires, drain, run_cancelled, is_running,
  may_stop, drain_loop, abort, flush, flush_pending,
}
use cwm_minio_tierer.Batcher.Accounting.{
  accounted, receive_from-accounted, timer-accounted, Settles, abort-Settles, drain_loop-Settles,
}

module _ (config : BatcherConfig) (apply : ℕ → Answer) where
  abbrev accepted_id : BatchJob → Result SubmitError (Unit {0}) → List ℕ
  accepted_id job (ok _) = job.id ∷ []
  accepted_id job (err e) = []

  -- The jobs that an event adds: that of a `Submit` which is not refused.
  abbrev pub accepted_by : Batcher → Event → List ℕ
  accepted_by b (submits job) = accepted_id job (submit config b job).1
  accepted_by b starts = []
  accepted_by b receives = []
  accepted_by b timer_expires = []
  accepted_by b stops = []
  accepted_by b (drains c) = []
  accepted_by b cancels = []

  unfoldable pub accepted : Batcher → List Event → List ℕ
  accepted b [] = []
  accepted b (e ∷ es) = accepted_by b e ++ accepted (step config apply b e) es

  enqueue-accounted :
      (b : Batcher) (job : BatchJob)
      → accounted (enqueue config b job).0 ≡ accounted b ++ accepted_id job (enqueue config b job).1
  unfolding enqueue
  enqueue-accounted b job = elim (Bool-cases b.accepting) [
    | inl a ↦ elim (Bool-cases (ltb (length b.queue) config.queue_size)) [
      | inl r ↦ rw (a, r, enqueue) (simp (map-append, append_assoc))
      | inr f ↦ rw (a, f, enqueue) (simp append-nil)
    ]
    | inr n ↦ rw (n, enqueue) (simp append-nil)
  ]

  submit-accounted :
      (b : Batcher) (job : BatchJob)
      → accounted (submit config b job).0 ≡ accounted b ++ accepted_id job (submit config b job).1
  unfolding submit
  submit-accounted b job = elim (Result-cases (validate_request config job.request)) [
    | inl (_, v) ↦ rw (v, submit) (enqueue-accounted b job)
    | inr (e, v) ↦ rw (v, submit) (sym (append-nil (accounted b)))
  ]

  settled : (b c : Batcher) → Settles config apply b c → accounted c ≡ accounted b
  settled b c s = simp (s.none_pending, s.none_queued, append-nil) (s.answered)

  -- An event that accepts no job keeps the account.
  kept : (b c : Batcher) → accounted c ≡ accounted b → accounted c ≡ accounted b ++ []
  kept b c e = e ∙ sym (append-nil (accounted b))

  start-accounted : (b : Batcher) → accounted (start b) ≡ accounted b
  unfolding start
  start-accounted b = ground arith

  stop-accounted : (b : Batcher) → accounted (stop b) ≡ accounted b
  unfolding stop
  stop-accounted b = ground arith

  receive-accounted : (b : Batcher) → accounted (receive config apply b) ≡ accounted b
  unfolding receive
  receive-accounted b = receive_from-accounted config apply b b.queue refl

  flush_pending-queue :
      (b : Batcher) (p : Option PendingBatch) → (flush_pending config apply b p).queue ≡ b.queue
  unfolding flush
  flush_pending-queue b none = refl
  flush_pending-queue b (some batch) = refl

  timer_fires-accounted : (b : Batcher) → accounted (timer_fires config apply b) ≡ accounted b
  unfolding timer_fires
  timer_fires-accounted b =
      rw (timer-accounted config apply b b.pending refl, flush_pending-queue b b.pending)

  drain-accounted : (c : ℕ → Bool) (b : Batcher) → accounted (drain config apply c b) ≡ accounted b
  unfolding drain
  drain-accounted c b =
      settled b (drain_loop config apply c b b.queue)
        (drain_loop-Settles config apply c b b.queue refl)

  run_cancelled-accounted : (b : Batcher) → accounted (run_cancelled config apply b) ≡ accounted b
  unfolding run_cancelled
  run_cancelled-accounted b = settled b (abort config apply b) (abort-Settles config apply b)

  guarded :
      (t : Bool) (b c : Batcher)
      → accounted c ≡ accounted b
      → accounted (if t then c else b) ≡ accounted b ++ []
  guarded true b c e = kept b c e
  guarded false b c e = kept b b refl

  step-accounted :
      (b : Batcher) (e : Event) → accounted (step config apply b e) ≡ accounted b ++ accepted_by b e
  unfolding step
  step-accounted b starts = kept b (start b) (start-accounted b)
  step-accounted b (submits job) = submit-accounted b job
  step-accounted b receives =
      guarded (is_running b) b (receive config apply b) (receive-accounted b)
  step-accounted b timer_expires =
      guarded (is_running b) b (timer_fires config apply b) (timer_fires-accounted b)
  step-accounted b stops = kept b (stop b) (stop-accounted b)
  step-accounted b (drains c) =
      guarded (may_stop b) b (drain config apply c b) (drain-accounted c b)
  step-accounted b cancels =
      guarded (may_stop b) b (run_cancelled config apply b) (run_cancelled-accounted b)

  -- Whatever happens: the answers so far, then the jobs of the pending batch, then
  -- the queue, are those of before followed by the jobs accepted since, in the order of
  -- acceptance, each of them once.
  pub run-accounted :
      (b : Batcher) (es : List Event)
      → accounted (run config apply b es) ≡ accounted b ++ accepted b es
  unfolding run accepted
  run-accounted b [] = sym (append-nil (accounted b))
  run-accounted b (e ∷ es) =
      run-accounted (step config apply b e) es
      ∙ ap (λ (u : List ℕ). u ++ accepted (step config apply b e) es) (step-accounted b e)
      ∙ append_assoc (accounted b) (accepted_by b e) (accepted (step config apply b e) es)

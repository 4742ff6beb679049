-- ===== src/Batcher/Shutdown.antt =====
-- The flags, the queue and the depth of the batcher through any history.
use mathlib.Core.List.{append-nil}
use cwm_minio_tierer.Prelude.{
  ℕ, suc, ◌≡◌, refl, sym, ◌∙◌, ap, Bool, true, false, Option, none, some, List, [], ◌∷◌, ◌++◌,
  length, length-append, Result-cases, arith, Bool-cases, inl, inr,
}
use cwm_minio_tierer.Prelude.Int.{ℤ, pos, ◌+ℤ◌, ◌-ℤ◌, eq_of_parts, int_laws}
use cwm_minio_tierer.Batcher.Pending.{BatcherConfig, BatchJob, PendingBatch, validate_request}
use cwm_minio_tierer.Batcher.Defs.{
  Batcher, Answer, batcher_stopped, Event, starts, receives, timer_expires, stops, cancels, submits,
  drains, start, submit, enqueue, stop, step, run, receive, receive_from, timer_fires, drain,
  run_cancelled, new_batcher, is_running, may_stop, drain_loop, abort, abort_queue, abort_job,
  flush, flush_pending, take_job, keep_or_flush, dequeued, resolve, pending_jobs,
}
use cwm_minio_tierer.Batcher.Accounting.{
  told, accounted, Settles, abort-Settles, drain_loop-Settles, take_job-queue,
}
use cwm_minio_tierer.Batcher.History.{accepted, run-accounted}

-- After `Stop` nothing is accepted; when `run` has returned, nothing is held; and the depth that is
-- reported is the length of the queue.
pub record IsSound (b : Batcher) : Type 0 where
  pub closed : b.stop_closed ≡ true → b.accepting ≡ false
  pub stopped : b.stop_closed ≡ true → b.started ≡ true
  pub begun : b.accepting ≡ true → b.started ≡ true
  pub over : b.finished ≡ true → (b.stop_closed ≡ true) × (b.pending ≡ none) × (b.queue ≡ [])
  pub counted : b.depth ≡ pos (length b.queue)

-- The goroutine leaves the flags alone.
record SameFlags (b c : Batcher) : Type 0 where
  started : c.started ≡ b.started
  accepting : c.accepting ≡ b.accepting
  stop_closed : c.stop_closed ≡ b.stop_closed
  finished : c.finished ≡ b.finished

depth_up :
    (b : Batcher) (job : BatchJob)
    → b.depth ≡ pos (length b.queue)
    → b.depth +ℤ pos 1 ≡ pos (length (b.queue ++ job ∷ []))
depth_up b job e = rw (e, length-append b.queue (job ∷ [])) (eq_of_parts _ _ (omega int_laws))

depth_down :
    (d : ℤ) (job : BatchJob) (rest : List BatchJob)
    → d ≡ pos (length (job ∷ rest))
    → d -ℤ pos 1 ≡ pos (length rest)
depth_down d job rest e = rw e (eq_of_parts _ _ (omega int_laws))

depth_same : (d : ℤ) → d +ℤ pos 1 -ℤ pos 1 ≡ d
depth_same d = eq_of_parts _ _ (omega int_laws)

enqueue-IsSound :
    (config : BatcherConfig) (b : Batcher) (job : BatchJob)
    → IsSound b
    → IsSound (enqueue config b job).0
unfolding enqueue
enqueue-IsSound config b job v = ground (arith, depth_up b job v.counted, depth_same b.depth)

module _ (config : BatcherConfig) (apply : ℕ → Answer) where
  flush-SameFlags : (b : Batcher) (batch : PendingBatch) → SameFlags b (flush config apply b batch)
  unfolding flush
  flush-SameFlags b batch = ground arith

  take_job-SameFlags :
      (b : Batcher) (p : Option PendingBatch) (job : BatchJob)
      → SameFlags b (take_job config apply b p job)
  unfolding take_job keep_or_flush flush
  take_job-SameFlags b none job = ground arith
  take_job-SameFlags b (some batch) job = ground arith

  take_job-depth :
      (b : Batcher) (p : Option PendingBatch) (job : BatchJob)
      → (take_job config apply b p job).depth ≡ b.depth
  unfolding take_job keep_or_flush flush
  take_job-depth b none job = ground arith
  take_job-depth b (some batch) job = ground arith

  abort_queue-SameFlags :
      (b : Batcher) (q : List BatchJob) → SameFlags b (abort_queue config apply b q)
  unfolding abort_queue
  abort_queue-SameFlags b [] = ground arith
  abort_queue-SameFlags b (job ∷ rest) =
      let r = abort_queue-SameFlags (abort_job config apply b job rest) rest in
      record {
        started = r.started;
        accepting = r.accepting;
        stop_closed = r.stop_closed;
        finished = r.finished;
      }

  abort_queue-depth :
      (b : Batcher) (q : List BatchJob)
      → b.depth ≡ pos (length q)
      → (abort_queue config apply b q).depth ≡ pos 0
  unfolding abort_queue
  abort_queue-depth b [] e = e
  abort_queue-depth b (job ∷ rest) e =
      abort_queue-depth (abort_job config apply b job rest) rest (depth_down b.depth job rest e)

  -- The flags are those of before, and the depth is 0.
  record Emptied (b c : Batcher) : Type 0 where
    flags : SameFlags b c
    drained : c.depth ≡ pos 0

  abort-Emptied : (b : Batcher) → b.depth ≡ pos (length b.queue) → Emptied b (abort config apply b)
  unfolding abort
  abort-Emptied b e =
      let b' : Batcher = record b {
        pending = none;
        answers = b.answers ++ resolve (pending_jobs b.pending) batcher_stopped;
      } in
      let f = abort_queue-SameFlags b' b.queue in
      record {
        flags = record {
          started = f.started;
          accepting = f.accepting;
          stop_closed = f.stop_closed;
          finished = f.finished;
        };
        drained = abort_queue-depth b' b.queue e;
      }

  flush_pending-Emptied :
      (b : Batcher) (p : Option PendingBatch)
      → b.depth ≡ pos 0
      → Emptied b (flush_pending config apply b p)
  unfolding flush
  flush_pending-Emptied b none e = ground arith
  flush_pending-Emptied b (some batch) e = ground arith

  drain_loop-Emptied :
      (cancelled : ℕ → Bool) (b : Batcher) (q : List BatchJob)
      → b.queue ≡ q
      → b.depth ≡ pos (length q)
      → Emptied b (drain_loop config apply cancelled b q)
  unfolding drain_loop
  drain_loop-Emptied cancelled b [] e d = elim (Bool-cases (cancelled 0)) [
    | inl c ↦
        rw (c, drain_loop)
          (abort-Emptied b (d ∙ ap (λ (u : List BatchJob). pos (length u)) (sym e)))
    | inr c ↦ rw (c, drain_loop) (flush_pending-Emptied b b.pending d)
  ]
  drain_loop-Emptied cancelled b (job ∷ rest) e d =
      let b' = dequeued config apply b rest in
      let next = take_job config apply b' b.pending job in
      let f = take_job-SameFlags b' b.pending job in
      let r =
        drain_loop-Emptied cancelled next rest (take_job-queue config apply b' b.pending job)
          (take_job-depth b' b.pending job ∙ depth_down b.depth job rest d) in
      elim (Bool-cases (cancelled (suc (length rest)))) [
        | inl c ↦
            rw (c, drain_loop)
              (abort-Emptied b (d ∙ ap (λ (u : List BatchJob). pos (length u)) (sym e)))
        | inr c ↦
            rw (c, drain_loop)
              (record {
                flags = record {
                  started = r.flags.started ∙ f.started;
                  accepting = r.flags.accepting ∙ f.accepting;
                  stop_closed = r.flags.stop_closed ∙ f.stop_closed;
                  finished = r.flags.finished ∙ f.finished;
                };
                drained = r.drained;
              })
      ]

  receive_from-IsSound :
      (b : Batcher) (q : List BatchJob)
      → b.queue ≡ q
      → IsSound b
      → b.finished ≡ false
      → IsSound (receive_from config apply b q)
  receive_from-IsSound b [] e v r = v
  receive_from-IsSound b (job ∷ rest) e v r =
      let b' = dequeued config apply b rest in
      let f = take_job-SameFlags b' b.pending job in
      let q = take_job-queue config apply b' b.pending job in
      record {
        closed = λ h. f.accepting ∙ v.closed (sym f.stop_closed ∙ h);
        stopped = λ h. f.started ∙ v.stopped (sym f.stop_closed ∙ h);
        begun = λ h. f.started ∙ v.begun (sym f.accepting ∙ h);
        over = λ h. cc (f.finished, h, r);
        counted =
            take_job-depth b' b.pending job
            ∙ depth_down b.depth job rest (v.counted ∙ ap (λ (u : List BatchJob). pos (length u)) e)
            ∙ ap (λ (u : List BatchJob). pos (length u)) (sym q);
      }

  flush_pending-IsSound :
      (b : Batcher) (p : Option PendingBatch)
      → IsSound b
      → b.finished ≡ false
      → IsSound (flush_pending config apply b p)
  unfolding flush
  flush_pending-IsSound b none v r = v
  flush_pending-IsSound b (some batch) v r = record {
    closed = v.closed;
    stopped = v.stopped;
    begun = v.begun;
    over = λ h. cc (h, r);
    counted = v.counted;
  }

  -- What drains or aborts ends in a sound state, once `run` has returned.
  finish-IsSound :
      (b c : Batcher)
      → IsSound b
      → b.stop_closed ≡ true
      → Emptied b c
      → Settles config apply b c
      → IsSound (record c { finished = true })
  finish-IsSound b c v h e s = record {
    closed = λ _. e.flags.accepting ∙ v.closed h;
    stopped = λ _. e.flags.started ∙ v.stopped h;
    begun = λ a. e.flags.started ∙ v.begun (sym e.flags.accepting ∙ a);
    over = λ _. (e.flags.stop_closed ∙ h, s.none_pending, s.none_queued);
    counted = e.drained ∙ ap (λ (u : List BatchJob). pos (length u)) (sym s.none_queued);
  }

  submit-IsSound : (b : Batcher) (job : BatchJob) → IsSound b → IsSound (submit config b job).0
  unfolding submit
  submit-IsSound b job v = elim (Result-cases (validate_request config job.request)) [
    | inl (_, e) ↦ rw (e, submit) (enqueue-IsSound config b job v)
    | inr (x, e) ↦ rw (e, submit) v
  ]

  pub step-IsSound : (b : Batcher) (e : Event) → IsSound b → IsSound (step config apply b e)
  unfolding step start stop receive timer_fires drain run_cancelled
  step-IsSound b starts v = ground arith
  step-IsSound b (submits job) v = submit-IsSound b job v
  step-IsSound b receives v = elim (Bool-cases (is_running b)) [
    | inl r ↦ rw (r, step) (receive_from-IsSound b b.queue refl v (ground arith))
    | inr r ↦ rw (r, step) v
  ]
  step-IsSound b timer_expires v = elim (Bool-cases (is_running b)) [
    | inl r ↦ rw (r, step) (flush_pending-IsSound b b.pending v (ground arith))
    | inr r ↦ rw (r, step) v
  ]
  step-IsSound b stops v = ground arith
  step-IsSound b (drains c) v = elim (Bool-cases (may_stop b)) [
    | inl r ↦
        rw (r, step)
          (finish-IsSound b (drain_loop config apply c b b.queue) v (ground arith)
            (drain_loop-Emptied c b b.queue refl v.counted)
            (drain_loop-Settles config apply c b b.queue refl))
    | inr r ↦ rw (r, step) v
  ]
  step-IsSound b cancels v = elim (Bool-cases (may_stop b)) [
    | inl r ↦
        rw (r, step)
          (finish-IsSound b (abort config apply b) v (ground arith) (abort-Emptied b v.counted)
            (abort-Settles config apply b))
    | inr r ↦ rw (r, step) v
  ]

  run-IsSound : (b : Batcher) (es : List Event) → IsSound b → IsSound (run config apply b es)
  unfolding run
  run-IsSound b [] v = v
  run-IsSound b (e ∷ es) v = run-IsSound (step config apply b e) es (step-IsSound b e v)

  new-IsSound : IsSound new_batcher
  unfolding new_batcher
  new-IsSound = record {
    closed = λ h. refl;
    stopped = λ h. cc;
    begun = λ h. cc;
    over = λ h. cc;
    counted = refl;
  }

  pub run-new-IsSound : (es : List Event) → IsSound (run config apply new_batcher es)
  run-new-IsSound es = run-IsSound new_batcher es new-IsSound

  new-accounted : accounted new_batcher ≡ []
  unfolding new_batcher
  new-accounted = refl

  -- When `run` has returned, the answered jobs are exactly the accepted ones, in the order of
  -- acceptance, each answered once.
  pub all_answered :
      (es : List Event)
      → (run config apply new_batcher es).finished ≡ true
      → told (run config apply new_batcher es) ≡ accepted config apply new_batcher es
  all_answered es h =
      let c = run config apply new_batcher es in
      let (_, p, q) = (run-new-IsSound es).over h in
      let everything : accounted c ≡ told c = simp (p, q, append-nil) in
      sym everything
      ∙ run-accounted config apply new_batcher es
      ∙ ap (λ (u : List ℕ). u ++ accepted config apply new_batcher es) new-accounted

-- ===== src/Batcher/Accounting.antt =====
-- The jobs that are accepted, waiting and answered in internal/updater/batcher.go, step by step.
use mathlib.Core.List.{append_assoc, append-nil, map-append}
use cwm_minio_tierer.Prelude.{
  ℕ, suc, ◌≡◌, refl, sym, ◌∙◌, ap, Bool, Option, none, some, List, [], ◌∷◌, ◌++◌, map, arith,
  Bool-cases, inl, inr, length,
}
use cwm_minio_tierer.Prelude.Int.{pos, ◌-ℤ◌}
use cwm_minio_tierer.Batcher.Pending.{
  BatcherConfig, BatchJob, PendingBatch, add, new_pending_batch, can_add, full,
}
use cwm_minio_tierer.Batcher.Defs.{
  Batcher, Answer, batcher_stopped, resolve, flush, keep_or_flush, take_job, dequeued, abort_queue,
  abort, drain_loop, pending_jobs, receive_from, flush_pending,
}

abbrev pub ids : List BatchJob → List ℕ
ids = map (λ j. j.id)

-- The jobs that have been answered, in order.
abbrev pub told : Batcher → List ℕ
told b = map (λ a. a.0) b.answers

-- Those, and then the jobs of the pending batch.
abbrev pub held : Batcher → List ℕ
held b = told b ++ ids (pending_jobs b.pending)

-- Those, and then the jobs of the queue: every job that was accepted.
abbrev pub accounted : Batcher → List ℕ
accounted b = held b ++ ids b.queue

told-resolve : (jobs : List BatchJob) (a : Answer) → map (λ x. x.0) (resolve jobs a) ≡ ids jobs
unfolding resolve
told-resolve [] a = refl
told-resolve (j ∷ js) a = ap (◌∷◌ j.id) (told-resolve js a)

module _ (config : BatcherConfig) (apply : ℕ → Answer) where
  flush-held :
      (b : Batcher) (batch : PendingBatch)
      → held (flush config apply b batch) ≡ told b ++ ids batch.jobs
  unfolding flush
  flush-held b batch = simp (map-append, told-resolve, append-nil)

  flush-told :
      (b : Batcher) (batch : PendingBatch)
      → told (flush config apply b batch) ≡ told b ++ ids batch.jobs
  unfolding flush
  flush-told b batch = simp (map-append, told-resolve)

  keep_or_flush-held :
      (b : Batcher) (batch : PendingBatch)
      → held (keep_or_flush config apply b batch) ≡ told b ++ ids batch.jobs
  unfolding keep_or_flush
  keep_or_flush-held b batch = elim (Bool-cases (full batch config)) [
    | inl e ↦ rw (e, keep_or_flush) (flush-held b batch)
    | inr e ↦ rw (e, keep_or_flush)
  ]

  ids-add :
      (batch : PendingBatch) (job : BatchJob)
      → ids (add batch job).jobs ≡ ids batch.jobs ++ job.id ∷ []
  unfolding add
  ids-add batch job = map-append _ batch.jobs (job ∷ [])

  take_job-held :
      (b : Batcher) (p : Option PendingBatch) (job : BatchJob)
      → held (take_job config apply b p job) ≡ (told b ++ ids (pending_jobs p)) ++ job.id ∷ []
  unfolding take_job new_pending_batch
  take_job-held b none job =
      keep_or_flush-held b (new_pending_batch job)
      ∙ ap (λ (u : List ℕ). u ++ job.id ∷ []) (sym (append-nil (told b)))
  take_job-held b (some batch) job = elim (Bool-cases (can_add batch job config)) [
    | inl e ↦
        rw (e, take_job)
          (keep_or_flush-held b (add batch job)
            ∙ ap (◌++◌ (told b)) (ids-add batch job)
            ∙ sym (append_assoc (told b) (ids batch.jobs) (job.id ∷ [])))
    | inr e ↦
        rw (e, take_job)
          (keep_or_flush-held (flush config apply b batch) (new_pending_batch job)
            ∙ ap (λ (u : List ℕ). u ++ job.id ∷ []) (flush-told b batch))
  ]

  -- Taking a job off the queue touches nothing but the pending batch and the answers.
  pub take_job-queue :
      (b : Batcher) (p : Option PendingBatch) (job : BatchJob)
      → (take_job config apply b p job).queue ≡ b.queue
  unfolding take_job keep_or_flush flush
  take_job-queue b none job = ground arith
  take_job-queue b (some batch) job = ground arith

  pub receive_from-accounted :
      (b : Batcher) (q : List BatchJob)
      → b.queue ≡ q
      → accounted (receive_from config apply b q) ≡ accounted b
  receive_from-accounted b [] e = refl
  receive_from-accounted b (job ∷ rest) e =
      let b' = dequeued config apply b rest in
      rw (take_job-held b' b.pending job, take_job-queue b' b.pending job, e)
        (append_assoc (held b) (job.id ∷ []) (ids rest))

  pub timer-accounted :
      (b : Batcher) (p : Option PendingBatch)
      → b.pending ≡ p
      → held (flush_pending config apply b p) ≡ held b
  timer-accounted b none e = refl
  timer-accounted b (some batch) e =
      flush-held b batch ∙ ap (λ (o : Option PendingBatch). told b ++ ids (pending_jobs o)) (sym e)

  -- Nothing is held or queued, and every job of b has been answered.
  pub record Settles (b c : Batcher) : Type 0 where
    pub answered : told c ≡ accounted b
    pub none_pending : c.pending ≡ none
    pub none_queued : c.queue ≡ []

  abort_queue-Settles :
      (b : Batcher) (q : List BatchJob)
      → b.queue ≡ q
      → b.pending ≡ none
      → Settles b (abort_queue config apply b q)
  unfolding abort_queue
  abort_queue-Settles b [] e p = record {
    answered =
        sym (append-nil (told b))
        ∙ ap (λ (o : Option PendingBatch). told b ++ ids (pending_jobs o)) (sym p)
        ∙ sym (append-nil (held b))
        ∙ ap (λ (u : List BatchJob). held b ++ ids u) (sym e);
    none_pending = p;
    none_queued = e;
  }
  abort_queue-Settles b (job ∷ rest) e p =
      let b' : Batcher = record b {
        depth = b.depth -ℤ pos 1;
        queue = rest;
        answers = b.answers ++ (job.id, batcher_stopped) ∷ [];
      } in
      let r = abort_queue-Settles b' rest refl p in
      record {
        answered = r.answered ∙ simp (p, e, map-append, append-nil, append_assoc);
        none_pending = r.none_pending;
        none_queued = r.none_queued;
      }

  pub abort-Settles : (b : Batcher) → Settles b (abort config apply b)
  unfolding abort
  abort-Settles b =
      let jobs = pending_jobs b.pending in
      let b' : Batcher = record b {
        pending = none;
        answers = b.answers ++ resolve jobs batcher_stopped;
      } in
      let r = abort_queue-Settles b' b.queue refl refl in
      record {
        answered = r.answered ∙ simp (map-append, told-resolve jobs batcher_stopped, append-nil);
        none_pending = r.none_pending;
        none_queued = r.none_queued;
      }

  timer-Settles :
      (b : Batcher) (p : Option PendingBatch)
      → b.pending ≡ p
      → b.queue ≡ []
      → Settles b (flush_pending config apply b p)
  unfolding flush
  timer-Settles b none e q = record {
    answered = simp (e, q, append-nil);
    none_pending = e;
    none_queued = q;
  }
  timer-Settles b (some batch) e q = record {
    answered =
        simp (map-append, told-resolve batch.jobs (apply (length b.applied)), e, q, append-nil);
    none_pending = refl;
    none_queued = q;
  }

  pub drain_loop-Settles :
      (cancelled : ℕ → Bool) (b : Batcher) (q : List BatchJob)
      → b.queue ≡ q
      → Settles b (drain_loop config apply cancelled b q)
  unfolding drain_loop
  drain_loop-Settles cancelled b [] e = elim (Bool-cases (cancelled 0)) [
    | inl c ↦ rw (c, drain_loop) (abort-Settles b)
    | inr c ↦ rw (c, drain_loop) (timer-Settles b b.pending refl e)
  ]
  drain_loop-Settles cancelled b (job ∷ rest) e =
      let b' = dequeued config apply b rest in
      let next = take_job config apply b' b.pending job in
      let r = drain_loop-Settles cancelled next rest (take_job-queue b' b.pending job) in
      let same = receive_from-accounted b (job ∷ rest) e in
      elim (Bool-cases (cancelled (suc (length rest)))) [
        | inl c ↦ rw (c, drain_loop) (abort-Settles b)
        | inr c ↦
            rw (c, drain_loop)
              (record {
                answered = r.answered ∙ same;
                none_pending = r.none_pending;
                none_queued = r.none_queued;
              })
      ]

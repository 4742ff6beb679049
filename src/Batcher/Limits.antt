-- ===== src/Batcher/Limits.antt =====
-- `canAdd` and `add` of internal/updater/batcher.go and the limits of a batch.
use cwm_minio_tierer.Prelude.{
  ℕ, ◌+◌, ◌≤◌, ◌≡◌, true, false, List, [], ◌∷◌, length, arith, if◌then◌else◌,
}
use cwm_minio_tierer.Prelude.Int.{ℤ, pos, ◌≤ℤ◌, ◌+ℤ◌, wrap64, ltb_ℤ, leb_ℤ}
use cwm_minio_tierer.Text.{Str}
use cwm_minio_tierer.Batcher.Pending.{
  Increment, BatcherConfig, BatchJob, PendingBatch, has_key, add_increment, add_increments, add,
  count_new, can_add,
}

has_key-add_increment :
    (k : Str) (m : List Increment) (i : Increment)
    → has_key k m ≡ true
    → has_key k (add_increment m i) ≡ true
unfolding has_key add_increment
has_key-add_increment k [] i h = cc
has_key-add_increment k (j ∷ m) i h = ground (arith, has_key-add_increment k m i)

has_key-added :
    (m : List Increment) (i : Increment)
    → length (add_increment m i) ≡ length m + (if has_key i.key m then 0 else 1)
unfolding has_key add_increment
has_key-added [] i = omega arith
has_key-added (j ∷ m) i = ground (arith, has_key-added m i)

count_new-add_increment :
    (m rest : List Increment) (i : Increment)
    → count_new (add_increment m i) rest ≤ count_new m rest
unfolding count_new
count_new-add_increment m [] i = omega arith
count_new-add_increment m (j ∷ rest) i =
    ground (arith, count_new-add_increment m rest i, has_key-add_increment j.key m i)

length-add_increments :
    (m incoming : List Increment)
    → length (add_increments m incoming) ≤ length m + count_new m incoming
unfolding add_increments count_new
length-add_increments m [] = omega arith
length-add_increments m (i ∷ rest) = ground (
  arith,
  length-add_increments (add_increment m i) rest,
  count_new-add_increment m rest i,
  has_key-added m i,
)

-- A job that `canAdd` admits leaves the batch that it is added to within the limits on events and on
-- keys.
pub can_add_lem :
    (b : PendingBatch) (job : BatchJob) (config : BatcherConfig)
    → can_add b job config ≡ true
    → ((add b job).events ≤ℤ config.max_events)
      × (pos (length (add b job).increments) ≤ℤ config.max_keys)
unfolding can_add add
can_add_lem b job config h =
    let total = wrap64 (b.events +ℤ job.request.events) in
    let bound = length-add_increments b.increments job.request.increments in
    (within_events total _ h, within_keys total _ _ bound h)
  where
    within_events :
        (total : ℤ) (n : ℕ)
        → (if ltb_ℤ config.max_events total then false else leb_ℤ (pos n) config.max_keys) ≡ true
        → total ≤ℤ config.max_events
    within_events total n k = ground arith

    within_keys :
        (total : ℤ) (n m : ℕ)
        → m ≤ n
        → (if ltb_ℤ config.max_events total then false else leb_ℤ (pos n) config.max_keys) ≡ true
        → pos m ≤ℤ config.max_keys
    within_keys total n m l k = ground arith

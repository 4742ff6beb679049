-- ===== src/Batcher/Pending.antt =====
-- `pendingBatch` and `validateRequest` of internal/updater/batcher.go. The map of increments, whose
-- keys are the increments' own, is a list in the order of insertion.
use cwm_minio_tierer.Prelude.{
  ℕ, suc, ◌+◌, Bool, false, not, ◌||◌, List, [], ◌∷◌, ◌++◌, length, Result, ok, err, ◌>>=◌, ◌>>◌,
  reject_if, if◌then◌else◌,
}
use cwm_minio_tierer.Prelude.Int.{ℤ, int_length, pos, ◌+ℤ◌, ltb_ℤ, leb_ℤ, eqb_ℤ, wrap64}
use cwm_minio_tierer.Text.{Str, str_eq}
use cwm_minio_tierer.Clock.{Time, after, is_zero}

-- redisstore.Increment
pub record Increment : Type 0 where
  pub key : Str
  pub delta : ℤ
  pub expire_at : Time

pub record BatchRequest : Type 0 where
  pub events : ℤ
  pub increments : List Increment

pub record BatcherConfig : Type 0 where
  pub queue_size : ℕ
  pub max_events : ℤ
  pub max_keys : ℤ

-- A job is named by a number in place of its address; its result channel is the log of the batcher.
pub record BatchJob : Type 0 where
  pub id : ℕ
  pub request : BatchRequest

pub record PendingBatch : Type 0 where
  pub jobs : List BatchJob
  pub events : ℤ
  pub increments : List Increment

-- _, exists := m[key]
unfoldable pub has_key : Str → List Increment → Bool
has_key key [] = false
has_key key (i ∷ is) = str_eq i.key key || has_key key is

-- What `add` does to the entry that is there already.
abbrev pub merge : Increment → Increment → Increment
merge current increment = record {
  key = current.key;
  delta = wrap64 (current.delta +ℤ increment.delta);
  expire_at =
      if after increment.expire_at current.expire_at
      then increment.expire_at
      else current.expire_at;
}

-- One round of the loop of `add`.
unfoldable pub add_increment : List Increment → Increment → List Increment
add_increment [] increment = increment ∷ []
add_increment (i ∷ is) increment =
    if str_eq i.key increment.key then merge i increment ∷ is else i ∷ add_increment is increment

unfoldable pub add_increments : List Increment → List Increment → List Increment
add_increments m [] = m
add_increments m (increment ∷ rest) = add_increments (add_increment m increment) rest

unfoldable pub add : PendingBatch → BatchJob → PendingBatch
add b job = record {
  jobs = b.jobs ++ job ∷ [];
  events = wrap64 (b.events +ℤ job.request.events);
  increments = add_increments b.increments job.request.increments;
}

abbrev pub empty_batch : PendingBatch
empty_batch = record { jobs = []; events = pos 0; increments = [] }

unfoldable pub new_pending_batch : BatchJob → PendingBatch
unfolding add
new_pending_batch job = add empty_batch job

-- unique++ for each key of the request that the batch lacks
unfoldable pub count_new : List Increment → List Increment → ℕ
count_new m [] = 0
count_new m (increment ∷ rest) =
    let n = count_new m rest in if has_key increment.key m then n else suc n

unfoldable pub can_add : PendingBatch → BatchJob → BatcherConfig → Bool
can_add b job config =
    if ltb_ℤ config.max_events (wrap64 (b.events +ℤ job.request.events))
    then false
    else leb_ℤ (pos (length b.increments + count_new b.increments job.request.increments))
        config.max_keys

unfoldable pub full : PendingBatch → BatcherConfig → Bool
full b config = eqb_ℤ b.events config.max_events || eqb_ℤ (int_length b.increments) config.max_keys

pub data SubmitError : Type 0 where
  not_running queue_full request_too_large invalid_request : SubmitError

abbrev pub bad_increment : Increment → Bool
bad_increment i = str_eq i.key [] || leb_ℤ i.delta (pos 0) || is_zero i.expire_at

abbrev pub has_text : Str → List Str → Bool
has_text key [] = false
has_text key (k ∷ ks) = str_eq k key || has_text key ks

-- The loop of `validateRequest`, with the keys seen and the running total.
unfoldable pub check_increments : List Str → ℤ → List Increment → Result SubmitError ℤ
check_increments seen total [] = ok total
check_increments seen total (i ∷ is) =
    let rest = check_increments (i.key ∷ seen) (wrap64 (total +ℤ i.delta)) is in
    if bad_increment i || has_text i.key seen then err invalid_request else rest

unfoldable pub validate_request : BatcherConfig → BatchRequest → Result SubmitError (Unit {0})
validate_request config request = do
  reject_if (leb_ℤ request.events (pos 0) || eqb_ℤ (int_length request.increments) (pos 0))
      invalid_request
  reject_if
      (ltb_ℤ config.max_events request.events
        || ltb_ℤ config.max_keys (int_length request.increments))
      request_too_large
  total ← check_increments [] (pos 0) request.increments
  reject_if (not (eqb_ℤ total request.events)) invalid_request

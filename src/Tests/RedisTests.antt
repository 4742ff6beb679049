-- ===== src/Tests/RedisTests.antt =====
-- The Lua scripts on a Redis server in memory.
use cwm_minio_tierer.Prelude.{ℕ, ◌≤◌, ◌≡◌, ◌↔◌, refl, true, List, [], ◌∷◌, All, ok, arith, inr}
use cwm_minio_tierer.Prelude.Int.{max_int64}
use cwm_minio_tierer.Text.{Str, bytes, str_eq, str_lt}
use cwm_minio_tierer.Decimal.Defs.{
  add_uint, less_or_equal, valid_uint, is_positive_form, add_loop, max_int64_text,
}
use cwm_minio_tierer.Decimal.Value.{value, pow10, IsCanonical}
use cwm_minio_tierer.Decimal.Order.{less_or_equal_lem, valid_uint_lem}
use cwm_minio_tierer.Redis.{stored}
use cwm_minio_tierer.Redis.Memory.{memory, memory-Laws, Store, lookup}
use cwm_minio_tierer.Counter.Script.{
  counter_script, check_all, check_key, check_current, write_all, counted,
}
use cwm_minio_tierer.Counter.Writes.{Entry, keys_of, args_of, Distinct, Untouched}
use cwm_minio_tierer.Counter.Batch.{IsFuture, Added, counter_script_adds}

abbrev nine : Str
nine = bytes "9"

abbrev twelve : Str
twelve = bytes "12"

nine-IsCanonical : IsCanonical nine
unfolding is_positive_form
nine-IsCanonical = inr refl

twelve-IsCanonical : IsCanonical twelve
unfolding is_positive_form
twelve-IsCanonical = inr refl

less_or_equal_lem_example : (less_or_equal nine twelve ≡ true) ↔ (value nine ≤ value twelve)
less_or_equal_lem_example = less_or_equal_lem nine twelve nine-IsCanonical twelve-IsCanonical

valid_uint_lem_example :
    (valid_uint twelve ≡ true) ↔ (IsCanonical twelve × (value twelve ≤ max_int64))
valid_uint_lem_example = valid_uint_lem twelve

abbrev server : Store
server = record { table = (bytes "a", nine) ∷ (bytes "m", max_int64_text) ∷ []; clock = 10 }

abbrev hit : Str → Entry
hit key = record { key = key; delta = twelve; expiry = bytes "100" }

abbrev batch : List Entry
batch = hit (bytes "a") ∷ hit (bytes "b") ∷ []

abbrev after_batch : Store
after_batch = record server { table = (bytes "b", twelve) ∷ (bytes "a", bytes "21") ∷ server.table }

batch-Distinct : Distinct batch
batch-Distinct = ((λ e. ground arith, tt), (tt, tt))

batch-IsFuture : All (IsFuture memory server) batch
unfolding value pow10
batch-IsFuture = (omega arith, (omega arith, tt))

script_runs : counter_script memory server (keys_of batch) (args_of batch) ≡ (after_batch, ok 2)
unfolding counter_script check_all check_key check_current write_all counted stored lookup
    valid_uint add_uint add_loop is_positive_form str_eq str_lt value pow10
script_runs = refl

counter_script_adds_example :
    (◌≡◌ {A = ℕ} 2 2)
    × All (Added memory server after_batch) batch
    × Untouched memory server after_batch batch
counter_script_adds_example =
    counter_script_adds memory memory-Laws server after_batch batch 2 batch-Distinct batch-IsFuture
      script_runs

-- The second key would overflow, and the first is not written either.
abbrev overflowing : List Entry
overflowing = hit (bytes "a") ∷ hit (bytes "m") ∷ []

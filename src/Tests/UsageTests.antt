-- ===== src/Tests/UsageTests.antt =====
-- A chunk that is read from a server in memory.
use cwm_minio_tierer.Prelude.{◌*◌, ◌≡◌, refl, true, false, Option, none, List, [], ◌∷◌, ok}
use cwm_minio_tierer.Prelude.Int.{pos, ◌+ℤ◌, ◌-ℤ◌}
use cwm_minio_tierer.Text.{Str, bytes, str_eq, str_lt}
use cwm_minio_tierer.Text.Parse.{parse_int, digits_from}
use cwm_minio_tierer.Clock.{Time, hour}
use cwm_minio_tierer.Contracts.Defs.{validate_instance_id}
use cwm_minio_tierer.Contracts.Base64.{encode_to_string, letter}
use cwm_minio_tierer.Contracts.Coverage.{coverage_key}
use cwm_minio_tierer.Contracts.Keys.{access_key, encode_identity, key_parts}
use cwm_minio_tierer.Minio.Defs.{Object}
use cwm_minio_tierer.Decimal.Defs.{is_positive_form}
use cwm_minio_tierer.Redis.Memory.{memory, Store, lookup}
use cwm_minio_tierer.Scanner.Chunks.{validate_aggregate_access_keys}
use cwm_minio_tierer.Usage.Script.{
  read_unsigned, read_optional, unsigned_at, optional_at, check_counter,
}
use cwm_minio_tierer.Usage.Reads.{
  ReadSettings, read_chunk, chunk_keys, hour_keys, coverage_keys, redis_array, decode_usage,
  decode_counts, decode_count, decode_coverage, read_coverage, read_enabled_coverage,
}
use cwm_minio_tierer.Usage.Chunk.{IsChunkRead, read_chunk-IsChunkRead}
use cwm_minio_tierer.Tests.KeyTests.{format_unary}

abbrev settings : ReadSettings
settings = record {
  instance_id = bytes "a.1";
  coverage_template = bytes "t";
  coverage_value = bytes "yes";
  coverage_enabled = true;
}

abbrev server : Store
server = record {
  table =
      (bytes "cwm-minio-tierer:v1:a.1:access:11:11:11:11:Yg:aGVsbG9-", bytes "105")
      ∷ (bytes "1", bytes "yes")
      ∷ [];
  clock = 0;
}

abbrev object : Object
object = record {
  bucket = bytes "b";
  name = bytes "hello~";
  etag = bytes "e";
  last_modified = pos 0;
  size = pos 3;
  version_id = [];
  state = record { transitioned = false; restore = none };
  state_known = true;
}

abbrev never : List Str → Option Str
never keys = none

abbrev low_hours : List Time
low_hours = pos hour ∷ pos (2 * hour) ∷ []

abbrev high_hours : List Time
high_hours = pos (2 * hour) ∷ []

reads :
    read_chunk format_unary settings memory server never (object ∷ []) low_hours high_hours
    ≡ ok (record { low = pos 0 ∷ pos 105 ∷ []; high = pos 105 ∷ [] } ∷ [], true ∷ false ∷ [])
unfolding read_chunk chunk_keys hour_keys coverage_keys redis_array decode_usage decode_counts
    decode_count decode_coverage read_coverage read_enabled_coverage read_unsigned read_optional
    unsigned_at optional_at check_counter access_key encode_identity key_parts coverage_key
    validate_instance_id validate_aggregate_access_keys encode_to_string letter parse_int
    digits_from is_positive_form str_eq str_lt lookup ◌+ℤ◌ ◌-ℤ◌
reads = refl

read_chunk-IsChunkRead_example :
    IsChunkRead format_unary settings memory server
      (object ∷ [])
      low_hours
      high_hours
      (read_chunk format_unary settings memory server never (object ∷ []) low_hours high_hours)
read_chunk-IsChunkRead_example =
    read_chunk-IsChunkRead format_unary settings memory server never (object ∷ []) low_hours
      high_hours

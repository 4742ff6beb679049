-- ===== src/Usage/Chunk.antt =====
-- What a chunk's read returns, of what the server holds.
use cwm_minio_tierer.Prelude.{
  subst, Bool, not, ◌||◌, Option, List, is_nil, All2, length-All2, Result, ok, err, >>=-cases,
  reject_if-cases,
}
use cwm_minio_tierer.Prelude.Int.{ℤ, pos, int_length}
use cwm_minio_tierer.Text.{Str}
use cwm_minio_tierer.Clock.{Time}
use cwm_minio_tierer.Minio.Defs.{Object}
use cwm_minio_tierer.Redis.{Redis}
use cwm_minio_tierer.Scanner.Effects.{ObjectUsage}
use cwm_minio_tierer.Scanner.Chunks.{validate_aggregate_access_keys}
use cwm_minio_tierer.Usage.Script.{read_unsigned}
use cwm_minio_tierer.Usage.Counts.{IsRead, read_unsigned-IsRead}
use cwm_minio_tierer.Usage.Reads.{
  ReadError, ReadSettings, empty_window, too_many_keys, hour_keys, chunk_keys, eval, read_counts,
  read_coverage, read_chunk,
}
use cwm_minio_tierer.Usage.Failures.{
  IsOutside, whole_reply, outside, answered-FailsOutside, answered-ok, chunk_keys-FailsOutside,
  hour_keys-FailsOutside,
}
use cwm_minio_tierer.Usage.Objects.{
  IsUsageOf, AreCounts, decode_usage-AreUsage, decode_counts-AreCounts,
}
use cwm_minio_tierer.Usage.Covered.{IsCoverageOf, IsCoverageRead, read_coverage-IsCoverageRead}

module _ (format_time : Str → Time → Str) (settings : ReadSettings) (redis : Redis)
    (s : redis.State) where
  -- A chunk is read as the server holds it, or an error comes from outside the decoding.
  abbrev pub IsChunkRead :
      List Object → List Time → List Time → Result ReadError (List ObjectUsage × List Bool) → Type 0
  IsChunkRead objects low_hours high_hours (err e) = IsOutside e
  IsChunkRead objects low_hours high_hours (ok (usage, coverage)) =
      All2 (IsUsageOf format_time settings redis s low_hours high_hours) objects usage
      × All2 (IsCoverageOf format_time settings redis s) low_hours coverage

  abbrev pub IsCountsRead : Str → Str → List Time → Result ReadError (List ℤ) → Type 0
  IsCountsRead bucket object hours (err e) = IsOutside e
  IsCountsRead bucket object hours (ok counts) =
      AreCounts format_time settings redis s bucket object hours counts

  module _ (failure : List Str → Option Str) where
    -- `ReadCounts` reads the same counts of one object, with errors of the same kinds.
    pub read_counts-IsCountsRead :
        (bucket object : Str) (hours : List Time)
        → IsCountsRead bucket object hours
            (read_counts format_time settings redis s failure bucket object hours)
    unfolding read_counts
    read_counts-IsCountsRead bucket object hours =
        let P = IsCountsRead bucket object hours in
        reject_if-cases P (is_nil hours) empty_window _ tt λ _.
          >>=-cases P (hour_keys format_time settings bucket object hours) _
            (λ e h. outside _ e (hour_keys-FailsOutside format_time settings bucket object hours) h)
            λ keys hk.
              >>=-cases P (eval format_time settings redis s failure (read_unsigned redis s) keys) _
                (λ e h.
                  outside _ e (answered-FailsOutside (failure keys) (read_unsigned redis s keys)) h)
                λ values hv.
                  let read =
                    read_unsigned-IsRead redis s keys values
                      (answered-ok (failure keys) (read_unsigned redis s keys) values hv) in
                  let (counts, decoded, are) =
                    decode_counts-AreCounts format_time settings redis s bucket object hours keys
                      values hk read in
                  rw
                    (
                      whole_reply keys values (length-All2 (IsRead redis s) keys values read),
                      decoded,
                    )
                    are

    -- Whatever the server holds, a chunk that is read has for each object and each hour of its windows the
    -- number, an int64, that the key of the access holds, and an hour is covered exactly if the coverage
    -- value stands under its key or coverage is not asked for; and an error is never one of the decoding.
    pub read_chunk-IsChunkRead :
        (objects : List Object) (low_hours high_hours : List Time)
        → IsChunkRead objects low_hours high_hours
            (read_chunk format_time settings redis s failure objects low_hours high_hours)
    unfolding read_chunk
    read_chunk-IsChunkRead objects low_hours high_hours =
        let P = IsChunkRead objects low_hours high_hours in
        reject_if-cases P (is_nil objects || is_nil low_hours || is_nil high_hours) empty_window _
          tt
          λ _.
            reject_if-cases P
              (not (
                validate_aggregate_access_keys (int_length objects) (int_length low_hours)
                  (int_length high_hours) (pos 10000)))
              too_many_keys _ tt
              λ _.
                >>=-cases P (chunk_keys format_time settings objects low_hours high_hours) _
                  (λ e h.
                    outside _ e
                      (chunk_keys-FailsOutside format_time settings low_hours high_hours objects) h)
                  λ keys hk.
                    >>=-cases P
                      (eval format_time settings redis s failure (read_unsigned redis s) keys) _
                      (λ e h.
                        outside _ e
                          (answered-FailsOutside (failure keys) (read_unsigned redis s keys)) h)
                      λ values hv.
                        let read =
                          read_unsigned-IsRead redis s keys values
                            (answered-ok (failure keys) (read_unsigned redis s keys) values hv) in
                        let (usage, decoded, are) =
                          decode_usage-AreUsage format_time settings redis s low_hours high_hours
                            objects keys values hk read in
                        rw
                          (
                            whole_reply keys values (length-All2 (IsRead redis s) keys values read),
                            decoded,
                          )
                          (let covered =
                              read_coverage-IsCoverageRead format_time settings redis s failure
                                low_hours in
                            >>=-cases P
                              (read_coverage format_time settings redis s failure low_hours) _
                              (λ e h.
                                subst (IsCoverageRead format_time settings redis s low_hours) h
                                  covered)
                              λ coverage h. (
                                are,
                                subst (IsCoverageRead format_time settings redis s low_hours) h
                                    covered,
                              ))

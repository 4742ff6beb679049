-- ===== src/Usage/Objects.antt =====
-- The usage of the objects of a chunk.
use cwm_minio_tierer.Prelude.{
  ℕ, suc, ◌≤◌, ◌≡◌, refl, sym, ap, ◌∙◌, subst, List, [], ◌∷◌, ◌++◌, length, All2, All2-append, ok,
  >>=-ok_elim, wrap_err, wrap_err-eq-ok, ok-injective,
}
use cwm_minio_tierer.Prelude.Int.{ℤ, pos, max_int64}
use cwm_minio_tierer.Text.{Str}
use cwm_minio_tierer.Clock.{Time}
use cwm_minio_tierer.Contracts.Keys.{access_key}
use cwm_minio_tierer.Minio.Defs.{Object}
use cwm_minio_tierer.Redis.{Redis, Value, Holds}
use cwm_minio_tierer.Scanner.Effects.{ObjectUsage}
use cwm_minio_tierer.Usage.Counts.{IsRead, decode_count-IsRead}
use cwm_minio_tierer.Usage.Reads.{
  ReadSettings, bad_key, decode_counts, decode_usage, hour_keys, chunk_keys,
}

module _ (format_time : Str → Time → Str) (settings : ReadSettings) (redis : Redis)
    (s : redis.State) where
  -- The count of an object in an hour is the number that its key holds.
  pub record IsCountOf (bucket object : Str) (hour : Time) (count : ℤ) : Type 0 where
    pub key : Str
    pub number : ℕ
    pub is_key : access_key format_time settings.instance_id bucket object hour ≡ ok key
    pub holds : Holds redis s key number
    pub small : number ≤ max_int64
    pub is_count : count ≡ pos number

  abbrev pub AreCounts : Str → Str → List Time → List ℤ → Type 0
  AreCounts bucket object = All2 (IsCountOf bucket object)

  abbrev pub IsUsageOf : List Time → List Time → Object → ObjectUsage → Type 0
  IsUsageOf low_hours high_hours o u =
      AreCounts o.bucket o.name low_hours u.low × AreCounts o.bucket o.name high_hours u.high

  length-hour_keys :
      (bucket object : Str) (hours : List Time) (keys : List Str)
      → hour_keys format_time settings bucket object hours ≡ ok keys
      → length keys ≡ length hours
  unfolding hour_keys
  length-hour_keys bucket object [] keys h = sym (ap length (ok-injective h))
  length-hour_keys bucket object (hour ∷ hours) keys h =
      >>=-ok_elim
        (wrap_err bad_key (access_key format_time settings.instance_id bucket object hour)) _ h
        λ key e h1.
          >>=-ok_elim (hour_keys format_time settings bucket object hours) _ h1 λ rest e' h2.
            sym (ap length (ok-injective h2))
            ∙ ap suc (length-hour_keys bucket object hours rest e')

  pub decode_counts-AreCounts :
      (bucket object : Str) (hours : List Time) (keys : List Str) (values : List Value)
      → hour_keys format_time settings bucket object hours ≡ ok keys
      → All2 (IsRead redis s) keys values
      → (counts : List ℤ) × (decode_counts values ≡ ok counts)
        × AreCounts bucket object hours counts
  unfolding hour_keys decode_counts
  decode_counts-AreCounts bucket object [] [] [] h r = ([], refl, tt)
  decode_counts-AreCounts bucket object [] [] (v ∷ values) h r = absurd r
  decode_counts-AreCounts bucket object [] (key ∷ keys) values h r = cc
  decode_counts-AreCounts bucket object (hour ∷ hours) [] values h r =
      >>=-ok_elim
        (wrap_err bad_key (access_key format_time settings.instance_id bucket object hour)) _ h
        λ key e h1.
          >>=-ok_elim (hour_keys format_time settings bucket object hours) _ h1
            λ rest e' h2. cc (ok-injective h2)
  decode_counts-AreCounts bucket object (hour ∷ hours) (key ∷ keys) [] h r = absurd r
  decode_counts-AreCounts bucket object (hour ∷ hours) (key ∷ keys) (v ∷ values) h (first, r) =
      >>=-ok_elim
        (wrap_err bad_key (access_key format_time settings.instance_id bucket object hour)) _ h
        λ key' e h1.
          >>=-ok_elim (hour_keys format_time settings bucket object hours) _ h1 λ rest e' h2.
            let same_keys : hour_keys format_time settings bucket object hours ≡ ok keys = cc in
            let (counts, decoded, are) =
              decode_counts-AreCounts bucket object hours keys values same_keys r in
            (
              pos first.number ∷ counts,
              rw (decode_count-IsRead redis s key v first, decoded) refl,
              (
                record {
                  key = key;
                  number = first.number;
                  is_key =
                      wrap_err-eq-ok bad_key
                        (access_key format_time settings.instance_id bucket object hour) cc;
                  holds = first.holds;
                  small = first.small;
                  is_count = refl;
                },
                are,
              ),
            )

  pub decode_usage-AreUsage :
      (low_hours high_hours : List Time) (objects : List Object) (keys : List Str)
      (values : List Value)
      → chunk_keys format_time settings objects low_hours high_hours ≡ ok keys
      → All2 (IsRead redis s) keys values
      → (usage : List ObjectUsage) × (decode_usage objects
            (length low_hours)
            (length high_hours)
            values
          ≡ ok usage)
        × All2 (IsUsageOf low_hours high_hours) objects usage
  unfolding chunk_keys decode_usage
  decode_usage-AreUsage low_hours high_hours [] keys values h r = ([], refl, tt)
  decode_usage-AreUsage low_hours high_hours (o ∷ objects) keys values h r =
      >>=-ok_elim (hour_keys format_time settings o.bucket o.name low_hours) _ h λ low e1 h1.
        >>=-ok_elim (hour_keys format_time settings o.bucket o.name high_hours) _ h1 λ high e2 h2.
          >>=-ok_elim (chunk_keys format_time settings objects low_hours high_hours) _ h2
            λ rest e3 h3.
              let r' = subst (λ ks. All2 (IsRead redis s) ks values) (sym (ok-injective h3)) r in
              let l1 = length-hour_keys o.bucket o.name low_hours low e1 in
              let l2 = length-hour_keys o.bucket o.name high_hours high e2 in
              let (r1, r23) =
                All2-append (IsRead redis s) (length low_hours) low (high ++ rest) values l1 r' in
              let (r2, r3) = All2-append (IsRead redis s) (length high_hours) high rest _ l2 r23 in
              let (lows, d1, a1) = decode_counts-AreCounts o.bucket o.name low_hours low _ e1 r1 in
              let (highs, d2, a2) =
                decode_counts-AreCounts o.bucket o.name high_hours high _ e2 r2 in
              let (usage, d3, a3) =
                decode_usage-AreUsage low_hours high_hours objects rest _ e3 r3 in
              (record { low = lows; high = highs } ∷ usage, rw (d1, d2, d3) refl, ((a1, a2), a3))

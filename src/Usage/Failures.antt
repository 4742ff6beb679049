-- ===== src/Usage/Failures.antt =====
-- Where the errors of the reads come from.
use cwm_minio_tierer.Prelude.{
  ◌≡◌, subst, Option, none, some, List, [], ◌∷◌, length, Result, ok, err, >>=-cases, wrap_err,
  wrap_err-eq-ok, arith,
}
use cwm_minio_tierer.Text.{Str}
use cwm_minio_tierer.Clock.{Time}
use cwm_minio_tierer.Contracts.Keys.{KeyError, access_key}
use cwm_minio_tierer.Minio.Defs.{Object}
use cwm_minio_tierer.Redis.{Value}
use cwm_minio_tierer.Usage.Script.{ScriptError}
use cwm_minio_tierer.Usage.Reads.{
  ReadError, ReadSettings, unexpected_response, unexpected_value, malformed_count, bad_key,
  rejected, redis_array, hour_keys, chunk_keys, answered,
}

-- An error of the caller, of the client or of the script, none that finds fault with the reply.
abbrev pub IsOutside : ReadError → Type 0
IsOutside unexpected_response = ⊥
IsOutside unexpected_value = ⊥
IsOutside malformed_count = ⊥
IsOutside _ = Unit

pub whole_reply :
    (keys : List Str) (values : List Value)
    → length keys ≡ length values
    → redis_array values (length keys) ≡ ok values
unfolding redis_array
whole_reply keys values h = ground (arith, h)

abbrev pub FailsOutside {ℓ} : {A : Type ℓ} → Result ReadError A → Type 0
FailsOutside (err e) = IsOutside e
FailsOutside (ok a) = Unit

pub outside {ℓ} :
    {A : Type ℓ} (r : Result ReadError A) (e : ReadError) → FailsOutside r → r ≡ err e → IsOutside e
outside r e f h = subst FailsOutside h f

wrapped-FailsOutside : (r : Result KeyError Str) → FailsOutside (wrap_err bad_key r)
wrapped-FailsOutside (err e) = tt
wrapped-FailsOutside (ok key) = tt

pub answered-FailsOutside :
    (o : Option Str) (r : Result ScriptError (List Value)) → FailsOutside (answered o r)
answered-FailsOutside none (err e) = tt
answered-FailsOutside none (ok values) = tt
answered-FailsOutside (some why) r = tt

pub answered-ok :
    (o : Option Str) (r : Result ScriptError (List Value)) (values : List Value)
    → answered o r ≡ ok values
    → r ≡ ok values
answered-ok none r values h = wrap_err-eq-ok rejected r h
answered-ok (some why) r values h = cc

module _ (format_time : Str → Time → Str) (settings : ReadSettings) where
  pub hour_keys-FailsOutside :
      (bucket object : Str) (hours : List Time)
      → FailsOutside (hour_keys format_time settings bucket object hours)
  unfolding hour_keys
  hour_keys-FailsOutside bucket object [] = tt
  hour_keys-FailsOutside bucket object (hour ∷ hours) =
      let r = wrap_err bad_key (access_key format_time settings.instance_id bucket object hour) in
      >>=-cases FailsOutside r _ (λ e h. outside r e (wrapped-FailsOutside _) h)
        λ key h.
          >>=-cases FailsOutside (hour_keys format_time settings bucket object hours) _
            (λ e h'. outside _ e (hour_keys-FailsOutside bucket object hours) h') λ keys h'. tt

  pub chunk_keys-FailsOutside :
      (low_hours high_hours : List Time) (objects : List Object)
      → FailsOutside (chunk_keys format_time settings objects low_hours high_hours)
  unfolding chunk_keys
  chunk_keys-FailsOutside low_hours high_hours [] = tt
  chunk_keys-FailsOutside low_hours high_hours (o ∷ objects) =
      >>=-cases FailsOutside (hour_keys format_time settings o.bucket o.name low_hours) _
        (λ e h. outside _ e (hour_keys-FailsOutside o.bucket o.name low_hours) h)
        λ low h1.
          >>=-cases FailsOutside (hour_keys format_time settings o.bucket o.name high_hours) _
            (λ e h. outside _ e (hour_keys-FailsOutside o.bucket o.name high_hours) h)
            λ high h2.
              >>=-cases FailsOutside (chunk_keys format_time settings objects low_hours high_hours)
                _ (λ e h. outside _ e (chunk_keys-FailsOutside low_hours high_hours objects) h)
                λ rest h3. tt

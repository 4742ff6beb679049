-- ===== src/Counter/Batch.antt =====
-- counterScript of internal/redisstore/store.go as a whole.
use cwm_minio_tierer.Prelude.{
  ℕ, ◌+◌, ◌≤◌, ◌<◌, ◌≡◌, inl, inr, refl, sym, subst, suc, ◌∙◌, ap, true, Option, none, some, List,
  [], ◌∷◌, All, length, Result, ok, err, Result-cases, arith,
}
use cwm_minio_tierer.Prelude.Int.{max_int64}
use cwm_minio_tierer.Text.{Str}
use cwm_minio_tierer.Decimal.Defs.{valid_uint}
use cwm_minio_tierer.Decimal.Value.{value, IsCanonical}
use cwm_minio_tierer.Decimal.Order.{valid_uint_lem}
use cwm_minio_tierer.Decimal.Add.{add_uint_lem}
use cwm_minio_tierer.Redis.{Redis, Laws, Holds, stored}
use cwm_minio_tierer.Counter.Script.{
  ScriptError, check_current, check_key, check_all, counted, counter_script,
}
use cwm_minio_tierer.Counter.Writes.{
  Entry, keys_of, args_of, Distinct, IsReady, Grows, Untouched, write_all_lem, Written,
}

module _ (redis : Redis) where
  open redis use {State, now}

  -- The expiry is a time to come.
  abbrev pub IsFuture : State → Entry → Type 0
  IsFuture s e = now s < value e.expiry

  check_current_ready :
      (s : State) (key delta : Str) (o : Option Str)
      → stored redis s key ≡ o
      → IsCanonical delta
      → check_current redis o delta ≡ ok tt
      → (n : ℕ) × Holds redis s key n × (n + value delta ≤ max_int64)
  unfolding check_current
  check_current_ready s key delta none e d h = cc
  check_current_ready s key delta (some c) e d h =
      let v : valid_uint c ≡ true = ground arith in
      let canonical = ((valid_uint_lem c).0 v).0 in
      let (u, _, _, sum) = add_uint_lem c delta canonical d in
      (
        value c,
        record { text = c; is_stored = e; canonical = canonical; number = refl },
        ground (arith, sum),
      )

  check_key-IsReady :
      (s : State) (e : Entry)
      → IsFuture s e
      → check_key redis s e.key e.delta e.expiry ≡ ok tt
      → IsReady redis s e
  unfolding check_key
  check_key-IsReady s e f h =
      let d : IsCanonical e.delta = ((valid_uint_lem e.delta).0 (ground arith)).0 in
      let x : IsCanonical e.expiry = ((valid_uint_lem e.expiry).0 (ground arith)).0 in
      let (n, holds, fits) = check_current_ready s e.key e.delta _ refl d (ground arith) in
      record { before = n; holds = holds; delta_ok = d; fits = fits; expiry_ok = x; future = f }

  check_all-IsReady :
      (s : State) (es : List Entry)
      → All (IsFuture s) es
      → check_all redis s (keys_of es) (args_of es) ≡ ok tt
      → All (IsReady redis s) es
  unfolding check_all
  check_all-IsReady s [] f h = tt
  check_all-IsReady s (e ∷ es) f h =
      (check_key-IsReady s e f.0 (ground arith), check_all-IsReady s es f.1 (ground arith))

  length-keys_of : (es : List Entry) → length (keys_of es) ≡ length es
  length-keys_of [] = refl
  length-keys_of (e ∷ es) = ap suc (length-keys_of es)

  -- The key held a number, and holds that number and the delta now.
  abbrev pub Added : State → State → Entry → Type 0
  Added s t e = (n : ℕ) × Holds redis s e.key n × Holds redis t e.key (n + value e.delta)

  Added-All :
      (s t : State) (es : List Entry)
      → All (IsReady redis s) es
      → All (Grows redis s t) es
      → All (Added s t) es
  Added-All s t [] r g = tt
  Added-All s t (e ∷ es) r g =
      ((r.0.before, r.0.holds, g.0 r.0.before r.0.holds), Added-All s t es r.1 g.1)

  refused :
      (s : State) (es : List Entry) (e : ScriptError)
      → check_all redis s (keys_of es) (args_of es) ≡ err e
      → counter_script redis s (keys_of es) (args_of es) ≡ (s, err e)
  unfolding counter_script
  refused s es e h = rw (h, counter_script)

  accepted :
      (s : State) (es : List Entry)
      → check_all redis s (keys_of es) (args_of es) ≡ ok tt
      → (w : Written redis s es)
      → counter_script redis s (keys_of es) (args_of es) ≡ (w.after, ok (length es))
  unfolding counter_script counted
  accepted s es h w = rw (h, counter_script, w.done, length-keys_of es)

  module _ (laws : Laws redis) (s t : State) (es : List Entry) where
    -- And a batch that it accepts has added each delta to the number under its key, left every other
    -- key as it was, and answered with the number of keys.
    pub counter_script_adds :
        (n : ℕ)
        → Distinct es
        → All (IsFuture s) es
        → counter_script redis s (keys_of es) (args_of es) ≡ (t, ok n)
        → (n ≡ length es) × All (Added s t) es × Untouched redis s t es
    counter_script_adds n d f h =
        elim (Result-cases (check_all redis s (keys_of es) (args_of es))) [
          | inl (_, p) ↦
              let r = check_all-IsReady s es f p in
              let w = write_all_lem redis laws s es d r in
              let same = sym (accepted s es p w) ∙ h in
              let final : w.after ≡ t = ap (λ (q : State × Result ScriptError ℕ). q.0) same in
              (
                ground (arith, ap (λ (q : State × Result ScriptError ℕ). q.1) same),
                subst (λ u. All (Added s u) es) final (Added-All s w.after es r w.grown),
                subst (λ u. Untouched redis s u es) final w.others,
              )
          | inr (x, p) ↦ absurd (
              ground (
                arith,
                ap (λ (q : State × Result ScriptError ℕ). q.1) (sym (refused s es x p) ∙ h),
              ))
        ]

-- ===== src/Updater/Tally.antt =====
-- What `ingest` of internal/updater/http.go submits.
use cwm_minio_tierer.Prelude.{
  ℕ, suc, ◌+◌, ◌≤◌, ◌≡◌, refl, ap, subst, ◌∙◌, Bool, true, false, ◌||◌, List, [], ◌∷◌, ◌++◌, length,
  All, ok, arith, if◌then◌else◌,
}
use cwm_minio_tierer.Prelude.Int.{
  ℤ, pos, ◌+ℤ◌, ◌≤ℤ◌, wrap64, wrap_pos, add_pos, max_int64, int_length,
}
use cwm_minio_tierer.Text.{Str, str_eq, str_eq_iff}
use cwm_minio_tierer.Clock.{Time, is_zero}
use cwm_minio_tierer.Contracts.Defs.{validate_instance_id}
use cwm_minio_tierer.Updater.Decoded.{IsNamed}
use cwm_minio_tierer.Contracts.Base64.{encode_to_string}
use cwm_minio_tierer.Contracts.Keys.{
  namespace, colon_separated, key_parts, encode_identity-total, access_key, access_key-IsKeyOf,
}
use cwm_minio_tierer.Batcher.Pending.{
  Increment, BatcherConfig, bad_increment, has_text, check_increments, validate_request,
}
use cwm_minio_tierer.Updater.Config.{Config}
use cwm_minio_tierer.Updater.Decoder.{Access}
use cwm_minio_tierer.Updater.Ingest.{count_access, collect, batch_of}

-- Increments with other keys than `seen`, each for the same expiry, with n as the sum of their deltas.
abbrev pub IsTally : Time → List Str → List Increment → ℕ → Type 0
IsTally expiry seen [] n = n ≡ 0
IsTally expiry seen (i ∷ is) n =
    (d : ℕ) × (m : ℕ) × (i.delta ≡ pos (suc d))
    × (str_eq i.key [] ≡ false)
    × (has_text i.key seen ≡ false)
    × (i.expire_at ≡ expiry)
    × (n ≡ suc d + m)
    × IsTally expiry (i.key ∷ seen) is m

-- A sum that is an int64 does not wrap around.
added : (a b : ℕ) (x : ℤ) → x ≡ pos a → a + b ≤ max_int64 → wrap64 (x +ℤ pos b) ≡ pos (a + b)
added a b x e h = ap (λ y. wrap64 (y +ℤ pos b)) e ∙ ap wrap64 (add_pos a b) ∙ wrap_pos (a + b) h

added_right : (a b : ℕ) (x : ℤ) → x ≡ pos b → a + b ≤ max_int64 → wrap64 (pos a +ℤ x) ≡ pos (a + b)
added_right a b x e h =
    ap (λ y. wrap64 (pos a +ℤ y)) e ∙ ap wrap64 (add_pos a b) ∙ wrap_pos (a + b) h

count_access-IsTally :
    (expiry : Time) (key : Str) (seen : List Str) (is : List Increment) (n : ℕ)
    → str_eq key [] ≡ false
    → has_text key seen ≡ false
    → suc n ≤ max_int64
    → IsTally expiry seen is n
    → IsTally expiry seen (count_access key expiry is) (suc n)
unfolding count_access
count_access-IsTally expiry key seen [] n k new h t = (0, 0, refl, k, new, refl, ap suc t, refl)
count_access-IsTally expiry key seen (i ∷ is) n k new h
      (d, m, delta, named, fresh, expire, sum, t) =
    choose
      (λ other. count_access-IsTally expiry key (i.key ∷ seen) is m k other (omega (arith, sum)) t)
      (str_eq i.key key) refl
  where
    choose :
        (has_text key (i.key ∷ seen) ≡ false
          → IsTally expiry (i.key ∷ seen) (count_access key expiry is) (suc m))
        → (b : Bool) → str_eq i.key key ≡ b
        → IsTally expiry seen
            (if b
              then record { key = key; delta = wrap64 (i.delta +ℤ pos 1); expire_at = expiry } ∷ is
              else i ∷ count_access key expiry is)
            (suc n)
    choose next true same =
        let key_same = (str_eq_iff i.key key).0 same in
        (
          suc d,
          m,
          added (suc d) 1 i.delta delta (omega (arith, sum)) ∙ ap pos (omega arith),
          k,
          new,
          refl,
          omega (arith, sum),
          subst (λ j. IsTally expiry (j ∷ seen) is m) key_same t,
        )
    choose next false differs =
        (d, suc m, delta, named, fresh, expire, omega (arith, sum), next (rw differs new))

check_increments-IsTally :
    (expiry : Time) (seen : List Str) (is : List Increment) (total n : ℕ)
    → is_zero expiry ≡ false
    → total + n ≤ max_int64
    → IsTally expiry seen is n
    → check_increments seen (pos total) is ≡ ok (pos (total + n))
unfolding check_increments
check_increments-IsTally expiry seen [] total n z h t = ap (λ m. ok (pos m)) (omega (arith, t))
check_increments-IsTally expiry seen (i ∷ is) total n z h
      (d, m, delta, named, fresh, expire, sum, t) =
    let good : (bad_increment i || has_text i.key seen) ≡ false =
      ground (arith, named, delta, expire, fresh, z) in
    let wrapped = added_right total (suc d) i.delta delta (omega (arith, sum)) in
    let rest =
      check_increments-IsTally expiry (i.key ∷ seen) is (total + suc d) m z (omega (arith, sum))
        t in
    rw (good, wrapped) (rest ∙ ap (λ k. ok (pos k)) (omega (arith, sum)))

length-IsTally :
    (expiry : Time) (seen : List Str) (is : List Increment) (n : ℕ)
    → IsTally expiry seen is n
    → length is ≤ n
length-IsTally expiry seen [] n t = omega arith
length-IsTally expiry seen (i ∷ is) n (d, m, delta, named, fresh, expire, sum, t) =
    omega (arith, length-IsTally expiry (i.key ∷ seen) is m t, sum)

nonempty-IsTally :
    (expiry : Time) (seen : List Str) (is : List Increment) (n : ℕ)
    → 1 ≤ n
    → IsTally expiry seen is n
    → 1 ≤ length is
nonempty-IsTally expiry seen [] n h t = omega (arith, t)
nonempty-IsTally expiry seen (i ∷ is) n h t = omega arith

access_key-named :
    (format_time : Str → Time → Str) (instance_id bucket object key : Str) (t : Time)
    → access_key format_time instance_id bucket object t ≡ ok key
    → str_eq key [] ≡ false
unfolding str_eq
access_key-named format_time instance_id bucket object key t h =
    subst (λ k. str_eq k [] ≡ false)
      (access_key-IsKeyOf format_time instance_id bucket object t key h).rendered refl

access_key-total :
    (format_time : Str → Time → Str) (instance_id : Str) (a : Access) (t : Time)
    → validate_instance_id instance_id ≡ ok tt
    → IsNamed a
    → (key : Str) × (access_key format_time instance_id a.bucket a.object t ≡ ok key)
unfolding access_key
access_key-total format_time instance_id a t valid named =
    let bucket = encode_identity-total a.bucket named.has_bucket in
    let object = encode_identity-total a.object named.has_object in
    (
      namespace
          ++ (b':'
              ∷ colon_separated (
                  key_parts format_time instance_id t (encode_to_string a.bucket)
                    (encode_to_string a.object))),
      rw (valid, bucket, object) refl,
    )

module _ (format_time : Str → Time → Str) (c : Config) (accepted_at expiry : Time) where
  pub collect-IsTally :
      (is : List Increment) (n : ℕ) (records : List Access)
      → validate_instance_id c.identity.instance_id ≡ ok tt
      → All IsNamed records
      → n + length records ≤ max_int64
      → IsTally expiry [] is n
      → (increments : List Increment) × (collect format_time c accepted_at expiry is records
          ≡ ok increments)
        × IsTally expiry [] increments (n + length records)
  unfolding collect
  collect-IsTally is n [] valid named h t = (is, refl, subst (IsTally expiry [] is) (omega arith) t)
  collect-IsTally is n (a ∷ records) valid (first, named) h t =
      let (key, is_key) =
        access_key-total format_time c.identity.instance_id a accepted_at valid first in
      let next =
        count_access-IsTally expiry key [] is n
          (access_key-named format_time _ _ _ key accepted_at is_key) refl (omega arith) t in
      let (increments, collected, tally) =
        collect-IsTally (count_access key expiry is) (suc n) records valid named (omega arith)
          next in
      (increments, rw is_key collected, subst (IsTally expiry [] increments) (omega arith) tally)

  pub validate_request-ok :
      (b : BatcherConfig) (records : List Access) (increments : List Increment)
      → is_zero expiry ≡ false
      → 1 ≤ length records
      → length records ≤ max_int64
      → int_length records ≤ℤ b.max_events
      → int_length records ≤ℤ b.max_keys
      → IsTally expiry [] increments (length records)
      → validate_request b (batch_of format_time c records increments) ≡ ok tt
  unfolding validate_request
  validate_request-ok b records increments z some_record small events keys t =
      let few = length-IsTally expiry [] increments (length records) t in
      let total =
        check_increments-IsTally expiry [] increments 0 (length records) z (omega arith) t in
      let some_increment = nonempty-IsTally expiry [] increments (length records) some_record t in
      ground (arith, few, total, some_increment)

-- ===== src/Minio/Marker.antt =====
-- `PlanMarker` of internal/tierer/minio.go and the tags that it plans.
use cwm_minio_tierer.Prelude.{
  ◌+◌, ◌≤◌, ◌≡◌, ◌≢◌, ◌⊎◌, refl, false, none, some, [], ◌∷◌, length, arith, if◌then◌else◌,
  Option-cases, inl, inr,
}
use cwm_minio_tierer.Text.{Str, str_eq, str_eq_iff, str_eq_refl}
use cwm_minio_tierer.Minio.Defs.{Tags, tag_limit, tag_value, set_tag, plan_marker}

tag_value-set_tag :
    (k j v : Str) (m : Tags)
    → tag_value j (set_tag k v m) ≡ (if str_eq k j then some v else tag_value j m)
unfolding tag_value set_tag
tag_value-set_tag k j v [] = refl
tag_value-set_tag k j v ((i, w) ∷ m) =
    ground (arith, str_eq_iff k j, str_eq_iff i k, str_eq_iff i j, tag_value-set_tag k j v m)

length-set_tag : (k v : Str) (m : Tags) → length (set_tag k v m) ≤ length m + 1
unfolding set_tag
length-set_tag k v [] = omega arith
length-set_tag k v ((i, w) ∷ m) = ground (arith, length-set_tag k v m)

length-set_tag_present :
    (k v u : Str) (m : Tags) → tag_value k m ≡ some u → length (set_tag k v m) ≡ length m
unfolding set_tag tag_value
length-set_tag_present k v u [] h = cc
length-set_tag_present k v u ((i, w) ∷ m) h = ground (arith, length-set_tag_present k v u m)

-- The plan for a tag set of at most ten tags: unless the limit is reached, the marker has its value in
-- the planned tags; every other tag is as it was; the plan has at most ten tags; if it is not
-- required, the tags are as they were, and the marker is there already or the limit is reached; and
-- the limit is reached only when ten other tags stand there.
pub plan_marker_lem :
    (key value : Str) (tags : Tags)
    → length tags ≤ 10
    → let plan = plan_marker key value tags in
      (plan.outcome ≢ tag_limit → tag_value key plan.tags ≡ some value)
      × ((j : Str) → j ≢ key → tag_value j plan.tags ≡ tag_value j tags)
      × (length plan.tags ≤ 10)
      × (plan.required ≡ false
          → (plan.tags ≡ tags) × ((tag_value key tags ≡ some value) ⊎ (plan.outcome ≡ tag_limit)))
      × (plan.outcome ≡ tag_limit → (length tags ≡ 10) × (tag_value key tags ≡ none))
unfolding plan_marker
plan_marker_lem key value tags h = elim (Option-cases (tag_value key tags)) [
  | inl e ↦ (
    λ ne. ground (arith, e, tag_value-set_tag key key value tags, str_eq_refl key),
    λ j ne. ground (arith, e, tag_value-set_tag key j value tags, str_eq_iff key j),
    ground (arith, e, length-set_tag key value tags),
    λ r. ground (arith, e),
    λ t. ground (arith, e),
  )
  | inr (u, e) ↦ (
    λ ne.
        ground
          (arith, e, tag_value-set_tag key key value tags, str_eq_refl key, str_eq_iff u value),
    λ j ne. ground (arith, e, tag_value-set_tag key j value tags, str_eq_iff key j),
    ground (arith, e, length-set_tag_present key value u tags),
    λ r. ground (arith, e, str_eq_iff u value),
    λ t. ground (arith, e),
  )
]

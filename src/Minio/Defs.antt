-- ===== src/Minio/Defs.antt =====
-- The records and the pure parts of internal/tierer/minio.go. What the MinIO client answers is an
-- argument.
use mathlib.Core.List.{reverse}
use cwm_minio_tierer.Prelude.{
  Bool, true, false, not, ◌&&◌, ◌||◌, Option, none, some, List, [], ◌∷◌, length, Result, ok, err,
  not, ◌&&◌, leb, ◌==◌, if◌then◌else◌,
}
use cwm_minio_tierer.Prelude.Int.{ℤ, eqb_ℤ}
use cwm_minio_tierer.Text.{Str, bytes, str_eq, str_lt}
use cwm_minio_tierer.Clock.{Time, second, truncate, floor_mod}
use cwm_minio_tierer.Evaluator.Defs.{ObjectState, RestoreState}

pub record Object : Type 0 where
  pub bucket : Str
  pub name : Str
  pub etag : Str
  pub last_modified : Time
  pub size : ℤ
  pub version_id : Str
  pub state : ObjectState
  pub state_known : Bool

unfoldable pub drop_quotes : Str → Str
drop_quotes [] = []
drop_quotes (c ∷ s) = let rest = drop_quotes s in if c == b'"' then rest else c ∷ s

-- strings.Trim(s, `"`)
unfoldable pub trim_quotes : Str → Str
unfolding drop_quotes
trim_quotes s = reverse (drop_quotes (reverse (drop_quotes s)))

unfoldable pub same_last_modified : Time → Time → Bool
same_last_modified listed current =
    eqb_ℤ listed current
    || (floor_mod current second == 0 && eqb_ℤ (truncate listed second) current)

unfoldable pub same_identity : Object → Object → Bool
same_identity listed current =
    if not (str_eq (trim_quotes listed.etag) (trim_quotes current.etag))
      || not (same_last_modified listed.last_modified current.last_modified)
      || not (eqb_ℤ listed.size current.size)
    then false
    else str_eq listed.version_id [] || str_eq listed.version_id current.version_id

pub data MarkerOutcome : Type 0 where
  matched added replaced tag_limit : MarkerOutcome

-- A tag set: one value for each key, in no particular order.
abbrev pub Tags : Type 0
Tags = List (Str × Str)

pub record MarkerPlan : Type 0 where
  pub required : Bool
  pub outcome : MarkerOutcome
  pub tags : Tags

-- values[key]
unfoldable pub tag_value : Str → Tags → Option Str
tag_value k [] = none
tag_value k ((j, v) ∷ m) = if str_eq j k then some v else tag_value k m

-- values[key] = value
unfoldable pub set_tag : Str → Str → Tags → Tags
set_tag k v [] = (k, v) ∷ []
set_tag k v ((j, w) ∷ m) = if str_eq j k then (k, v) ∷ m else (j, w) ∷ set_tag k v m

abbrev pub plan_for : Str → Str → Tags → Option Str → MarkerPlan
plan_for key value tags (some existing) =
    if str_eq existing value
    then record { required = false; outcome = matched; tags = tags }
    else record { required = true; outcome = replaced; tags = set_tag key value tags }
plan_for key value tags none =
    if leb 10 (length tags)
    then record { required = false; outcome = tag_limit; tags = tags }
    else record { required = true; outcome = added; tags = set_tag key value tags }

-- `PlanMarker` after GetObjectTagging
unfoldable pub plan_marker : Str → Str → Tags → MarkerPlan
plan_marker key value tags = plan_for key value tags (tag_value key tags)

-- actual[key] == value, where a missing key reads as the empty string
abbrev pub has_value : Option Str → Str → Bool
has_value none value = str_eq [] value
has_value (some actual) value = str_eq actual value

unfoldable pub all_present : Tags → Tags → Bool
all_present actual [] = true
all_present actual ((k, v) ∷ m) = has_value (tag_value k actual) v && all_present actual m

-- The verification of `ApplyMarker`, on the tags that were read back.
unfoldable pub verify_tags : Tags → Tags → Bool
verify_tags planned actual = length actual == length planned && all_present actual planned

-- minio.ObjectInfo, as far as it is read; `metadata_class` is its X-Amz-Storage-Class, empty if there
-- is none.
pub record ObjectInfo : Type 0 where
  pub key : Str
  pub etag : Str
  pub last_modified : Time
  pub size : ℤ
  pub version_id : Str
  pub storage_class : Str
  pub metadata_class : Str
  pub restore : Option RestoreState

pub data ListError : Type 0 where
  listing_error not_sorted : Str → ListError

module _ (equal_fold : Str → Str → Bool) where
  unfoldable pub class_of : ObjectInfo → Str
  class_of info = if str_eq info.storage_class [] then info.metadata_class else info.storage_class

  -- strings.EqualFold is a parameter
  unfoldable pub state_from_info : ObjectInfo → ObjectState × Bool
  state_from_info info =
      let class = class_of info in
      let moved = not (str_eq class []) && not (equal_fold class (bytes "STANDARD")) in
      elim info.restore [
        | none ↦ (record { transitioned = moved; restore = none }, not (str_eq class []))
        | some r ↦ (record { transitioned = true; restore = some r }, true)
      ]

  unfoldable pub object_from_info : Str → ObjectInfo → Bool → Object
  object_from_info bucket info stat =
      let (state, known) = state_from_info info in
      record {
        bucket = bucket;
        name = info.key;
        etag = trim_quotes info.etag;
        last_modified = info.last_modified;
        size = info.size;
        version_id = info.version_id;
        state = state;
        state_known = known || stat;
      }

  -- What the goroutine of `Objects` sends for what the listing sends: an error ends it.
  unfoldable pub listed_objects :
      Str → Str → List (Result Str ObjectInfo) → List (Result ListError Object)
  listed_objects bucket previous [] = []
  listed_objects bucket previous (err e ∷ infos) = err (listing_error e) ∷ []
  listed_objects bucket previous (ok info ∷ infos) =
      if not (str_lt previous info.key)
      then err (not_sorted previous) ∷ []
      else ok (object_from_info bucket info false) ∷ listed_objects bucket info.key infos

-- ===== src/Tests/ScannerTests.antt =====
-- A scan of one bucket, and the parts of internal/tierer/minio.go and internal/contracts/contracts.go
-- that it uses, on concrete inputs.
use cwm_minio_tierer.Prelude.{
  ℕ, ◌+◌, ◌*◌, ◌≤◌, ◌≡◌, ◌≢◌, ◌⊎◌, refl, Bool, true, false, none, some, [], ◌∷◌, length, All, ok,
  arith,
}
use cwm_minio_tierer.Prelude.Int.{pos, ◌-ℤ◌}
use cwm_minio_tierer.Text.{Str, bytes}
use cwm_minio_tierer.Clock.{hour}
use cwm_minio_tierer.Contracts.Defs.{hour_window, window_from}
use cwm_minio_tierer.Scanner.Objects.{
  after_stat, perform, handle_restore, with_reservation, after_reserve, call_restore, after_restore,
  handle_object,
}
use cwm_minio_tierer.Scanner.Chunks.{
  validate, validate_aggregate_access_keys, is_listed, has_some_prefix, excluded, slices_sort,
  sort_from, sink, scan_buckets, scan_bucket, process_some, evaluate_all, verdict, handle_all,
  save_last, reset,
}
use cwm_minio_tierer.Evaluator.Defs.{evaluate, sum_counts, sum_from, coverage_from, decide_action}
use cwm_minio_tierer.Minio.Defs.{same_identity, trim_quotes, drop_quotes, same_last_modified}
use cwm_minio_tierer.Clock.{truncate}
use cwm_minio_tierer.Prelude.Int.{wrap64, ◌+ℤ◌, ◌*ℤ◌}
use cwm_minio_tierer.Text.{str_eq, str_lt, ends_with, has_prefix}
use cwm_minio_tierer.Minio.Defs.{Object, Tags, tag_limit, tag_value, plan_marker}
use cwm_minio_tierer.Minio.Marker.{plan_marker_lem}
use cwm_minio_tierer.Scanner.Sorting.{IsSorted, count, slices_sort_lem}
use cwm_minio_tierer.Minio.Listing.{IsSortedAfter, listed_objects-IsSortedAfter}
use cwm_minio_tierer.Minio.Defs.{ObjectInfo, listed_objects}
use cwm_minio_tierer.Scanner.Effects.{ScannerConfig, Deps, item}
use cwm_minio_tierer.Scanner.Objects.{Scan}
use cwm_minio_tierer.Scanner.Audit.{IsAudit, scan_once-IsAudit}
use cwm_minio_tierer.Scanner.Chunks.{process_chunk, scan_items, scan_once, last_object}
use cwm_minio_tierer.Scanner.Buckets.{Covers, scan_items-Covers}

abbrev kept_tags : Tags
kept_tags = (bytes "team", bytes "data") ∷ (bytes "tier", bytes "hot") ∷ []

plan_marker_lem_example :
    let plan = plan_marker (bytes "tier") (bytes "cold") kept_tags in
    (plan.outcome ≢ tag_limit → tag_value (bytes "tier") plan.tags ≡ some (bytes "cold"))
    × ((j : Str) → j ≢ bytes "tier" → tag_value j plan.tags ≡ tag_value j kept_tags)
    × (length plan.tags ≤ 10)
    × (plan.required ≡ false
        → (plan.tags ≡ kept_tags)
          × ((tag_value (bytes "tier") kept_tags ≡ some (bytes "cold"))
              ⊎ (plan.outcome ≡ tag_limit)))
    × (plan.outcome ≡ tag_limit
        → (length kept_tags ≡ 10) × (tag_value (bytes "tier") kept_tags ≡ none))
plan_marker_lem_example = plan_marker_lem (bytes "tier") (bytes "cold") kept_tags (omega arith)

abbrev report : Object
report = record {
  bucket = bytes "data";
  name = bytes "report";
  etag = bytes "e1";
  last_modified = pos hour;
  size = pos 7;
  version_id = [];
  state = record { transitioned = true; restore = none };
  state_known = true;
}

abbrev folder : Object
folder = record report { name = bytes "folder/"; size = pos 0 }

-- Each call is answered, and the world counts the reservations and restores.
abbrev deps : Deps
deps = record {
  World = ℕ;
  now = λ w. (w, pos (100 * hour));
  context_error = λ w. (w, none);
  is_canceled = λ e. false;
  stat = λ w o. (w, ok o);
  read_marker_plan = λ w o k v. (w, ok (plan_marker k v []));
  apply_marker = λ w o plan. (w + 1, ok tt);
  restore = λ w o days. (w + 1, ok false);
  reserve = λ w t kind limit n.
      (w + 1, ok (record { allowed = true; used_attempts = pos 1; used_bytes = n }));
  read_chunk = λ w os low high.
      (w, ok (record { low = pos 0 ∷ pos 0 ∷ []; high = pos 20 ∷ [] } ∷ [], true ∷ true ∷ []));
  save_cursor = λ w scope cursor. (w, ok tt);
  reset_cursor = λ w scope. (w, ok tt);
  load_cursor = λ w scope. (w, ok none);
  buckets = λ w. (w, ok (bytes "data" ∷ []));
  objects = λ w bucket start. (w, item folder ∷ item report ∷ []);
}

abbrev config : Bool → ScannerConfig
config apply = record {
  apply = apply;
  policy = record {
    low_threshold = pos 5;
    low_window_hours = pos 2;
    high_threshold = pos 10;
    high_window_hours = pos 1;
    high_include_current = false;
  };
  restore_days = pos 3;
  marker_key = bytes "tier";
  marker_value = bytes "cold";
  chunk_size = pos 2;
  excluded_buckets = [];
  excluded_prefixes = [];
  scope = bytes "scope";
  transition_limit = record { attempts = pos 0; bytes_limit = pos 0 };
  restore_limit = record { attempts = pos 0; bytes_limit = pos 0 };
}

abbrev fresh : Scan deps
fresh = record { world = 0; trace = [] }

scan_once-IsAudit_example : All IsAudit (scan_once deps (config false) fresh).0.trace
scan_once-IsAudit_example = scan_once-IsAudit deps (config false) fresh refl refl

scan_items-Covers_example :
    Covers deps
      (config true)
      2
      []
      (scan_items deps (config true) fresh [] (item folder ∷ item report ∷ []))
scan_items-Covers_example =
    scan_items-Covers deps (config true) fresh [] (item folder ∷ item report ∷ [])

-- The folder is skipped and the report restored: one reservation and one restore.
scanned : let scan = scan_once deps (config true) fresh in (scan.1 ≡ ok tt) × (scan.0.world ≡ 2)
unfolding scan_once validate validate_aggregate_access_keys is_listed has_some_prefix excluded
    slices_sort sort_from sink scan_buckets scan_bucket scan_items process_some process_chunk
    hour_window window_from evaluate_all verdict handle_all save_last reset handle_object after_stat
    perform handle_restore with_reservation after_reserve call_restore after_restore evaluate
    sum_counts sum_from coverage_from decide_action same_identity trim_quotes drop_quotes
    same_last_modified truncate wrap64 str_eq str_lt ends_with has_prefix ◌+ℤ◌ ◌-ℤ◌ ◌*ℤ◌ last_object
scanned = (refl, refl)

abbrev info : Str → ObjectInfo
info key = record {
  key = key;
  etag = bytes "e1";
  last_modified = pos hour;
  size = pos 7;
  version_id = [];
  storage_class = [];
  metadata_class = [];
  restore = none;
}

-- The second name is not above the first.
listed_objects-IsSortedAfter_example :
    IsSortedAfter []
      (listed_objects str_eq (bytes "data") [] (ok (info (bytes "b")) ∷ ok (info (bytes "a")) ∷ []))
listed_objects-IsSortedAfter_example =
    listed_objects-IsSortedAfter str_eq (bytes "data") []
      (ok (info (bytes "b")) ∷ ok (info (bytes "a")) ∷ [])

slices_sort_lem_example :
    let sorted = slices_sort (bytes "b" ∷ bytes "a" ∷ []) in
    IsSorted sorted × ((k : Str) → count k sorted ≡ count k (bytes "b" ∷ bytes "a" ∷ []))
slices_sort_lem_example = slices_sort_lem (bytes "b" ∷ bytes "a" ∷ [])

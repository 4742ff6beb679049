-- ===== src/Minio/Listing.antt =====
-- `Objects` of internal/tierer/minio.go: the order of what it sends.
use cwm_minio_tierer.Prelude.{
  ◌≡◌, refl, Bool, true, List, [], ◌∷◌, Result, ok, err, Bool-cases, inl, inr,
}
use cwm_minio_tierer.Text.{Str, str_lt}
use cwm_minio_tierer.Minio.Defs.{
  Object, ObjectInfo, ListError, listed_objects, object_from_info, state_from_info,
}

-- Each object's name is above `previous` and the names before it, and nothing follows an error.
abbrev pub IsSortedAfter : Str → List (Result ListError Object) → Type 0
IsSortedAfter previous [] = Unit
IsSortedAfter previous (err e ∷ rest) = rest ≡ []
IsSortedAfter previous (ok o ∷ rest) = (str_lt previous o.name ≡ true) × IsSortedAfter o.name rest

module _ (equal_fold : Str → Str → Bool) where
  -- Whatever the listing sends, the names of the objects that are sent on are above the start and
  -- strictly increase, and nothing follows an error.
  pub listed_objects-IsSortedAfter :
      (bucket start : Str) (infos : List (Result Str ObjectInfo))
      → IsSortedAfter start (listed_objects equal_fold bucket start infos)
  unfolding listed_objects object_from_info state_from_info
  listed_objects-IsSortedAfter bucket start [] = tt
  listed_objects-IsSortedAfter bucket start (err e ∷ infos) = refl
  listed_objects-IsSortedAfter bucket start (ok info ∷ infos) =
      elim (Bool-cases (str_lt start info.key)) [
        | inl e ↦ rw e (e, listed_objects-IsSortedAfter bucket info.key infos)
        | inr e ↦ rw e refl
      ]

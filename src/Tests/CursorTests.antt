-- ===== src/Tests/CursorTests.antt =====
-- Cursors in a table, in a text of lengths and parts.
use cwm_minio_tierer.Prelude.{
  ℕ, suc, ◌≡◌, ◌≢◌, ◌⊎◌, refl, ap, Option, none, some, [], ◌∷◌, ◌++◌, length, take, drop, is_nil,
  Result, ok, err, arith,
}
use cwm_minio_tierer.Prelude.Int.{pos, pos_part}
use cwm_minio_tierer.Text.{Str, bytes, str_eq}
use cwm_minio_tierer.Redis.Memory.{Table, lookup, lookup-head, lookup-head_self, drop_key}
use cwm_minio_tierer.Scanner.Effects.{Cursor}
use cwm_minio_tierer.CursorStore.Defs.{
  Json, Client, CursorEnvelope, GetError, no_value, cursor_key, save_cursor, load_cursor,
}
use cwm_minio_tierer.CursorStore.Client.{ClientLaws}
use cwm_minio_tierer.CursorStore.Saved.{
  IsClientError, load_cursor-save_cursor, load_cursor-elsewhere,
}

abbrev answer : Option Str → Result GetError Str
answer none = err no_value
answer (some v) = ok v

abbrev table : Client
table = record {
  World = Table;
  set = λ w key v. ((key, v) ∷ w, ok tt);
  get = λ w key. (w, answer (lookup key w));
  del = λ w key. (drop_key key w, ok tt);
}

lookup-drop_key : (key : Str) (w : Table) → lookup key (drop_key key w) ≡ none
unfolding lookup drop_key
lookup-drop_key key [] = refl
lookup-drop_key key ((j, v) ∷ w) = ground (arith, lookup-drop_key key w)

answer-value : (o : Option Str) (raw : Str) → answer o ≡ ok raw → o ≡ some raw
answer-value none raw h = cc
answer-value (some v) raw h = cc

answer-nothing : (o : Option Str) → answer o ≡ err no_value → o ≡ none
answer-nothing none h = refl
answer-nothing (some v) h = cc

table-ClientLaws : ClientLaws table
table-ClientLaws = record {
  held = λ w key. lookup key w;
  set_done = λ w key v h. lookup-head_self key v w;
  set_elsewhere = λ w key v j n. lookup-head key j v w n;
  del_done = λ w key h. lookup-drop_key key w;
  get_value = λ w key raw h. answer-value (lookup key w) raw h;
  get_nothing = λ w key h. answer-nothing (lookup key w) h;
}

abbrev time_in : Str → ℕ
time_in [] = 0
time_in (t ∷ rest) = t

abbrev with_object : Str → Str → Option (CursorEnvelope × Str)
with_object bucket [] = none
with_object bucket (n ∷ rest) = some (
  record {
    version = pos 1;
    cursor = record {
      bucket = bucket;
      object = take n rest;
      updated_at = pos (time_in (drop n rest));
    };
  },
  drop (suc n) rest,
)

abbrev with_bucket : Str → Option (CursorEnvelope × Str)
with_bucket [] = none
with_bucket (n ∷ rest) = with_object (take n rest) (drop n rest)

abbrev parts : Json
parts = record {
  marshal = λ e. some (
      length e.cursor.bucket
      ∷ (e.cursor.bucket
          ++ (length e.cursor.object ∷ (e.cursor.object ++ (pos_part e.cursor.updated_at ∷ [])))));
  decode = with_bucket;
  at_end = is_nil;
}

abbrev scope : Str
scope = bytes "0123456789abcdef0123456789abcdef0123456789abcdef0123456789ABCDEF"

abbrev other_scope : Str
other_scope = bytes "0000000000000000000000000000000000000000000000000000000000000000"

abbrev cursor : Cursor
cursor = record { bucket = bytes "data"; object = bytes "report"; updated_at = pos 7 }

saves : (save_cursor parts table (bytes "a") [] scope cursor).1 ≡ ok tt
unfolding save_cursor cursor_key str_eq
saves = refl

load_cursor-save_cursor_example :
    ((load_cursor parts table
        (bytes "a")
        (save_cursor parts table (bytes "a") [] scope cursor).0
        scope).1
      ≡ ok (some cursor))
    ⊎ IsClientError parts table
        (bytes "a")
        table-ClientLaws
        (load_cursor parts table
          (bytes "a")
          (save_cursor parts table (bytes "a") [] scope cursor).0
          scope).1
load_cursor-save_cursor_example =
    load_cursor-save_cursor parts table (bytes "a") table-ClientLaws [] scope cursor
      (_, _, refl, refl, refl) saves

abbrev second_byte : Str → ℕ
second_byte [] = 0
second_byte (a ∷ []) = 0
second_byte (a ∷ b ∷ s) = b

other_scope-differs : other_scope ≢ scope
other_scope-differs e = absurd (omega (arith, ap second_byte e))

load_cursor-elsewhere_example :
    ((load_cursor parts table
        (bytes "a")
        (save_cursor parts table (bytes "a") [] scope cursor).0
        other_scope).1
      ≡ (load_cursor parts table (bytes "a") [] other_scope).1)
    ⊎ (IsClientError parts table
          (bytes "a")
          table-ClientLaws
          (load_cursor parts table (bytes "a") [] other_scope).1
        ⊎ IsClientError parts table
            (bytes "a")
            table-ClientLaws
            (load_cursor parts table
              (bytes "a")
              (save_cursor parts table (bytes "a") [] scope cursor).0
              other_scope).1)
load_cursor-elsewhere_example =
    load_cursor-elsewhere parts table (bytes "a") table-ClientLaws [] scope other_scope cursor
      other_scope-differs

-- ===== src/CursorStore/Defs.antt =====
-- `CursorBefore`, `cursorKey`, `SaveCursor`, `LoadCursor` and `ResetCursor` of
-- internal/tierer/redis.go. The Redis client and encoding/json are parameters.
use cwm_minio_tierer.Prelude.{
  ℕ, Bool, not, ◌&&◌, ◌||◌, Option, none, some, [], ◌∷◌, ◌++◌, length, all, Result, ok, err, ◌>>◌,
  reject_if, leb, ◌==◌, if◌then◌else◌,
}
use cwm_minio_tierer.Prelude.Int.{ℤ, pos, eqb_ℤ}
use cwm_minio_tierer.Text.{Str, bytes, str_eq, str_lt}
use cwm_minio_tierer.Clock.{is_zero}
use cwm_minio_tierer.Contracts.Keys.{namespace}
use cwm_minio_tierer.Scanner.Effects.{Cursor}

-- `cursorEnvelope`
pub record CursorEnvelope : Type 0 where
  pub version : ℤ
  pub cursor : Cursor

-- json.Marshal of an envelope; a decoder that refuses unknown fields, with what it leaves of the text;
-- and whether a second Decode meets the end of that.
pub record Json : Type 0 where
  pub marshal : CursorEnvelope → Option Str
  pub decode : Str → Option (CursorEnvelope × Str)
  pub at_end : Str → Bool

-- What Get answers besides a value: redis.Nil, or another error.
pub data GetError : Type 0 where
  no_value : GetError
  get_failed : Str → GetError

pub record Client : Type 1 where
  pub World : Type 0
  pub set : World → Str → Str → World × Result Str (Unit {0})
  pub get : World → Str → World × Result GetError Str
  pub del : World → Str → World × Result Str (Unit {0})

pub data CursorError : Type 0 where
  short_scope no_hex incomplete unmarshalled undecodable trailing unsupported : CursorError
  client_error : Str → CursorError

unfoldable pub cursor_before : Cursor → Cursor → Bool
cursor_before left right =
    str_lt left.bucket right.bucket
    || (str_eq left.bucket right.bucket && str_lt left.object right.object)

abbrev pub is_hex : ℕ → Bool
is_hex c = (leb b'0' c && leb c b'9') || (leb b'a' c && leb c b'f') || (leb b'A' c && leb c b'F')

-- An envelope or a cursor with a part that is not set.
abbrev pub is_incomplete : Cursor → Bool
is_incomplete c = str_eq c.bucket [] || str_eq c.object [] || is_zero c.updated_at

module _ (json : Json) (client : Client) (instance_id : Str) where
  open client use {World, set, get, del}

  abbrev pub key_of : Str → Str
  key_of scope = namespace ++ (b':' ∷ instance_id ++ (bytes ":cursor:" ++ scope))

  -- Of 64 bytes, hex.DecodeString refuses those that are no hexadecimal digits.
  unfoldable pub cursor_key : Str → Result CursorError Str
  cursor_key scope = do
    reject_if (not (length scope == 64)) short_scope
    reject_if (not (all is_hex scope)) no_hex
    ok (key_of scope)

  abbrev pub reported : {A : Type 0} → World × Result Str A → World × Result CursorError A
  reported (w, ok a) = (w, ok a)
  reported (w, err why) = (w, err (client_error why))

  abbrev pub write : World → Str → Option Str → World × Result CursorError (Unit {0})
  write w key none = (w, err unmarshalled)
  write w key (some payload) = reported (set w key payload)

  abbrev pub save_at :
      World → Cursor → Result CursorError Str → World × Result CursorError (Unit {0})
  save_at w cursor (err e) = (w, err e)
  save_at w cursor (ok key) =
      if is_incomplete cursor
      then (w, err incomplete)
      else write w key (json.marshal (record { version = pos 1; cursor = cursor }))

  unfoldable pub save_cursor : World → Str → Cursor → World × Result CursorError (Unit {0})
  save_cursor w scope cursor = save_at w cursor (cursor_key scope)

  -- What LoadCursor makes of the text.
  abbrev pub accept : Option (CursorEnvelope × Str) → Result CursorError (Option Cursor)
  accept none = err undecodable
  accept (some (envelope, rest)) = do
    reject_if (not (json.at_end rest)) trailing
    reject_if (not (eqb_ℤ envelope.version (pos 1)) || is_incomplete envelope.cursor) unsupported
    ok (some envelope.cursor)

  abbrev pub received : World × Result GetError Str → World × Result CursorError (Option Cursor)
  received (w, err no_value) = (w, ok none)
  received (w, err (get_failed why)) = (w, err (client_error why))
  received (w, ok raw) = (w, accept (json.decode raw))

  abbrev pub load_at : World → Result CursorError Str → World × Result CursorError (Option Cursor)
  load_at w (err e) = (w, err e)
  load_at w (ok key) = received (get w key)

  unfoldable pub load_cursor : World → Str → World × Result CursorError (Option Cursor)
  load_cursor w scope = load_at w (cursor_key scope)

  abbrev pub reset_at : World → Result CursorError Str → World × Result CursorError (Unit {0})
  reset_at w (err e) = (w, err e)
  reset_at w (ok key) = reported (del w key)

  unfoldable pub reset_cursor : World → Str → World × Result CursorError (Unit {0})
  reset_cursor w scope = reset_at w (cursor_key scope)

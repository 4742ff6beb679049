-- ===== src/CursorStore/Client.antt =====
-- What SaveCursor and LoadCursor rely on of Redis and of encoding/json.
use cwm_minio_tierer.Prelude.{◌≡◌, ◌≢◌, true, Option, none, some, ok, err}
use cwm_minio_tierer.Text.{Str}
use cwm_minio_tierer.CursorStore.Defs.{Client, Json, CursorEnvelope, no_value}

-- Each key holds at most one value. A SET or a DEL that is answered has been done, and none touches
-- another key, answered or not.
pub record ClientLaws (client : Client) : Type 0 where
  pub held : client.World → Str → Option Str
  pub set_done :
      (w : client.World) (key payload : Str)
      → (client.set w key payload).1 ≡ ok tt
      → held (client.set w key payload).0 key ≡ some payload
  pub set_elsewhere :
      (w : client.World) (key payload j : Str)
      → j ≢ key
      → held (client.set w key payload).0 j ≡ held w j
  pub del_done :
      (w : client.World) (key : Str)
      → (client.del w key).1 ≡ ok tt
      → held (client.del w key).0 key ≡ none
  pub get_value :
      (w : client.World) (key raw : Str) → (client.get w key).1 ≡ ok raw → held w key ≡ some raw
  pub get_nothing :
      (w : client.World) (key : Str) → (client.get w key).1 ≡ err no_value → held w key ≡ none

-- An envelope that JSON keeps is read back as it was, up to the end of the text.
abbrev pub Keeps : Json → CursorEnvelope → Type 0
Keeps json e =
    (raw : Str) × (rest : Str) × (json.marshal e ≡ some raw)
    × (json.decode raw ≡ some (e, rest))
    × (json.at_end rest ≡ true)

-- ===== src/Redis.antt =====
-- What the Lua scripts use of the Redis server, as an interface: the commands of a script run one
-- after the other, with nothing between them and with the server's clock standing still.
pub mod Memory
pub mod Facts
use cwm_minio_tierer.Prelude.{ℕ, ◌+◌, ◌^◌, ◌≤◌, ◌<◌, ◌≡◌, ◌≢◌, Option, none, some, arith}
use cwm_minio_tierer.Prelude.Int.{ℤ, pos, max_int64}
use cwm_minio_tierer.Text.{Str}
use cwm_minio_tierer.Decimal.Defs.{zero_text}
use cwm_minio_tierer.Decimal.Value.{value, IsCanonical}

-- The replies of TYPE that the scripts tell apart.
pub data Kind : Type 0 where
  absent string other : Kind

-- What a script's reply can hold, as the Go client returns it.
pub data Value : Type 0 where
  nil : Value
  int64 : ℤ → Value
  text : Str → Value

pub record Redis : Type 1 where
  pub State : Type 0
  -- redis.call("TYPE", key)
  pub type_of : State → Str → Kind
  -- redis.call("GET", key), at a key that holds a string
  pub get : State → Str → Str
  -- redis.call("INCRBY", key, delta) and its reply; `none` is an error, which ends the script
  pub incrby : State → Str → Str → Option (State × ℤ)
  -- redis.call("EXPIREAT", key, seconds)
  pub expireat : State → Str → Str → State
  -- the server's clock, in seconds since the Unix epoch
  pub now : State → ℕ

module _ (redis : Redis) where
  open redis use {State, type_of, get, incrby, expireat, now}

  -- The string under a key, "0" if there is none; no string at all under a key of another type. The
  -- three scripts that read numbers all begin so.
  unfoldable pub stored : State → Str → Option Str
  stored s key = elim (type_of s key) [
    | Kind.absent ↦ some zero_text
    | Kind.string ↦ some (get s key)
    | Kind.other ↦ none
  ]

  -- The key holds the number n, or nothing if n is 0.
  pub record Holds (s : State) (key : Str) (n : ℕ) : Type 0 where
    pub text : Str
    pub is_stored : stored s key ≡ some text
    pub canonical : IsCanonical text
    pub number : value text ≡ n

  -- No key but the one has changed, and the clock stands still.
  pub record OnlyAt (s t : State) (key : Str) : Type 0 where
    pub others : (j : Str) → j ≢ key → stored t j ≡ stored s j
    pub clock : now t ≡ now s

  -- The outcome of an INCRBY that Redis accepts. A Lua number is exact up to 2 ^ 53.
  pub record Incremented (s : State) (key : Str) (n : ℕ) (result : Option (State × ℤ))
      : Type 0 where
    pub after : State
    pub reply : ℤ
    pub done : result ≡ some (after, reply)
    pub holds : Holds after key n
    pub only : OnlyAt s after key
    pub exact : n ≤ 2 ^ 53 → reply ≡ pos n

  -- The documented behaviour of INCRBY on a number that does not overflow, and of EXPIREAT with a
  -- time that has not passed.
  pub record Laws : Type 0 where
    pub incrby_adds :
        (s : State) (key delta : Str) (n : ℕ)
        → Holds s key n
        → IsCanonical delta
        → n + value delta ≤ max_int64
        → Incremented s key (n + value delta) (incrby s key delta)
    pub expireat_keeps :
        (s : State) (key seconds : Str)
        → IsCanonical seconds
        → now s < value seconds
        → ((j : Str) → stored (expireat s key seconds) j ≡ stored s j)
          × (now (expireat s key seconds) ≡ now s)

-- ===== src/Budget/Reservation.antt =====
-- What one run of reserveBudgetScript does.
use cwm_minio_tierer.Prelude.{
  ℕ, ◌+◌, ◌≤◌, ◌<◌, ◌≡◌, ◌≢◌, Bool, ◌&&◌, [], ◌∷◌, ok, arith, leb, if◌then◌else◌,
}
use cwm_minio_tierer.Prelude.Int.{ℤ, pos, max_int64}
use cwm_minio_tierer.Text.{Str}
use cwm_minio_tierer.Decimal.Defs.{add_uint}
use cwm_minio_tierer.Decimal.Value.{value, IsCanonical}
use cwm_minio_tierer.Decimal.Order.{less_or_equal_lem}
use cwm_minio_tierer.Decimal.Add.{add_uint_lem}
use cwm_minio_tierer.Redis.{Redis, Value, int64, text, Laws, Holds, OnlyAt, stored}
use cwm_minio_tierer.Budget.Script.{Outcome, within, add_bytes}

-- The decimals that are passed to the script for a limit, and for the bytes of one object.
pub record IsLimit (limit : Str) (n : ℕ) : Type 0 where
  pub canonical : IsCanonical limit
  pub number : value limit ≡ n
  pub positive : 0 < n
  pub small : n ≤ max_int64

-- The addition and the comparison of the script together compare the sum with the limit.
pub within_lem :
    (used delta limit : Str) (n : ℕ)
    → IsCanonical used
    → IsCanonical delta
    → IsLimit limit n
    → within (add_uint used delta) limit ≡ leb (value used + value delta) n
within_lem used delta limit n u d l =
    let (sum, canonical, number, added) = add_uint_lem used delta u d in
    ground
      (arith, added, number, less_or_equal_lem sum limit canonical l.canonical, l.number, l.small)

module _ (redis : Redis) where
  open redis use {State, incrby, expireat, now}

  -- Both counters of a budget: a attempts and b bytes.
  pub record Used (s : State) (attempts_key bytes_key : Str) (a b : ℕ) : Type 0 where
    pub attempts : Holds redis s attempts_key a
    pub bytes_used : Holds redis s bytes_key b
    pub attempts_small : a ≤ max_int64
    pub bytes_small : b ≤ max_int64

  -- What a run of the script did: `allowed` says whether the attempt was charged.
  pub record Reserved (s : State) (ka kb : Str) (a b d n m : ℕ) (result : Outcome redis)
      : Type 0 where
    pub after : State
    pub attempts_reply : Value
    pub bytes_reply : Value
    pub allowed : Bool
    pub replied :
        result
        ≡ (after, ok (int64 (pos (if allowed then 1 else 0)) ∷ attempts_reply ∷ bytes_reply ∷ []))
    pub decided : allowed ≡ (leb (a + 1) n && leb (b + d) m)
    pub attempts : Holds redis after ka (if allowed then a + 1 else a)
    pub bytes_used : Holds redis after kb (if allowed then b + d else b)
    pub others : (j : Str) → j ≢ ka → j ≢ kb → stored redis after j ≡ stored redis s j
    pub clock : now after ≡ now s

  module _ (kb delta expires : Str) (b : ℕ) where
    -- What the second increment did.
    record BytesAdded (s : State) (r : ℤ) (text_used : Str) : Type 0 where
      after : State
      reply : Value
      done :
          add_bytes redis s kb text_used delta expires r
          ≡ (after, ok (int64 (pos 1) ∷ int64 r ∷ reply ∷ []))
      holds : Holds redis after kb (b + value delta)
      only : OnlyAt redis s after kb

  -- The numbers of one run: a attempts and b bytes so far, the limits n and m, and the arguments for
  -- them. The expiry is to come.
  pub record IsCall (s : State) (ka kb al bl delta expires : Str) (a b n m : ℕ) : Type 0 where
    pub apart : ka ≢ kb
    pub used : Used s ka kb a b
    pub attempts_limit : IsLimit al n
    pub bytes_limit : IsLimit bl m
    pub delta_ok : IsCanonical delta
    pub delta_small : value delta ≤ max_int64
    pub expires_ok : IsCanonical expires
    pub future : now s < value expires

  module _ (laws : Laws redis) (s : State) (ka kb al bl delta expires : Str) (a b n m : ℕ)
      (call : IsCall s ka kb al bl delta expires a b n m) where
    denied : Outcome redis
    denied =
        (s, ok (int64 (pos 0) ∷ text call.used.attempts.text ∷ text call.used.bytes_used.text ∷ []))

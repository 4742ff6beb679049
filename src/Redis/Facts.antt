-- ===== src/Redis/Facts.antt =====
-- Consequences of the interface's laws: INCRBY followed by EXPIREAT, as both scripts write.
use cwm_minio_tierer.Prelude.{ℕ, ◌+◌, ◌^◌, ◌≤◌, ◌<◌, ◌≡◌, ap, ◌∙◌, Option, some, arith}
use cwm_minio_tierer.Prelude.Int.{ℤ, pos, max_int64}
use cwm_minio_tierer.Text.{Str}
use cwm_minio_tierer.Decimal.Value.{value, IsCanonical}
use cwm_minio_tierer.Redis.{Redis, Laws, Holds, OnlyAt, stored}

module _ (redis : Redis) where
  open redis use {State, incrby, expireat, now}

  pub Holds-transport :
      (s t : State) (j : Str) (n : ℕ)
      → stored redis t j ≡ stored redis s j
      → Holds redis s j n
      → Holds redis t j n
  Holds-transport s t j n e h = record {
    text = h.text;
    is_stored = e ∙ h.is_stored;
    canonical = h.canonical;
    number = h.number;
  }

  -- A key holds one number.
  pub Holds-unique : (s : State) (j : Str) (m n : ℕ) → Holds redis s j m → Holds redis s j n → m ≡ n
  Holds-unique s j m n h k = omega (arith, h.number, k.number, ap value same)
    where
      same : h.text ≡ k.text
      same = cc (h.is_stored, k.is_stored)

  -- INCRBY and EXPIREAT on one key, which then holds n.
  pub record Charged (s : State) (key expires : Str) (n : ℕ) (result : Option (State × ℤ))
      : Type 0 where
    pub middle : State
    pub reply : ℤ
    pub done : result ≡ some (middle, reply)
    pub only : OnlyAt redis s (expireat middle key expires) key
    pub holds : Holds redis (expireat middle key expires) key n
    pub exact : n ≤ 2 ^ 53 → reply ≡ pos n

  pub charge_one :
      (laws : Laws redis) (s : State) (key delta expires : Str) (n : ℕ)
      → Holds redis s key n
      → IsCanonical delta
      → n + value delta ≤ max_int64
      → IsCanonical expires
      → now s < value expires
      → Charged s key expires (n + value delta) (incrby s key delta)
  charge_one laws s key delta expires n h d m c f =
      let i = laws.incrby_adds s key delta n h d m in
      let x = laws.expireat_keeps i.after key expires c (rw i.only.clock f) in
      record {
        middle = i.after;
        reply = i.reply;
        done = i.done;
        only = record { others = λ j ne. x.0 j ∙ i.only.others j ne; clock = x.1 ∙ i.only.clock };
        holds = Holds-transport i.after (expireat i.after key expires) key _ (x.0 key) i.holds;
        exact = i.exact;
      }

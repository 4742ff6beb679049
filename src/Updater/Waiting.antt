-- ===== src/Updater/Waiting.antt =====
-- `worstCaseAcknowledgementTime` of internal/updater/config.go and the exact time.
use cwm_minio_tierer.Prelude.{
  ℕ, ◌+◌, ◌-◌, ◌*◌, ◌/◌, ◌≤◌, ◌≡◌, ap, ◌∙◌, false, ok, err, arith, if_err-ok, if◌then◌else◌,
}
use cwm_minio_tierer.Prelude.Int.{
  pos, add_pos, mul_pos, wrap_pos, ◌+ℤ◌, ◌-ℤ◌, ◌*ℤ◌, wrap64, int_laws, max_int64, ltb_ℤ,
}
use native.Mathlib.Nat.{mul-div-le}
use cwm_minio_tierer.Clock.{Duration}
use cwm_minio_tierer.Settings.{ConfigError, backlog_overflow, read_overflow}
use cwm_minio_tierer.Updater.Config.{acknowledgement_time}

-- A sum that does not come out below its first part has not wrapped.
no_wrap :
    (a b : ℕ)
    → a ≤ max_int64
    → b ≤ max_int64
    → ltb_ℤ (wrap64 (pos (a + b))) (pos a) ≡ false
    → a + b ≤ max_int64
unfolding wrap64
no_wrap a b h k l = ground arith

le_of_div : (m k n : ℕ) → n ≤ m / k → k * n ≤ m
le_of_div m k n h = grind (arith, mul-div-le m k)

sub_pos : (c : ℕ) → c ≤ max_int64 → wrap64 (pos max_int64 -ℤ pos c) ≡ pos (max_int64 - c)
sub_pos c h =
    let exact : pos max_int64 -ℤ pos c ≡ pos (max_int64 - c) = omega int_laws in
    ap wrap64 exact ∙ wrap_pos (max_int64 - c) (omega arith)

-- The part after the time of one batch: n batches of the time p, after a time of c.
backlog_lem :
    (p n c : ℕ) (d : Duration) (e e' : ConfigError)
    → c ≤ max_int64
    → (if ltb_ℤ (pos (max_int64 / n)) (pos p)
        then err e
        else if ltb_ℤ (wrap64 (pos max_int64 -ℤ pos c)) (wrap64 (pos n *ℤ pos p))
        then err e'
        else ok (wrap64 (pos c +ℤ wrap64 (pos n *ℤ pos p))))
      ≡ ok d
    → d ≡ pos (c + n * p)
backlog_lem p n c d e e' hc h =
    let (enough, h1) = if_err-ok (ltb_ℤ (pos (max_int64 / n)) (pos p)) _ _ h in
    let (time, h2) =
      if_err-ok (ltb_ℤ (wrap64 (pos max_int64 -ℤ pos c)) (wrap64 (pos n *ℤ pos p))) _ _ h1 in
    let total : n * p ≤ max_int64 = le_of_div max_int64 n p (ground arith) in
    let backlog : wrap64 (pos n *ℤ pos p) ≡ pos (n * p) =
      ap wrap64 (mul_pos n p) ∙ wrap_pos (n * p) total in
    let fits : c + n * p ≤ max_int64 = ground (arith, sub_pos c hc) in
    let sum : wrap64 (pos c +ℤ pos (n * p)) ≡ pos (c + n * p) =
      ap wrap64 (add_pos c (n * p)) ∙ wrap_pos (c + n * p) fits in
    cc

pub acknowledgement_time_lem :
    (a b c q : ℕ) (d : Duration)
    → a ≤ max_int64
    → b ≤ max_int64
    → c ≤ max_int64
    → q ≤ 1000000
    → acknowledgement_time (pos a) (pos b) (pos c) (pos q) ≡ ok d
    → d ≡ pos (c + (q + 1) * (a + b))
unfolding acknowledgement_time
acknowledgement_time_lem a b c q d ha hb hc hq h =
    let (longer, h1) = if_err-ok (ltb_ℤ (wrap64 (pos a +ℤ pos b)) (pos a)) _ _ h in
    let fits = no_wrap a b ha hb (rw (add_pos a b) at longer) in
    let batch : wrap64 (pos a +ℤ pos b) ≡ pos (a + b) =
      ap wrap64 (add_pos a b) ∙ wrap_pos (a + b) fits in
    let count : wrap64 (pos q +ℤ pos 1) ≡ pos (q + 1) =
      ap wrap64 (add_pos q 1) ∙ wrap_pos (q + 1) (omega arith) in
    backlog_lem (a + b) (q + 1) c d backlog_overflow read_overflow hc (rw (batch, count) at h1)

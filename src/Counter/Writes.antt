-- ===== src/Counter/Writes.antt =====
-- The second loop of counterScript of internal/redisstore/store.go.
use cwm_minio_tierer.Prelude.{ℕ, ◌+◌, ◌≤◌, ◌<◌, ◌≡◌, ◌≢◌, refl, sym, ◌∙◌, List, [], ◌∷◌, All, ok}
use cwm_minio_tierer.Prelude.Int.{max_int64}
use cwm_minio_tierer.Text.{Str}
use cwm_minio_tierer.Decimal.Value.{value, IsCanonical}
use cwm_minio_tierer.Redis.{Redis, Laws, Holds, OnlyAt, stored}
use cwm_minio_tierer.Redis.Facts.{Holds-transport, Holds-unique, charge_one}
use cwm_minio_tierer.Counter.Script.{write_all}

-- One key of a batch with its two arguments.
pub record Entry : Type 0 where
  pub key : Str
  pub delta : Str
  pub expiry : Str

abbrev pub keys_of : List Entry → List Str
keys_of [] = []
keys_of (e ∷ es) = e.key ∷ keys_of es

abbrev pub args_of : List Entry → List Str
args_of [] = []
args_of (e ∷ es) = e.delta ∷ e.expiry ∷ args_of es

abbrev pub Avoids : Str → List Entry → Type 0
Avoids j = All (λ e. e.key ≢ j)

-- No key occurs twice.
abbrev pub Distinct : List Entry → Type 0
Distinct [] = Unit
Distinct (e ∷ es) = Avoids e.key es × Distinct es

module _ (redis : Redis) where
  open redis use {State, incrby, expireat, now}

  -- The key holds a number to which the delta can be added, and the expiry has not passed.
  pub record IsReady (s : State) (e : Entry) : Type 0 where
    pub before : ℕ
    pub holds : Holds redis s e.key before
    pub delta_ok : IsCanonical e.delta
    pub fits : before + value e.delta ≤ max_int64
    pub expiry_ok : IsCanonical e.expiry
    pub future : now s < value e.expiry

  -- Each key of the batch grows by its delta.
  abbrev pub Grows : State → State → Entry → Type 0
  Grows s t e = (n : ℕ) → Holds redis s e.key n → Holds redis t e.key (n + value e.delta)

  abbrev pub Untouched : State → State → List Entry → Type 0
  Untouched s t es = (j : Str) → Avoids j es → stored redis t j ≡ stored redis s j

  pub record Written (s : State) (es : List Entry) : Type 0 where
    pub after : State
    pub done : write_all redis s (keys_of es) (args_of es) ≡ (after, ok tt)
    pub grown : All (Grows s after) es
    pub others : Untouched s after es

  module _ (s t : State) (key : Str) (only : OnlyAt redis s t key) where
    IsReady-after : (es : List Entry) → Avoids key es → All (IsReady s) es → All (IsReady t) es
    IsReady-after [] a r = tt
    IsReady-after (e ∷ es) a r = (
      record {
        before = r.0.before;
        holds = Holds-transport redis s t e.key r.0.before (only.others e.key a.0) r.0.holds;
        delta_ok = r.0.delta_ok;
        fits = r.0.fits;
        expiry_ok = r.0.expiry_ok;
        future = rw only.clock r.0.future;
      },
      IsReady-after es a.1 r.1,
    )

    grown_before :
        (u : State) (es : List Entry) → Avoids key es → All (Grows t u) es → All (Grows s u) es
    grown_before u [] a g = tt
    grown_before u (e ∷ es) a g = (
      λ n h. g.0 n (Holds-transport redis s t e.key n (only.others e.key a.0) h),
      grown_before u es a.1 g.1,
    )

  module _ (laws : Laws redis) where
    -- Every write of a ready batch of distinct keys succeeds.
    pub write_all_lem :
        (s : State) (es : List Entry) → Distinct es → All (IsReady s) es → Written s es
    unfolding write_all
    write_all_lem s [] d r = record { after = s; done = refl; grown = tt; others = λ j a. refl }
    write_all_lem s (e ∷ es) d r =
        let q = r.0 in
        let w =
          charge_one redis laws s e.key e.delta e.expiry q.before q.holds q.delta_ok q.fits
            q.expiry_ok q.future in
        let t = expireat w.middle e.key e.expiry in
        let rest = write_all_lem t es d.1 (IsReady-after s t e.key w.only es d.0 r.1) in
        record {
          after = rest.after;
          done = rw w.done rest.done;
          grown = (
            λ n h.
                Holds-transport redis t rest.after e.key _ (rest.others e.key d.0)
                  (rw (Holds-unique redis s e.key n r.0.before h r.0.holds) w.holds),
            grown_before s t e.key w.only rest.after es d.0 rest.grown,
          );
          others = λ j a. rest.others j a.1 ∙ w.only.others j (λ p. a.0 (sym p));
        }

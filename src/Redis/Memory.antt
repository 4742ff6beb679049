-- ===== src/Redis/Memory.antt =====
-- A Redis server with string keys alone, in memory, as an instance of the interface.
use cwm_minio_tierer.Prelude.{
  ℕ, ◌+◌, ◌≤◌, ◌<◌, ◌≡◌, ◌≢◌, refl, sym, subst, ◌∙◌, ap, Option, none, some, List, [], ◌∷◌, arith,
  leb, if◌then◌else◌,
}
use cwm_minio_tierer.Prelude.Int.{ℤ, pos, max_int64}
use cwm_minio_tierer.Text.{Str, str_eq, str_eq_iff, str_eq_refl}
use cwm_minio_tierer.Decimal.Defs.{add_uint, zero_text}
use cwm_minio_tierer.Decimal.Value.{value, IsCanonical}
use cwm_minio_tierer.Decimal.Add.{add_uint_lem}
use cwm_minio_tierer.Redis.{Redis, Laws, Kind, absent, string, stored, Holds, Incremented}

abbrev pub Table : Type 0
Table = List (Str × Str)

unfoldable pub lookup : Str → Table → Option Str
lookup k [] = none
lookup k ((j, v) ∷ m) = if str_eq j k then some v else lookup k m

pub record Store : Type 0 where
  pub table : Table
  pub clock : ℕ

abbrev kind_of : Option Str → Kind
kind_of none = absent
kind_of (some v) = string

abbrev text_of : Option Str → Str
text_of none = zero_text
text_of (some v) = v

abbrev with_sum : Store → Str → Option Str → Option (Store × ℤ)
with_sum s key none = none
with_sum s key (some u) = some (record s { table = (key, u) ∷ s.table }, pos (value u))

unfoldable pub drop_key : Str → Table → Table
drop_key k [] = []
drop_key k ((j, v) ∷ m) = let rest = drop_key k m in if str_eq j k then rest else (j, v) ∷ rest

abbrev pub memory : Redis
memory = record {
  State = Store;
  type_of = λ s key. kind_of (lookup key s.table);
  get = λ s key. text_of (lookup key s.table);
  incrby = λ s key delta. with_sum s key (add_uint (text_of (lookup key s.table)) delta);
  expireat = λ s key seconds.
      if leb (value seconds) s.clock then record s { table = drop_key key s.table } else s;
  now = λ s. s.clock;
}

stored_lem : (s : Store) (key : Str) → stored memory s key ≡ some (text_of (lookup key s.table))
unfolding stored
stored_lem s key = ground arith

pub lookup-head : (k j : Str) (v : Str) (m : Table) → j ≢ k → lookup j ((k, v) ∷ m) ≡ lookup j m
unfolding lookup
lookup-head k j v m h = ground (arith, str_eq_iff k j)

pub lookup-head_self : (k v : Str) (m : Table) → lookup k ((k, v) ∷ m) ≡ some v
unfolding lookup
lookup-head_self k v m = rw (str_eq_refl k)

memory-incrby :
    (s : Store) (key delta : Str) (n : ℕ)
    → Holds memory s key n
    → IsCanonical delta
    → n + value delta ≤ max_int64
    → Incremented memory s key (n + value delta) (memory.incrby s key delta)
memory-incrby s key delta n h d f =
    let c = text_of (lookup key s.table) in
    let same : h.text ≡ c = cc (h.is_stored, stored_lem s key) in
    let canonical : IsCanonical c = subst IsCanonical same h.canonical in
    let (u, hu, vu, sum) = add_uint_lem c delta canonical d in
    let number : value c ≡ n = ap value (sym same) ∙ h.number in
    let t : Store = record s { table = (key, u) ∷ s.table } in
    let small : value c + value delta ≤ max_int64 = omega (arith, number) in
    let summed : add_uint c delta ≡ some u = ground (arith, sum) in
    record {
      after = t;
      reply = pos (value u);
      done = ap (with_sum s key) summed;
      holds = record {
        text = u;
        is_stored = stored_lem t key ∙ ap (λ o. some (text_of o)) (lookup-head_self key u s.table);
        canonical = hu;
        number = omega (arith, vu, number);
      };
      only = record {
        others = λ j ne.
            stored_lem t j
            ∙ ap (λ o. some (text_of o)) (lookup-head key j u s.table ne)
            ∙ sym (stored_lem s j);
        clock = refl;
      };
      exact = λ _. ap pos (omega (arith, vu, number));
    }

memory-expireat :
    (s : Store) (key seconds : Str)
    → s.clock < value seconds
    → ((j : Str) → stored memory (memory.expireat s key seconds) j ≡ stored memory s j)
      × ((memory.expireat s key seconds).clock ≡ s.clock)
memory-expireat s key seconds f =
    let kept : memory.expireat s key seconds ≡ s = ground arith in
    (λ j. ap (λ (u : Store). stored memory u j) kept, ap (λ (u : Store). u.clock) kept)

pub memory-Laws : Laws memory
memory-Laws = record {
  incrby_adds = memory-incrby;
  expireat_keeps = λ s key seconds c f. memory-expireat s key seconds f;
}

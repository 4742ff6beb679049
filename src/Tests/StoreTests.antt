-- ===== src/Tests/StoreTests.antt =====
-- internal/redisstore/store.go with a client that has lost its script.
use cwm_minio_tierer.Prelude.{
  ℕ, suc, ◌*◌, ◌≡◌, ◌⊎◌, inl, inr, refl, Bool, true, false, Option, none, some, List, [], ◌∷◌, ok,
}
use cwm_minio_tierer.Prelude.Int.{pos}
use cwm_minio_tierer.Text.{Str, bytes}
use cwm_minio_tierer.Clock.{second}
use cwm_minio_tierer.Batcher.Pending.{Increment}
use cwm_minio_tierer.Counter.Store.{ScriptClient, Store, apply, command_arguments, is_no_script}
use cwm_minio_tierer.Counter.Apply.{ClientLaws, Applies, apply_lem}
use cwm_minio_tierer.Counter.Arguments.{
  keys_in, arguments_in, IsApplicable, AreDistinct, command_arguments_lem,
}
use cwm_minio_tierer.Counter.Store.{check_commands, is_seen}
use cwm_minio_tierer.Text.{str_eq}
use cwm_minio_tierer.Prelude.{All}
use cwm_minio_tierer.Prelude.Int.{◌-ℤ◌}

abbrev lost : Str
lost = bytes "NOSCRIPT No matching script"

abbrev evaluated : ℕ × Bool → (ℕ × Bool) × Option Str
evaluated (n, true) = ((suc n, true), none)
evaluated (n, false) = ((n, false), some lost)

-- A server that counts the executions, and knows the script or not.
abbrev client : ScriptClient
client = record {
  World = ℕ × Bool;
  script_load = λ w. ((w.0, true), ok (bytes "sha"));
  eval_sha = λ w sha keys args. evaluated w;
}

no_script_keeps : (w : ℕ × Bool) → is_no_script (evaluated w).1 ≡ true → (evaluated w).0.0 ≡ w.0
unfolding is_no_script
no_script_keeps (n, true) h = cc
no_script_keeps (n, false) h = refl

rejection_keeps : (w : ℕ × Bool) (e : Str) → (evaluated w).1 ≡ some e → (evaluated w).0.0 ≡ w.0
rejection_keeps (n, true) e h = cc
rejection_keeps (n, false) e h = refl

success_executes : (w : ℕ × Bool) → (evaluated w).1 ≡ none → (evaluated w).0.0 ≡ suc w.0
success_executes (n, true) h = refl
success_executes (n, false) h = cc

executes_once : (w : ℕ × Bool) → ((evaluated w).0.0 ≡ w.0) ⊎ ((evaluated w).0.0 ≡ suc w.0)
executes_once (n, true) = inr refl
executes_once (n, false) = inl refl

abbrev laws : ClientLaws client
laws = record {
  Data = ℕ;
  data_of = λ w. w.0;
  execute = λ n keys args. suc n;
  load_keeps = λ w. refl;
  no_script_keeps = λ w sha keys args h. no_script_keeps w h;
  rejection_keeps = λ w sha keys args e h r. rejection_keeps w e h;
  success_executes = λ w sha keys args h. success_executes w h;
  error_executes_once = λ w sha keys args. executes_once w;
}

abbrev store : Store client
store = record { world = (4, false); sha = bytes "old" }

abbrev hits : List Increment
hits = record { key = bytes "a"; delta = pos 2; expire_at = pos (70000000000 * second) } ∷ []

apply_lem_example : Applies client laws store (command_arguments hits) (apply client store hits)
apply_lem_example = apply_lem client laws store hits

accepted : command_arguments hits ≡ ok (bytes "a" ∷ [], pos 2 ∷ pos 7864403200 ∷ [])
unfolding command_arguments check_commands is_seen str_eq ◌-ℤ◌
accepted = refl

command_arguments_lem_example :
    (bytes "a" ∷ [] ≡ keys_in hits)
    × (pos 2 ∷ pos 7864403200 ∷ [] ≡ arguments_in hits)
    × All IsApplicable hits
    × AreDistinct (keys_in hits)
command_arguments_lem_example =
    command_arguments_lem hits (bytes "a" ∷ []) (pos 2 ∷ pos 7864403200 ∷ []) accepted

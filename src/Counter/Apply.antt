-- ===== src/Counter/Apply.antt =====
-- `Apply` of internal/redisstore/store.go: how often a batch is executed, by its result.
use cwm_minio_tierer.Prelude.{
  ◌≡◌, ◌⊎◌, refl, ◌∙◌, ap, subst, Bool, true, false, Option, none, some, List, [], Result, ok, err,
  if◌then◌else◌,
}
use cwm_minio_tierer.Prelude.Int.{ℤ}
use cwm_minio_tierer.Text.{Str, str_eq}
use cwm_minio_tierer.Batcher.Pending.{Increment}
use cwm_minio_tierer.Counter.Store.{
  ApplyError, empty_batch, empty_key, duplicate_key, bad_delta, bad_expiry, load_failed,
  unavailable, rejected, ambiguous, Command, command_arguments, is_no_script, is_rejection,
  ScriptClient, Store, Outcome, after_load, load, eval, finish, eval_again, after_eval, eval_loaded,
  apply_command, apply,
}

-- How the calls of the client change what Redis stores: loading a script changes nothing; neither does
-- an EVALSHA that is answered NOSCRIPT or by an error of the script's validation; one that is answered
-- without an error has executed the script; any other may have.
pub record ClientLaws (client : ScriptClient) : Type 1 where
  pub Data : Type 0
  pub data_of : client.World → Data
  pub execute : Data → List Str → List ℤ → Data
  pub load_keeps : (w : client.World) → data_of (client.script_load w).0 ≡ data_of w
  pub no_script_keeps :
      (w : client.World) (sha : Str) (keys : List Str) (args : List ℤ)
      → is_no_script (client.eval_sha w sha keys args).1 ≡ true
      → data_of (client.eval_sha w sha keys args).0 ≡ data_of w
  pub rejection_keeps :
      (w : client.World) (sha : Str) (keys : List Str) (args : List ℤ) (e : Str)
      → (client.eval_sha w sha keys args).1 ≡ some e
      → is_rejection e ≡ true
      → data_of (client.eval_sha w sha keys args).0 ≡ data_of w
  pub success_executes :
      (w : client.World) (sha : Str) (keys : List Str) (args : List ℤ)
      → (client.eval_sha w sha keys args).1 ≡ none
      → data_of (client.eval_sha w sha keys args).0 ≡ execute (data_of w) keys args
  pub error_executes_once :
      (w : client.World) (sha : Str) (keys : List Str) (args : List ℤ)
      → (data_of (client.eval_sha w sha keys args).0 ≡ data_of w)
        ⊎ (data_of (client.eval_sha w sha keys args).0 ≡ execute (data_of w) keys args)

module _ (client : ScriptClient) (laws : ClientLaws client) where
  open laws use {Data, data_of, execute}

  -- What each outcome says of the data `d` before it.
  abbrev pub Tells : Data → Command → Outcome client → Type 0
  Tells d (keys, args) (s, ok _) = data_of s.world ≡ execute d keys args
  Tells d (keys, args) (s, err (ambiguous e)) =
      (data_of s.world ≡ d) ⊎ (data_of s.world ≡ execute d keys args)
  Tells d command (s, err empty_batch) = data_of s.world ≡ d
  Tells d command (s, err empty_key) = data_of s.world ≡ d
  Tells d command (s, err (duplicate_key key)) = data_of s.world ≡ d
  Tells d command (s, err (bad_delta key)) = data_of s.world ≡ d
  Tells d command (s, err (bad_expiry key)) = data_of s.world ≡ d
  Tells d command (s, err (load_failed e)) = data_of s.world ≡ d
  Tells d command (s, err (unavailable e)) = data_of s.world ≡ d
  Tells d command (s, err (rejected e)) = data_of s.world ≡ d

  if_Tells :
      (d : Data) (command : Command) (b : Bool) (x y : Outcome client)
      → (b ≡ true → Tells d command x)
      → (b ≡ false → Tells d command y)
      → Tells d command (if b then x else y)
  if_Tells d command true x y h k = h refl
  if_Tells d command false x y h k = k refl

  finish_lem :
      (s : Store client) (command : Command) (answer : Option Str)
      → (eval client s command).1 ≡ answer
      → Tells (data_of s.world) command (finish client ((eval client s command).0, answer))
  unfolding finish eval
  finish_lem s (keys, args) none h = laws.success_executes s.world s.sha keys args h
  finish_lem s (keys, args) (some e) h =
      if_Tells _ (keys, args) (is_no_script (some e)) _ _
        (λ b. laws.no_script_keeps s.world s.sha keys args (ap is_no_script h ∙ b))
        (λ b.
          if_Tells _ (keys, args) (is_rejection e) _ _
            (λ c. laws.rejection_keeps s.world s.sha keys args e h c)
            (λ c. laws.error_executes_once s.world s.sha keys args))

  -- A reload, and what follows it.
  abbrev Reloads : Data → Outcome client → Type 0
  Reloads d (s, err e) = (command : Command) → Tells d command (s, err e)
  Reloads d (s, ok _) = data_of s.world ≡ d

  load_lem : (s : Store client) → Reloads (data_of s.world) (load client s)
  unfolding load
  load_lem s =
      after_load_lem (client.script_load s.world).0 (client.script_load s.world).1
        (laws.load_keeps s.world)
    where
      after_load_lem :
          (w : client.World) (r : Result Str Str)
          → data_of w ≡ data_of s.world
          → Reloads (data_of s.world) (after_load client (record s { world = w }) r)
      after_load_lem w (err e) h = λ command. h
      after_load_lem w (ok sha) h = h

  eval_again_lem :
      (d : Data) (o : Outcome client) (command : Command)
      → Reloads d o
      → Tells d command (eval_again client o command)
  unfolding eval_again
  eval_again_lem d (s, err e) command h = h command
  eval_again_lem d (s, ok _) command h =
      subst (λ (x : Data). Tells x command (finish client (eval client s command))) h
        (finish_lem s command _ refl)

  after_eval_lem :
      (s : Store client) (command : Command)
      → Tells (data_of s.world) command (after_eval client (eval client s command) command)
  unfolding after_eval eval
  after_eval_lem s (keys, args) =
      let answered = eval client s (keys, args) in
      if_Tells _ (keys, args) (is_no_script answered.1) _ _
        (λ b.
          subst
            (λ (x : Data).
              Tells x (keys, args) (eval_again client (load client answered.0) (keys, args)))
            (laws.no_script_keeps s.world s.sha keys args b)
            (eval_again_lem (data_of answered.0.world) _ (keys, args) (load_lem answered.0)))
        (λ b. finish_lem s (keys, args) _ refl)

  eval_loaded_lem :
      (d : Data) (o : Outcome client) (command : Command)
      → Reloads d o
      → Tells d command (eval_loaded client o command)
  unfolding eval_loaded
  eval_loaded_lem d (s, err e) command h = h command
  eval_loaded_lem d (s, ok _) command h =
      subst (λ (x : Data). Tells x command (eval_loaded client (s, ok tt) command)) h
        (after_eval_lem s command)

  abbrev pub Applies : Store client → Result ApplyError Command → Outcome client → Type 0
  Applies s (err e) o = o ≡ (s, err e)
  Applies s (ok command) o = Tells (data_of s.world) command o

  apply_command_lem :
      (s : Store client) (r : Result ApplyError Command) → Applies s r (apply_command client s r)
  apply_command_lem s (err e) = refl
  apply_command_lem s (ok command) =
      eval_loaded_lem (data_of s.world) _ command (if_Reloads (str_eq s.sha []))
    where
      if_Reloads : (b : Bool) → Reloads (data_of s.world) (if b then load client s else (s, ok tt))
      if_Reloads true = load_lem s
      if_Reloads false = refl

  -- With a client that meets `ClientLaws`: on increments that `commandArguments` refuses, `Apply`
  -- changes nothing. Otherwise, whatever script the server has lost or kept: without an error the
  -- batch was executed once; with an `AmbiguousError` it was executed once or not at all; with any
  -- other error it was not executed.
  pub apply_lem :
      (s : Store client) (increments : List Increment)
      → Applies s (command_arguments increments) (apply client s increments)
  unfolding apply
  apply_lem s increments = apply_command_lem s (command_arguments increments)

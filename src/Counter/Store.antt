-- ===== src/Counter/Store.antt =====
-- `commandArguments`, `Load` and `Apply` of internal/redisstore/store.go. The client is a parameter; of
-- its errors only the text is read.
use cwm_minio_tierer.Prelude.{
  Bool, true, false, ◌||◌, Option, none, some, List, [], ◌∷◌, Result, ok, err, ◌>>=◌, if◌then◌else◌,
}
use cwm_minio_tierer.Prelude.Int.{ℤ, pos, leb_ℤ}
use cwm_minio_tierer.Text.{Str, bytes, str_eq, has_prefix}
use cwm_minio_tierer.Clock.{unix_seconds}
use cwm_minio_tierer.Batcher.Pending.{Increment}

pub data ApplyError : Type 0 where
  empty_batch empty_key : ApplyError
  duplicate_key bad_delta bad_expiry : Str → ApplyError
  load_failed unavailable rejected : Str → ApplyError
  -- AmbiguousError
  ambiguous : Str → ApplyError

-- The keys, and the arguments that follow them.
abbrev pub Command : Type 0
Command = List Str × List ℤ

unfoldable pub is_seen : Str → List Str → Bool
is_seen key [] = false
is_seen key (j ∷ seen) = if str_eq j key then true else is_seen key seen

abbrev pub add_command : Increment → Command → Result ApplyError Command
add_command i (keys, args) = ok (i.key ∷ keys, i.delta ∷ unix_seconds i.expire_at ∷ args)

unfoldable pub check_commands : List Str → List Increment → Result ApplyError Command
check_commands seen [] = ok ([], [])
check_commands seen (i ∷ rest) =
    let later = check_commands (i.key ∷ seen) rest in
    if str_eq i.key []
    then err empty_key
    else if is_seen i.key seen
    then err (duplicate_key i.key)
    else if leb_ℤ i.delta (pos 0)
    then err (bad_delta i.key)
    else if leb_ℤ (unix_seconds i.expire_at) (pos 0)
    then err (bad_expiry i.key)
    else later >>= add_command i

unfoldable pub command_arguments : List Increment → Result ApplyError Command
command_arguments [] = err empty_batch
command_arguments (i ∷ rest) = check_commands [] (i ∷ rest)

-- strings.Contains
unfoldable pub contains : Str → Str → Bool
contains [] p = has_prefix [] p
contains (c ∷ s) p = has_prefix (c ∷ s) p || contains s p

unfoldable pub is_no_script : Option Str → Bool
is_no_script none = false
is_no_script (some e) = has_prefix e (bytes "NOSCRIPT ")

unfoldable pub is_rejection : Str → Bool
is_rejection e = contains e (bytes "CWM_VALIDATION")

-- `scriptClient`, with a world that each call may change.
pub record ScriptClient : Type 1 where
  pub World : Type 0
  pub script_load : World → World × Result Str Str
  -- the error, if there is one; the reply is not used
  pub eval_sha : World → Str → List Str → List ℤ → World × Option Str

module _ (client : ScriptClient) where
  open client use {World, script_load, eval_sha}

  pub record Store : Type 0 where
    pub world : World
    pub sha : Str

  abbrev pub Outcome : Type 0
  Outcome = Store × Result ApplyError (Unit {0})

  abbrev pub after_load : Store → Result Str Str → Outcome
  after_load s (err e) = (s, err (load_failed e))
  after_load s (ok sha) = (record s { sha = sha }, ok tt)

  unfoldable pub load : Store → Outcome
  load s = let (w, answer) = script_load s.world in after_load (record s { world = w }) answer

  unfoldable pub eval : Store → Command → Store × Option Str
  eval s (keys, args) =
      let (w, answer) = eval_sha s.world s.sha keys args in (record s { world = w }, answer)

  -- The end of `Apply`, on the error of the last EvalSHA.
  unfoldable pub finish : Store × Option Str → Outcome
  finish (s, none) = (s, ok tt)
  finish (s, some e) =
      if is_no_script (some e)
      then (s, err (unavailable e))
      else if is_rejection e
      then (s, err (rejected e))
      else (s, err (ambiguous e))

  -- The EvalSHA after a reload.
  unfoldable pub eval_again : Outcome → Command → Outcome
  eval_again (s, err e) command = (s, err e)
  eval_again (s, ok _) command = finish (eval s command)

  unfoldable pub after_eval : Store × Option Str → Command → Outcome
  after_eval (s, answer) command =
      if is_no_script answer then eval_again (load s) command else finish (s, answer)

  unfoldable pub eval_loaded : Outcome → Command → Outcome
  eval_loaded (s, err e) command = (s, err e)
  eval_loaded (s, ok _) command = after_eval (eval s command) command

  abbrev pub apply_command : Store → Result ApplyError Command → Outcome
  apply_command s (err e) = (s, err e)
  apply_command s (ok command) =
      eval_loaded (if str_eq s.sha [] then load s else (s, ok tt)) command

  unfoldable pub apply : Store → List Increment → Outcome
  apply s increments = apply_command s (command_arguments increments)

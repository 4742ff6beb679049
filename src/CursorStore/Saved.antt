-- ===== src/CursorStore/Saved.antt =====
-- What a loaded cursor is, of what was saved.
use cwm_minio_tierer.Prelude.{
  ◌≡◌, ◌≢◌, ◌⊎◌, inl, inr, refl, sym, ap, if◌then◌else◌, ◌∙◌, Bool, true, false, not, Option, none,
  some, [], ◌∷◌, ◌++◌, length, all, ◌==◌, Result, ok, err, Result-cases, >>-ok, reject_if,
  ok-injective,
}
use cwm_minio_tierer.Prelude.Int.{pos}
use cwm_minio_tierer.Text.{Str, bytes}
use cwm_minio_tierer.Contracts.Keys.{namespace, past_prefix}
use cwm_minio_tierer.Scanner.Effects.{Cursor}
use cwm_minio_tierer.CursorStore.Defs.{
  CursorEnvelope, Json, GetError, no_value, get_failed, Client, CursorError, client_error,
  incomplete, short_scope, no_hex, is_hex, is_incomplete, key_of, cursor_key, save_at, save_cursor,
  accept, received, load_cursor, reset_at, reset_cursor, write, reported,
}
use cwm_minio_tierer.CursorStore.Client.{ClientLaws, Keeps}

module _ (json : Json) (client : Client) (instance_id : Str) (laws : ClientLaws client) where
  open laws use {held}

  -- What a key reads as, by what it holds.
  abbrev seen : Option Str → Result CursorError (Option Cursor)
  seen none = ok none
  seen (some raw) = accept json client instance_id (json.decode raw)

  -- Another error of the client, which says nothing of the cursor.
  abbrev pub IsClientError : {A : Type 0} → Result CursorError A → Type 0
  IsClientError {A} r = (why : Str) × (r ≡ err (client_error why))

  received-seen :
      (w v : client.World) (key : Str) (answer : Result GetError Str)
      → client.get w key ≡ (v, answer)
      → ((received json client instance_id (v, answer)).1 ≡ seen (held w key))
        ⊎ IsClientError (received json client instance_id (v, answer)).1
  received-seen w v key (ok raw) e =
      inl (ap seen (sym (laws.get_value w key raw (ap (λ p. p.1) e))))
  received-seen w v key (err no_value) e =
      inl (ap seen (sym (laws.get_nothing w key (ap (λ p. p.1) e))))
  received-seen w v key (err (get_failed why)) e = inr (why, refl)

  load_cursor-seen :
      (w : client.World) (scope key : Str)
      → cursor_key json client instance_id scope ≡ ok key
      → ((load_cursor json client instance_id w scope).1 ≡ seen (held w key))
        ⊎ IsClientError (load_cursor json client instance_id w scope).1
  unfolding load_cursor
  load_cursor-seen w scope key h =
      rw h (received-seen w (client.get w key).0 key (client.get w key).1 refl)

  abbrev enveloped : Cursor → CursorEnvelope
  enveloped cursor = record { version = pos 1; cursor = cursor }

  reported-ok :
      {A : Type 0} (p : client.World × Result Str A) (a : A)
      → (reported json client instance_id p).1 ≡ ok a
      → p.1 ≡ ok a
  reported-ok (w, ok b) a h = ap ok (ok-injective h)
  reported-ok (w, err why) a h = cc

  reported-world :
      {A : Type 0} (p : client.World × Result Str A) → (reported json client instance_id p).0 ≡ p.0
  reported-world (w, ok b) = refl
  reported-world (w, err why) = refl

  -- A cursor that was saved is complete, and its envelope stands under its key.
  record WasSet (w v : client.World) (scope : Str) (cursor : Cursor) (raw : Str) : Type 0 where
    key : Str
    is_key : cursor_key json client instance_id scope ≡ ok key
    complete : is_incomplete cursor ≡ false
    stands : held v key ≡ some raw

  module _ (w : client.World) (scope : Str) (cursor : Cursor) (raw : Str)
      (m : json.marshal (enveloped cursor) ≡ some raw) where
    set_if_complete :
        (key : Str) (b : Bool)
        → cursor_key json client instance_id scope ≡ ok key
        → is_incomplete cursor ≡ b
        → (if b
            then (w, err incomplete)
            else write json client instance_id w key (json.marshal (enveloped cursor))).1
          ≡ ok tt
        → WasSet w
            (if b
              then (w, err incomplete)
              else write json client instance_id w key (json.marshal (enveloped cursor))).0
            scope
            cursor
            raw
    set_if_complete key true k c h = cc
    set_if_complete key false k c h =
        let written : (reported json client instance_id (client.set w key raw)).1 ≡ ok tt =
          rw m at h in
        let stands = laws.set_done w key raw (reported-ok (client.set w key raw) tt written) in
        record {
          key = key;
          is_key = k;
          complete = c;
          stands = rw m (rw (reported-world (client.set w key raw)) stands);
        }

    set_under :
        (k : Result CursorError Str)
        → cursor_key json client instance_id scope ≡ k
        → (save_at json client instance_id w cursor k).1 ≡ ok tt
        → WasSet w (save_at json client instance_id w cursor k).0 scope cursor raw
    set_under (err e) k h = cc
    set_under (ok key) k h = set_if_complete key (is_incomplete cursor) k refl h

    save_cursor-WasSet :
        (save_cursor json client instance_id w scope cursor).1 ≡ ok tt
        → WasSet w (save_cursor json client instance_id w scope cursor).0 scope cursor raw
    unfolding save_cursor
    save_cursor-WasSet h = set_under (cursor_key json client instance_id scope) refl h

  seen-saved :
      (cursor : Cursor) (raw rest : Str)
      → is_incomplete cursor ≡ false
      → json.decode raw ≡ some (enveloped cursor, rest)
      → json.at_end rest ≡ true
      → seen (some raw) ≡ ok (some cursor)
  seen-saved cursor raw rest c d e = rw (d, e, c) refl

  -- If a cursor is saved without an error and JSON keeps its envelope, it is what the same scope loads
  -- next, unless the client fails.
  pub load_cursor-save_cursor :
      (w : client.World) (scope : Str) (cursor : Cursor)
      → Keeps json (record { version = pos 1; cursor = cursor })
      → (save_cursor json client instance_id w scope cursor).1 ≡ ok tt
      → ((load_cursor json client instance_id
            (save_cursor json client instance_id w scope cursor).0
            scope).1
          ≡ ok (some cursor))
        ⊎ IsClientError
            (load_cursor json client instance_id
              (save_cursor json client instance_id w scope cursor).0
              scope).1
  load_cursor-save_cursor w scope cursor (raw, rest, m, d, e) h =
      let s = save_cursor-WasSet w scope cursor raw m h in
      elim (load_cursor-seen (save_cursor json client instance_id w scope cursor).0 scope s.key
        s.is_key) [
          | inl same ↦ inl (same ∙ ap seen s.stands ∙ seen-saved cursor raw rest s.complete d e)
          | inr failed ↦ inr failed
        ]

  deleted :
      (w : client.World) (k : Result CursorError Str) (key : Str)
      → k ≡ ok key
      → (reset_at json client instance_id w k).1 ≡ ok tt
      → held (reset_at json client instance_id w k).0 key ≡ none
  deleted w (err e) key k h = cc
  deleted w (ok key') key k h =
      let done = laws.del_done w key' (reported-ok (client.del w key') tt h) in
      ap (held _) (ok-injective (sym k)) ∙ rw (reported-world (client.del w key')) done

  -- After a reset without an error, the scope loads no cursor, unless the client fails.
  pub load_cursor-reset_cursor :
      (w : client.World) (scope : Str)
      → (reset_cursor json client instance_id w scope).1 ≡ ok tt
      → ((load_cursor json client instance_id
            (reset_cursor json client instance_id w scope).0
            scope).1
          ≡ ok none)
        ⊎ IsClientError
            (load_cursor json client instance_id
              (reset_cursor json client instance_id w scope).0
              scope).1
  unfolding reset_cursor
  load_cursor-reset_cursor w scope h =
      elim (Result-cases (cursor_key json client instance_id scope)) [
        | inr (e, bad) ↦ cc
        | inl (key, is_key) ↦
            elim (load_cursor-seen (reset_cursor json client instance_id w scope).0 scope key
              is_key) [
                | inl same ↦ inl (same ∙ ap seen (deleted w _ key is_key h))
                | inr failed ↦ inr failed
              ]
      ]

  untouched :
      (w : client.World) (k : Result CursorError Str) (cursor : Cursor) (j : Str)
      → ((key : Str) → k ≡ ok key → j ≢ key)
      → held (save_at json client instance_id w cursor k).0 j ≡ held w j
  untouched w (err e) cursor j n = refl
  untouched w (ok key) cursor j n =
      at_most_set (is_incomplete cursor) (json.marshal (enveloped cursor))
    where
      at_most_set :
          (b : Bool) (payload : Option Str)
          → held
              (if b then (w, err incomplete) else write json client instance_id w key payload).0
              j
            ≡ held w j
      at_most_set true payload = refl
      at_most_set false none = refl
      at_most_set false (some raw) =
          rw (reported-world (client.set w key raw)) (laws.set_elsewhere w key raw j (n key refl))

  cursor_key-key_of :
      (scope key : Str)
      → cursor_key json client instance_id scope ≡ ok key
      → key_of json client instance_id scope ≡ key
  unfolding cursor_key
  cursor_key-key_of scope key h =
      let (_, h1) = >>-ok (reject_if (not (length scope == 64)) short_scope) _ h in
      let (_, h2) = >>-ok (reject_if (not (all is_hex scope)) no_hex) _ h1 in ok-injective h2

  same_scope :
      (scope scope' key : Str)
      → cursor_key json client instance_id scope ≡ ok key
      → cursor_key json client instance_id scope' ≡ ok key
      → scope' ≡ scope
  same_scope scope scope' key h h' =
      let same = cursor_key-key_of scope' key h' ∙ sym (cursor_key-key_of scope key h) in
      let tails = past_prefix (namespace ++ (b':' ∷ [])) _ _ same in
      past_prefix (bytes ":cursor:") scope' scope (past_prefix instance_id _ _ tails)

  refused_anywhere :
      (v w : client.World) (scope : Str) (e : CursorError)
      → cursor_key json client instance_id scope ≡ err e
      → (load_cursor json client instance_id v scope).1
        ≡ (load_cursor json client instance_id w scope).1
  unfolding load_cursor
  refused_anywhere v w scope e bad = rw bad refl

  load_from_same :
      (v w : client.World) (scope key : Str)
      → cursor_key json client instance_id scope ≡ ok key
      → held v key ≡ held w key
      → ((load_cursor json client instance_id v scope).1
          ≡ (load_cursor json client instance_id w scope).1)
        ⊎ (IsClientError (load_cursor json client instance_id w scope).1
            ⊎ IsClientError (load_cursor json client instance_id v scope).1)
  load_from_same v w scope key is_key kept = elim (load_cursor-seen v scope key is_key) [
    | inr failed ↦ inr (inr failed)
    | inl first ↦ elim (load_cursor-seen w scope key is_key) [
      | inr failed ↦ inr (inl failed)
      | inl second ↦ inl (first ∙ ap seen kept ∙ sym second)
    ]
  ]

  -- Saving under one scope, whether it succeeds or not, leaves what any other scope loads, unless the
  -- client fails to load it.
  pub load_cursor-elsewhere :
      (w : client.World) (scope scope' : Str) (cursor : Cursor)
      → scope' ≢ scope
      → ((load_cursor json client instance_id
            (save_cursor json client instance_id w scope cursor).0
            scope').1
          ≡ (load_cursor json client instance_id w scope').1)
        ⊎ (IsClientError (load_cursor json client instance_id w scope').1
            ⊎ IsClientError
                (load_cursor json client instance_id
                  (save_cursor json client instance_id w scope cursor).0
                  scope').1)
  unfolding save_cursor
  load_cursor-elsewhere w scope scope' cursor n =
      elim (Result-cases (cursor_key json client instance_id scope')) [
        | inr (e, bad) ↦ inl (refused_anywhere _ w scope' e bad)
        | inl (key, is_key) ↦
            let kept =
              untouched w (cursor_key json client instance_id scope) cursor key
                (λ j h same. n (same_scope scope scope' key (h ∙ ap ok (sym same)) is_key)) in
            load_from_same _ w scope' key is_key kept
      ]

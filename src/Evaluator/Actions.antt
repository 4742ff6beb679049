-- ===== src/Evaluator/Actions.antt =====
-- `DecideAction`: which action each state of an object asks for.
use cwm_minio_tierer.Prelude.{
  ◌≡◌, ◌↔◌, ◌⊎◌, refl, inr, Bool, true, false, Option, none, some, arith,
}
use cwm_minio_tierer.Prelude.Int.{◌≤ℤ◌, ◌<ℤ◌}
use cwm_minio_tierer.Clock.{Time}
use cwm_minio_tierer.Evaluator.Defs.{ObjectState, RestoreState, mark, restore, renew, decide_action}

-- No restored copy that is being made or that is still kept at `now`.
abbrev pub NeedsRestore : ObjectState → Time → Type 0
NeedsRestore state now =
    (state.restore ≡ none)
    ⊎ ((r : RestoreState) × (state.restore ≡ some r) × (r.ongoing ≡ false) × (r.expires ≤ℤ now))

-- A finished restored copy that is still kept after `now`.
abbrev pub HasCopy : ObjectState → Time → Type 0
HasCopy state now =
    (r : RestoreState) × (state.restore ≡ some r) × (r.ongoing ≡ false) × (now <ℤ r.expires)

-- The three equivalences that `decide_action_lem` states.
abbrev Decides : ObjectState → Bool → Bool → Time → Type 0
Decides state low high now =
    ((decide_action state low high now ≡ mark) ↔ ((state.transitioned ≡ false) × (low ≡ true)))
    × ((decide_action state low high now ≡ restore)
        ↔ ((state.transitioned ≡ true) × (high ≡ true) × NeedsRestore state now))
    × ((decide_action state low high now ≡ renew)
        ↔ ((state.transitioned ≡ true) × (high ≡ true) × HasCopy state now))

Decides-local :
    (o : Option RestoreState) (low high : Bool) (now : Time)
    → Decides (record { transitioned = false; restore = o }) low high now
unfolding decide_action
Decides-local o low high now = ground arith

Decides-remote :
    (o : Option RestoreState) (low high : Bool) (now : Time)
    → Decides (record { transitioned = true; restore = o }) low high now
unfolding decide_action
Decides-remote none low high now = ground arith
Decides-remote (some r) low high now = (
  ground arith,
  (λ e. (refl, ground arith, inr (r, refl, ground arith, ground arith)), λ p. ground arith),
  (λ e. (refl, ground arith, (r, refl, ground arith, ground arith)), λ p. ground arith),
)

decides :
    (t : Bool) (o : Option RestoreState) (low high : Bool) (now : Time)
    → Decides (record { transitioned = t; restore = o }) low high now
decides false = Decides-local
decides true = Decides-remote

-- The action is mark exactly for a low object that is not transitioned, restore exactly for a high
-- transitioned object with no copy, and renew exactly for a high transitioned object with a finished
-- copy that has not expired.
pub decide_action_lem :
    (state : ObjectState) (low high : Bool) (now : Time)
    → ((decide_action state low high now ≡ mark) ↔ ((state.transitioned ≡ false) × (low ≡ true)))
      × ((decide_action state low high now ≡ restore)
          ↔ ((state.transitioned ≡ true) × (high ≡ true) × NeedsRestore state now))
      × ((decide_action state low high now ≡ renew)
          ↔ ((state.transitioned ≡ true) × (high ≡ true) × HasCopy state now))
decide_action_lem state low high now = decides state.transitioned state.restore low high now

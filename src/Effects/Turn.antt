-- ===== src/Effects/Turn.antt =====
-- src/BuildEffectRuntime.cpp: one turn of the sync: the recorded total and the calls.
use codex_of_power_ng.Base.{
  ℕ, true, false, ◌≡◌, Option, none, some, List, [], ◌∷◌, ◌==◌, if◌then◌else◌, refl, arith, ◌∙◌,
  ◌⊎◌, inl, inr, Bool-cases,
}
use codex_of_power_ng.Base.Keyed.{
  lookup, Distinct, lookup-assign_ne, lookup-assign_self, assign-Distinct, lookup-erase_ne,
  lookup-erase_self, erase-Distinct,
}
use codex_of_power_ng.Effects.Totals.{total_of}
use codex_of_power_ng.Effects.Sync.{
  PlayerValues, SyncState, is_small, keep_total, clamp_build_sync_delta, sync_value,
}
use codex_of_power_ng.Game.{
  FloatOps, ActorValues, GameCall, restore_actor_value, update_weapon_abilities, remove_item,
  add_object, schedule_carry_weight_resync,
}
use codex_of_power_ng.State.{ActorValue, Float32}

-- The amounts that the calls add to an actor value, the newest one first.
abbrev pub amounts : ActorValue → List GameCall → List Float32
amounts k [] = []
amounts k (restore_actor_value av delta ∷ calls) =
    let rest = amounts k calls in if av == k then delta ∷ rest else rest
amounts k (update_weapon_abilities ∷ calls) = amounts k calls
amounts k (remove_item id extra ∷ calls) = amounts k calls
amounts k (add_object id ∷ calls) = amounts k calls
amounts k (schedule_carry_weight_resync ∷ calls) = amounts k calls

module _ (fl : FloatOps) where
  -- A total as the map has it.
  abbrev pub settled : Float32 → Option Float32
  settled total = if is_small fl total then none else some total

  abbrev pub resettled : Option Float32 → Option Float32
  resettled none = none
  resettled (some total) = settled total

  settled_total : (o : Option Float32) → is_small fl 0 ≡ true → settled (total_of o) ≡ resettled o
  settled_total none z = rw z refl
  settled_total (some total) z = refl

  -- Of one actor value, before and after: either it got no call, and its total is the old one; or it
  -- got one call, of an amount beyond the tolerance, and its total is the old one and that amount.
  abbrev pub IsAccounted : Option Float32 → List Float32 → Option Float32 → List Float32 → Type 0
  IsAccounted before got after got' =
      ((got' ≡ got) × ((after ≡ before) ⊎ (after ≡ resettled before)))
      ⊎ ((delta : Float32) × ((got' ≡ delta ∷ got)
            × ((is_small fl delta ≡ false) × (after ≡ settled (fl.fadd (total_of before) delta)))))

  lookup-keep_total_ne :
      (av k total : ℕ) (m : List (ActorValue × Float32))
      → (av == k) ≡ false
      → lookup k (keep_total fl av total m) ≡ lookup k m
  lookup-keep_total_ne av k total m h = elim (Bool-cases (is_small fl total)) [
    | inl t ↦ rw t (lookup-erase_ne av k m (ground arith))
    | inr f ↦ rw f (lookup-assign_ne av total k m h)
  ]

  lookup-keep_total_self :
      (av total : ℕ) (m : List (ActorValue × Float32))
      → Distinct m
      → lookup av (keep_total fl av total m) ≡ settled total
  lookup-keep_total_self av total m d = elim (Bool-cases (is_small fl total)) [
    | inl t ↦ rw t (lookup-erase_self av m d)
    | inr f ↦ rw f (lookup-assign_self av total m)
  ]

  keep_total-Distinct :
      (av total : ℕ) (m : List (ActorValue × Float32))
      → Distinct m
      → Distinct (keep_total fl av total m)
  keep_total-Distinct av total m d = elim (Bool-cases (is_small fl total)) [
    | inl t ↦ rw t (erase-Distinct av m d)
    | inr f ↦ rw f (assign-Distinct av total m d)
  ]

  module _ (avs : ActorValues) (player : PlayerValues)
      (current desired : List (ActorValue × Float32)) where
    pub sync_value-Distinct :
        (av : ActorValue) (w : SyncState)
        → Distinct w.next
        → Distinct (sync_value fl avs player current desired av w).next
    unfolding sync_value
    sync_value-Distinct av w d =
        let current_total = total_of (lookup av current) in
        let delta =
          clamp_build_sync_delta fl avs av (player.actor_value w.calls av)
            (fl.fsub (total_of (lookup av desired)) current_total) in
        elim (Bool-cases (is_small fl delta)) [
          | inl t ↦ rw t (keep_total-Distinct av current_total w.next d)
          | inr f ↦ rw f (keep_total-Distinct av (fl.fadd current_total delta) w.next d)
        ]

    -- The turn of another value.
    pub sync_value_other :
        (av k : ActorValue) (w : SyncState)
        → (av == k) ≡ false
        → let w' = sync_value fl avs player current desired av w in
          (amounts k w'.calls ≡ amounts k w.calls) × (lookup k w'.next ≡ lookup k w.next)
    unfolding sync_value
    sync_value_other av k w h =
        let current_total = total_of (lookup av current) in
        let delta =
          clamp_build_sync_delta fl avs av (player.actor_value w.calls av)
            (fl.fsub (total_of (lookup av desired)) current_total) in
        elim (Bool-cases (is_small fl delta)) [
          | inl t ↦ rw t (refl, lookup-keep_total_ne av k current_total w.next h)
          | inr f ↦
              rw (f, h) (refl, lookup-keep_total_ne av k (fl.fadd current_total delta) w.next h)
        ]

    -- The turn of the value itself.
    pub sync_value_self :
        (av : ActorValue) (w : SyncState)
        → is_small fl 0 ≡ true
        → Distinct w.next
        → let w' = sync_value fl avs player current desired av w in
          IsAccounted
            (lookup av current)
            (amounts av w.calls)
            (lookup av w'.next)
            (amounts av w'.calls)
    unfolding sync_value
    sync_value_self av w z d =
        let current_total = total_of (lookup av current) in
        let delta =
          clamp_build_sync_delta fl avs av (player.actor_value w.calls av)
            (fl.fsub (total_of (lookup av desired)) current_total) in
        let same : (av == av) ≡ true = ground arith in
        elim (Bool-cases (is_small fl delta)) [
          | inl t ↦ rw t (
              inl (
                refl,
                inr (
                    lookup-keep_total_self av current_total w.next d
                    ∙ settled_total (lookup av current) z),
              ))
          | inr f ↦
              rw (f, same)
                (inr (
                  delta,
                  (refl, (f, lookup-keep_total_self av (fl.fadd current_total delta) w.next d)),
                ))
        ]

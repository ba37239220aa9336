-- ===== src/Tests/Effects.antt =====
-- A player with an active option and an old total.
use codex_of_power_ng.Base.{true, List, [], ◌∷◌, arith, refl}
use codex_of_power_ng.Base.Keyed.{Distinct, lookup}
use codex_of_power_ng.Build.Slots.{no_slots}
use codex_of_power_ng.Effects.Accounts.{IsIterationOrder, sync_accounts}
use codex_of_power_ng.Effects.Turn.{IsAccounted, amounts}
use codex_of_power_ng.Effects.Sync.{PlayerValues, sync_current_build_effects_to_player}
use codex_of_power_ng.State.{ActorValue, RuntimeState, initial_state}
use codex_of_power_ng.Tests.Values.{some_floats, some_actor_values}

abbrev some_player : PlayerValues
some_player = record { has_owner = true; actor_value = λ calls av. 100 }

abbrev fighter : RuntimeState
fighter = record initial_state {
  attack_build_points_centi = 900;
  active_build_slots = record no_slots { at0 = "build.attack.ferocity" };
  build_applied_effect_totals = (30, 0x3e80_0000) ∷ [];
}

-- A hash set that gives its second key first.
abbrev swap_first : List ActorValue → List ActorValue
swap_first [] = []
swap_first (a ∷ []) = a ∷ []
swap_first (a ∷ b ∷ rest) = b ∷ a ∷ rest

swap_first-IsIterationOrder : IsIterationOrder swap_first
swap_first-IsIterationOrder [] r = (r, λ k. refl)
swap_first-IsIterationOrder (a ∷ []) r = (r, λ k. refl)
swap_first-IsIterationOrder (a ∷ b ∷ rest) r = (ground arith, λ k. ground arith)

sync_accounts_example :
    let after =
      sync_current_build_effects_to_player some_floats some_actor_values
        (λ totals. totals)
        swap_first
        some_player
        (fighter, []) in
    Distinct (after.0.build_applied_effect_totals)
    × ((k : ActorValue)
        → IsAccounted some_floats
            (lookup k fighter.build_applied_effect_totals)
            (amounts k [])
            (lookup k (after.0.build_applied_effect_totals))
            (amounts k after.1))
sync_accounts_example =
    sync_accounts some_floats some_actor_values (λ totals. totals) swap_first some_player fighter []
      swap_first-IsIterationOrder refl (refl, tt)

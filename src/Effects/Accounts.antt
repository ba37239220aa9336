-- ===== src/Effects/Accounts.antt =====
-- src/BuildEffectRuntime.cpp: the recorded totals and the calls that the player's values got.
use codex_of_power_ng.Base.{
  true, false, ◌≡◌, List, [], ◌∷◌, ◌==◌, ==_iff, refl, arith, sym, subst, ◌∙◌, inl, inr, Bool-cases,
}
use codex_of_power_ng.Base.Keyed.{lookup, insert, member, Distinct, NoRepeat}
use codex_of_power_ng.Effects.Totals.{
  compute_derived_build_actor_value_totals, snapshot_current_build_runtime,
}
use codex_of_power_ng.Effects.Sync.{
  PlayerValues, SyncState, is_small, sync_value, sync_values, sync_current_build_effects_to_player,
  refreshed, insert_keys, emplace_all,
}
use codex_of_power_ng.Game.{FloatOps, ActorValues, GameCall}
use codex_of_power_ng.State.{ActorValue, Float32, RuntimeState}
use codex_of_power_ng.Effects.Turn.{
  amounts, IsAccounted, sync_value-Distinct, sync_value_other, sync_value_self,
}

-- An order in which a hash set may give its keys: every key once.
abbrev pub IsIterationOrder : (List ActorValue → List ActorValue) → Type 0
IsIterationOrder order =
    (keys : List ActorValue)
    → NoRepeat keys
    → NoRepeat (order keys) × ((k : ActorValue) → member k (order keys) ≡ member k keys)

module _ (fl : FloatOps) where
  module _ (avs : ActorValues) (player : PlayerValues)
      (current desired : List (ActorValue × Float32)) where
    sync_values_other :
        (values : List ActorValue) (k : ActorValue) (w : SyncState)
        → member k values ≡ false
        → let w' = sync_values fl avs player current desired values w in
          (amounts k w'.calls ≡ amounts k w.calls) × (lookup k w'.next ≡ lookup k w.next)
    unfolding sync_values
    sync_values_other [] k w h = (refl, refl)
    sync_values_other (av ∷ values) k w h =
        let first = sync_value_other fl avs player current desired av k w (ground arith) in
        let later =
          sync_values_other values k (sync_value fl avs player current desired av w)
            (ground arith) in
        (later.0 ∙ first.0, later.1 ∙ first.1)

    sync_values-IsAccounted :
        (values : List ActorValue) (k : ActorValue) (w : SyncState)
        → is_small fl 0 ≡ true
        → NoRepeat values
        → Distinct w.next
        → lookup k w.next ≡ lookup k current
        → let w' = sync_values fl avs player current desired values w in
          IsAccounted fl
            (lookup k current)
            (amounts k w.calls)
            (lookup k w'.next)
            (amounts k w'.calls)
    unfolding sync_values
    sync_values-IsAccounted [] k w z r d e = inl (refl, inl e)
    sync_values-IsAccounted (av ∷ values) k w z r d e =
        let w1 = sync_value fl avs player current desired av w in
        let w2 = sync_values fl avs player current desired values w1 in
        elim (Bool-cases (av == k)) [
          | inl t ↦
              let same : av ≡ k = (==_iff av k).0 t in
              let turn =
                subst
                  (λ j.
                    IsAccounted fl (lookup j current) (amounts j w.calls) (lookup j w1.next)
                      (amounts j w1.calls))
                  same (sync_value_self fl avs player current desired av w z d) in
              let later =
                sync_values_other values k w1 (subst (λ j. member j values ≡ false) same r.0) in
              subst
                (λ n. IsAccounted fl (lookup k current) (amounts k w.calls) n (amounts k w2.calls))
                (sym later.1)
                (subst
                  (λ c. IsAccounted fl (lookup k current) (amounts k w.calls) (lookup k w1.next) c)
                  (sym later.0) turn)
          | inr f ↦
              let first = sync_value_other fl avs player current desired av k w f in
              subst
                (λ c. IsAccounted fl (lookup k current) c (lookup k w2.next) (amounts k w2.calls))
                first.0
                (sync_values-IsAccounted values k w1 z r.1
                  (sync_value-Distinct fl avs player current desired av w d) (first.1 ∙ e))
        ]

    sync_values-Distinct :
        (values : List ActorValue) (w : SyncState)
        → Distinct w.next
        → Distinct (sync_values fl avs player current desired values w).next
    unfolding sync_values
    sync_values-Distinct [] w d = d
    sync_values-Distinct (av ∷ values) w d =
        sync_values-Distinct values (sync_value fl avs player current desired av w)
          (sync_value-Distinct fl avs player current desired av w d)

  amounts-refreshed : (k : ActorValue) (w : SyncState) → amounts k (refreshed w) ≡ amounts k w.calls
  amounts-refreshed k w = elim (Bool-cases w.refresh) [ inl t ↦ rw t refl | inr f ↦ rw f refl ]

  insert_keys-NoRepeat :
      (totals : List (ActorValue × Float32)) (keys : List ActorValue)
      → NoRepeat keys
      → NoRepeat (insert_keys totals keys)
  insert_keys-NoRepeat [] keys r = r
  insert_keys-NoRepeat ((av, total) ∷ totals) keys r =
      insert_keys-NoRepeat totals (insert av keys) (ground arith)

  -- A sync keeps the books: of every actor value, either the player's value got no call and the
  -- recorded total is the old one (dropped where it is within the tolerance), or it got exactly one
  -- call, of an amount beyond the tolerance, and the recorded total is the old one and that amount,
  -- whatever the game answers and in whatever order the hash set gives the values, each of them once;
  -- the recorded map has no key twice. It wants that zero is within the tolerance, and a recorded map
  -- without a key twice before.
  pub sync_accounts :
      (avs : ActorValues) (sort : List (ActorValue × Float32) → List (ActorValue × Float32))
      (order : List ActorValue → List ActorValue) (player : PlayerValues) (state : RuntimeState)
      (calls : List GameCall)
      → IsIterationOrder order
      → is_small fl 0 ≡ true
      → Distinct state.build_applied_effect_totals
      → let after = sync_current_build_effects_to_player fl avs sort order player (state, calls) in
        Distinct (after.0.build_applied_effect_totals)
        × ((k : ActorValue)
            → IsAccounted fl
                (lookup k state.build_applied_effect_totals)
                (amounts k calls)
                (lookup k (after.0.build_applied_effect_totals))
                (amounts k after.1))
  unfolding sync_current_build_effects_to_player
  sync_accounts avs sort order player state calls each z d =
      let current = state.build_applied_effect_totals in
      let desired =
        emplace_all
          (compute_derived_build_actor_value_totals fl avs sort
            (snapshot_current_build_runtime state))
          [] in
      let values = order (insert_keys desired (insert_keys current [])) in
      let start : SyncState = record { next = current; calls = calls; refresh = false } in
      let done = sync_values fl avs player current desired values start in
      let once =
        (each (insert_keys desired (insert_keys current [])) (
          insert_keys-NoRepeat desired (insert_keys current [])
            (insert_keys-NoRepeat current [] tt))).0 in
      elim (Bool-cases player.has_owner) [
        | inl t ↦ rw t (
          sync_values-Distinct avs player current desired values start d,
          λ k.
              subst
                (λ c. IsAccounted fl (lookup k current) (amounts k calls) (lookup k done.next) c)
                (sym (amounts-refreshed k done))
                (sync_values-IsAccounted avs player current desired values k start z once d refl),
        )
        | inr f ↦ rw f (d, λ k. inl (refl, inl refl))
      ]

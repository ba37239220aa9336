-- ===== src/Flows/Undone.antt =====
-- src/RegistrationUndo.cpp: what an undo that does not fail does to the shared state.
use codex_of_power_ng.Base.{
  ℕ, Bool, true, false, ◌≡◌, Option, none, some, List, [], ◌∷◌, refl, ap, sym, ◌∙◌, Bool-cases, ◌⊎◌,
  inl, inr,
}
use mathlib.Core.Bool.{true≢false}
use codex_of_power_ng.Build.Progression.Contribution.{apply_registration_contribution, is_rejected}
use codex_of_power_ng.Build.Progression.Rollback.{rollback_registration_contribution_detailed}
use codex_of_power_ng.Build.Progression.RoundTrip.{NoOverflow, apply-rollback}
use codex_of_power_ng.Build.StateStore.Validity.{IsValidBuild}
use codex_of_power_ng.Effects.Sync.{sync_current_build_effects_to_player}
use codex_of_power_ng.Flows.Input.{FlowInput, FlowState}
use codex_of_power_ng.Flows.Register.{apply_contribution}
use codex_of_power_ng.Flows.Runtime.{with_rest, apply_contribution_frame, sync-runtime}
use codex_of_power_ng.Flows.Undo.{
  UndoOutcome, undone, undo_removed, give_back, complete_undo, rollback_progress,
  resolve_undo_item_object,
}
use codex_of_power_ng.Game.{GameCall, add_object}
use codex_of_power_ng.Rewards.Totals.{rollback_reward_deltas}
use codex_of_power_ng.Base.Int.{leb_ℤ}
use codex_of_power_ng.State.{
  FormId, ActorValue, Float32, RuntimeState, UndoRecord, BuildScoreContribution,
}

-- The contribution of a registration, where there is one, and the state with it.
abbrev pub contributed : Option BuildScoreContribution → RuntimeState → RuntimeState
contributed none s = s
contributed (some c) s = (apply_registration_contribution c s).0

-- What the contribution leaves alone may be set before it or after it.
pub contributed_frame :
    (o : Option BuildScoreContribution) (items : List (FormId × ℕ)) (history : List UndoRecord)
    (next : ℕ) (totals : List (ActorValue × Float32)) (s : RuntimeState)
    → contributed o (with_rest items history next totals s)
      ≡ with_rest items history next totals (contributed o s)
contributed_frame none items history next totals s = refl
contributed_frame (some c) items history next totals s =
    apply_contribution_frame c items history next totals s

-- The registration changes the totals of the applied effects as the sync says, and for the rest is
-- the insertion with the contribution.
pub apply_contribution-runtime :
    (w : FlowInput) (o : Option BuildScoreContribution) (state : RuntimeState)
    (calls : List GameCall)
    → let after = (apply_contribution w o (state, calls)).0 in
      after ≡ record (contributed o state) {
        build_applied_effect_totals = after.build_applied_effect_totals;
      }
unfolding apply_contribution
apply_contribution-runtime w none state calls = refl
apply_contribution-runtime w (some c) state calls =
    sync-runtime w.float_ops w.actor_values w.sort_totals w.order_values w.player_values
      (contributed (some c) state) calls

abbrev pub is_undone : UndoOutcome → Bool
is_undone (undone key total warns) = true
is_undone _ = false

module _ {A : Type 0} (w : FlowInput) (r : UndoRecord) where
  abbrev IsCompletedUndo : FlowState A → FlowState A × UndoOutcome → Type 0
  IsCompletedUndo s result =
      (is_undone result.1 ≡ false)
      ⊎ ((calls : List GameCall) × (result ≡ complete_undo w r (record s { calls = calls })))

  give_back_cases : (o : Option FormId) (s : FlowState A) → IsCompletedUndo s (give_back w r o s)
  unfolding give_back
  give_back_cases none s = inl refl
  give_back_cases (some item) s =
      let calls = add_object item ∷ s.calls in
      elim (Bool-cases (leb_ℤ (w.item_count calls item) (w.item_count s.calls item))) [
        | inl t ↦ rw t (inl refl)
        | inr f ↦ rw f (inr (calls, refl))
      ]

  -- An undo that does not fail after the registration is taken away is the completion, after some
  -- more calls.
  undo_removed_cases : (s : FlowState A) → IsCompletedUndo s (undo_removed w r true s)
  unfolding undo_removed
  undo_removed_cases s = elim (Bool-cases w.has_player) [
    | inl t ↦ rw t (give_back_cases (resolve_undo_item_object w r) s)
    | inr f ↦ rw f (inl refl)
  ]

abbrev pub with_totals : List (ActorValue × Float32) → RuntimeState → RuntimeState
with_totals totals s = record s { build_applied_effect_totals = totals }

own_totals :
    (u b : RuntimeState) (totals : List (ActorValue × Float32))
    → u ≡ record b { build_applied_effect_totals = totals }
    → u ≡ record b { build_applied_effect_totals = u.build_applied_effect_totals }
own_totals u b totals e =
    e
    ∙ ap (λ y. record b { build_applied_effect_totals = y })
        (sym (ap (λ v. v.build_applied_effect_totals) e))

-- The rollback of what a registration contributed.
pub rollback_contributed :
    (w : FlowInput) (r : UndoRecord) (o : Option BuildScoreContribution) (b : RuntimeState)
    (calls : List GameCall)
    → r.reward_deltas ≡ []
    → ((c : BuildScoreContribution) → o ≡ some c → (is_rejected c ≡ false) × NoOverflow c b)
    → IsValidBuild b
    → let back = (rollback_progress w r o (contributed o b, calls)).0.0 in
      back ≡ record b { build_applied_effect_totals = back.build_applied_effect_totals }
unfolding rollback_progress rollback_reward_deltas
rollback_contributed w r none b calls e h v = rw e refl
rollback_contributed w r (some c) b calls e h v =
    let back = (rollback_registration_contribution_detailed c (contributed (some c) b)).0 in
    let same : back ≡ b = (apply-rollback c b (h c refl).0 (h c refl).1 v).0 in
    let after =
      (sync_current_build_effects_to_player w.float_ops w.actor_values w.sort_totals w.order_values
        w.player_values (back, calls)).0 in
    own_totals after b after.build_applied_effect_totals (
      sync-runtime w.float_ops w.actor_values w.sort_totals w.order_values w.player_values back
        calls
      ∙ ap (with_totals after.build_applied_effect_totals) same)

-- What an undo that does not fail leaves of the state with the contribution.
pub undone-runtime :
    {A : Type 0}
    → (w : FlowInput) (r : UndoRecord) (o : Option BuildScoreContribution) (b : RuntimeState)
      (t : FlowState A)
    → r.build_contribution ≡ o
    → r.reward_deltas ≡ []
    → ((c : BuildScoreContribution) → o ≡ some c → (is_rejected c ≡ false) × NoOverflow c b)
    → IsValidBuild b
    → t.runtime ≡ contributed o b
    → is_undone ((undo_removed w r true t).1) ≡ true
    → let after = (undo_removed w r true t).0.runtime in
      after ≡ with_totals after.build_applied_effect_totals b
unfolding complete_undo
undone-runtime w r o b t eo ed h v et ok = elim (undo_removed_cases w r t) [
  | inl f ↦ absurd (true≢false (sym ok ∙ f))
  | inr (calls, q) ↦
      let rolled : (state : RuntimeState) (c : Option BuildScoreContribution) → RuntimeState =
        λ state c. (rollback_progress w r c (state, calls)).0.0 in
      let parts : (undo_removed w r true t).0.runtime ≡ rolled (contributed o b) o =
        ap (λ x. x.0.runtime) q ∙ ap (rolled t.runtime) eo ∙ ap (λ state. rolled state o) et in
      own_totals _ b _ (parts ∙ rollback_contributed w r o b calls ed h v)
]

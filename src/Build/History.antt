-- ===== src/Build/History.antt =====
-- Any sequence of calls on the build state, whatever the UI, registration and undo ask for.
use codex_of_power_ng.Base.Int.{IsI32}
use codex_of_power_ng.Build.Slots
use codex_of_power_ng.Build.Slots.{no_slots}
use codex_of_power_ng.Build.Progression.Rollback.Settle.{settled}
use codex_of_power_ng.Base.{All, ◌≤◌, ◌≡◌, refl, String, List, [], ◌∷◌, arith, Bool-cases, inl, inr}
use codex_of_power_ng.Base.Word.{u32_max}
use codex_of_power_ng.Build.Types.{BuildDiscipline, BuildSlotId}
use codex_of_power_ng.Build.StateStore.{
  build_points_for_discipline, set_active_slot, clear_active_slot, clear_active_slots,
}
use codex_of_power_ng.Build.StateStore.Validity.{IsValidBuild}
use codex_of_power_ng.Build.StateStore.SetSlot.{
  set_active_slot_correct, set_active_slot-IsValidBuild, clear_active_slot-IsValidBuild,
  clear_active_slots-IsValidBuild, points_of_slots,
}
use codex_of_power_ng.Build.Progression.Contribution.{
  shift, saturating_add, saturating_sub, is_rejected, apply_registration_contribution,
}
use codex_of_power_ng.Build.Progression.Rollback.{rollback_registration_contribution_detailed}
use codex_of_power_ng.Build.Progression.Rollback.Validity.{
  rollback-state, rollback-IsValidBuild, apply-IsValidBuild,
}
use codex_of_power_ng.State.{RuntimeState, initial_state, BuildScoreContribution}

pub data BuildCall : Type 0 where
  set_slot : BuildSlotId → String → BuildCall
  clear_slot : BuildSlotId → BuildCall
  clear_slots : BuildCall
  contribute roll_back : BuildScoreContribution → BuildCall

pub step : BuildCall → RuntimeState → RuntimeState
step (set_slot slot_id option_id) s = (set_active_slot slot_id option_id s).0
step (clear_slot slot_id) s = clear_active_slot slot_id s
step clear_slots s = clear_active_slots s
step (contribute c) s = (apply_registration_contribution c s).0
step (roll_back c) s = (rollback_registration_contribution_detailed c s).0

pub run : List BuildCall → RuntimeState → RuntimeState
unfolding step
run [] s = s
run (call ∷ calls) s = run calls (step call s)

-- Every slot is valid and every total of points fits its word.
pub record IsSound (s : RuntimeState) : Type 0 where
  pub build : IsValidBuild s
  pub points : (d : BuildDiscipline) → build_points_for_discipline s d ≤ u32_max

set_active_slot-points :
    (slot_id : BuildSlotId) (option_id : String) (s : RuntimeState) (d : BuildDiscipline)
    → build_points_for_discipline (set_active_slot slot_id option_id s).0 d
      ≡ build_points_for_discipline s d
set_active_slot-points slot_id option_id s d =
    let (_, refused, written) = set_active_slot_correct slot_id option_id s in
    elim (Bool-cases (set_active_slot slot_id option_id s).1) [
      | inl e ↦ rw (written e) (points_of_slots s _ d)
      | inr e ↦ rw (refused e) refl
    ]

shift-points_fit :
    (c : BuildScoreContribution) (s : RuntimeState) (d : BuildDiscipline)
    → IsI32 c.points_delta_centi
    → build_points_for_discipline s d ≤ u32_max
    → (build_points_for_discipline (shift saturating_add c s) d ≤ u32_max)
      × (build_points_for_discipline (shift saturating_sub c s) d ≤ u32_max)
unfolding shift
shift-points_fit c s d i h = (ground arith, ground arith)

apply-points_fit :
    (c : BuildScoreContribution) (s : RuntimeState) (d : BuildDiscipline)
    → IsI32 c.points_delta_centi
    → build_points_for_discipline s d ≤ u32_max
    → build_points_for_discipline (apply_registration_contribution c s).0 d ≤ u32_max
apply-points_fit c s d i h = elim (Bool-cases (is_rejected c)) [
  | inl e ↦ unfold apply_registration_contribution in rw (e, apply_registration_contribution) h
  | inr e ↦
      unfold apply_registration_contribution in
      rw (e, apply_registration_contribution) (shift-points_fit c s d i h).0
]

rollback-points_fit :
    (c : BuildScoreContribution) (s : RuntimeState) (d : BuildDiscipline)
    → IsI32 c.points_delta_centi
    → build_points_for_discipline s d ≤ u32_max
    → build_points_for_discipline (rollback_registration_contribution_detailed c s).0 d ≤ u32_max
rollback-points_fit c s d i h = elim (Bool-cases (is_rejected c)) [
  | inl e ↦
      unfold rollback_registration_contribution_detailed in
      rw (e, rollback_registration_contribution_detailed) h
  | inr e ↦
      rw
        (
          (rollback-state c s e).0,
          points_of_slots (shift saturating_sub c s)
              (settled (build_points_for_discipline (shift saturating_sub c s))
                (shift saturating_sub c s).active_build_slots)
              d,
        )
        (shift-points_fit c s d i h).1
]

rollback_build :
    (c : BuildScoreContribution) (s : RuntimeState)
    → IsValidBuild s
    → IsValidBuild (rollback_registration_contribution_detailed c s).0
rollback_build c s h = elim (Bool-cases (is_rejected c)) [
  | inl e ↦ λ slot_id.
      unfold rollback_registration_contribution_detailed in
      rw (e, rollback_registration_contribution_detailed) (h slot_id)
  | inr e ↦ rollback-IsValidBuild c s e
]

-- The numbers of a call are of the types that the source gives them.
abbrev pub IsTyped : BuildCall → Type 0
IsTyped (set_slot slot_id option_id) = Unit
IsTyped (clear_slot slot_id) = Unit
IsTyped clear_slots = Unit
IsTyped (contribute c) = IsI32 c.points_delta_centi
IsTyped (roll_back c) = IsI32 c.points_delta_centi

step-IsSound :
    (call : BuildCall) (s : RuntimeState) → IsTyped call → IsSound s → IsSound (step call s)
unfolding step
step-IsSound (set_slot slot_id option_id) s i h = record {
  build = set_active_slot-IsValidBuild slot_id option_id s h.build;
  points = λ d. rw (set_active_slot-points slot_id option_id s d) (h.points d);
}
step-IsSound (clear_slot slot_id) s i h = record {
  build = clear_active_slot-IsValidBuild slot_id s h.build;
  points = λ d.
      unfold clear_active_slot in
      rw (points_of_slots s (Slots.set_slot slot_id "" s.active_build_slots) d) (h.points d);
}
step-IsSound clear_slots s i h = record {
  build = clear_active_slots-IsValidBuild s;
  points = λ d. unfold clear_active_slots in rw (points_of_slots s no_slots d) (h.points d);
}
step-IsSound (contribute c) s i h = record {
  build = apply-IsValidBuild c s h.points h.build;
  points = λ d. apply-points_fit c s d i (h.points d);
}
step-IsSound (roll_back c) s i h = record {
  build = rollback_build c s h.build;
  points = λ d. rollback-points_fit c s d i (h.points d);
}

-- After any calls in any order, from a sound state, every occupied slot holds an option of the
-- catalog that fits it and whose points are reached, and no total of points leaves its word.
pub run-IsSound :
    (calls : List BuildCall) (s : RuntimeState)
    → All IsTyped calls
    → IsSound s
    → IsSound (run calls s)
unfolding run
run-IsSound [] s i h = h
run-IsSound (call ∷ calls) s i h = run-IsSound calls (step call s) i.1 (step-IsSound call s i.0 h)

-- The state of a new game is sound.
pub initial_state-IsSound : IsSound initial_state
unfolding clear_active_slots build_points_for_discipline
initial_state-IsSound = record {
  build = clear_active_slots-IsValidBuild initial_state;
  points = λ d. ground arith;
}

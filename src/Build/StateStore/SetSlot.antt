-- ===== src/Build/StateStore/SetSlot.antt =====
-- `SetActiveSlot` against the validity of slots.
use mathlib.Core.Path.{fun_ext}
use codex_of_power_ng.Base.{
  ◌≡◌, ◌≢◌, ◌↔◌, refl, true, false, Option, none, some, String, arith, is_empty, ◌⊎◌, inl, inr,
  Bool-cases,
}
use codex_of_power_ng.Build.Types.{
  BuildDiscipline, BuildSlotId, attack1, attack2, defense1, utility1, utility2, wildcard1,
  BuildOptionDef, pending_cleanup,
}
use codex_of_power_ng.Build.Slots.{Slots, find_option, set_slot}
use codex_of_power_ng.Build.StateStore.{
  build_points_for_discipline, set_active_slot, set_found_slot, clear_active_slot,
  clear_active_slots,
}
use codex_of_power_ng.Build.StateStore.Validity.{
  MayStand, is_slot_compatible_iff, IsValidBuild, IsValidSlot-set_slot, slot_at-set_slot_self,
}
use codex_of_power_ng.State.{RuntimeState}

set_found_slot_iff :
    (slot_id : BuildSlotId) (option_id : String) (o : Option BuildOptionDef) (s : RuntimeState)
    → ((set_found_slot slot_id option_id o s).1 ≡ true)
      ↔ MayStand (build_points_for_discipline s) slot_id o
unfolding set_found_slot
set_found_slot_iff slot_id option_id none s = (λ h. cc, λ h. absurd h)
set_found_slot_iff slot_id option_id (some o) s = ground (arith, is_slot_compatible_iff o slot_id)

set_found_slot-state :
    (slot_id : BuildSlotId) (option_id : String) (o : Option BuildOptionDef) (s : RuntimeState)
    → let (t, done) = set_found_slot slot_id option_id o s in
      (done ≡ false → t ≡ s)
      × (done ≡ true
          → t ≡ record s { active_build_slots = set_slot slot_id option_id s.active_build_slots })
unfolding set_found_slot
set_found_slot-state slot_id option_id none s = (λ h. refl, λ h. cc)
set_found_slot-state slot_id option_id (some o) s = ground arith

-- `SetActiveSlot` succeeds exactly when no cleanup is pending and the text names an option of the
-- catalog that fits the slot and whose points are reached. Then it writes that one slot and nothing
-- else, and otherwise it changes nothing.
pub set_active_slot_correct :
    (slot_id : BuildSlotId) (option_id : String) (s : RuntimeState)
    → let (t, done) = set_active_slot slot_id option_id s in
      ((done ≡ true) ↔ (
        (s.build_migration_state ≢ pending_cleanup)
        × MayStand (build_points_for_discipline s) slot_id (find_option option_id)))
      × (done ≡ false → t ≡ s)
      × (done ≡ true
          → t ≡ record s { active_build_slots = set_slot slot_id option_id s.active_build_slots })
unfolding set_active_slot
set_active_slot_correct slot_id option_id s = ground (
  arith,
  set_found_slot_iff slot_id option_id (find_option option_id) s,
  set_found_slot-state slot_id option_id (find_option option_id) s,
)

-- The points of a state do not depend on its slots.
pub points_of_slots :
    (s : RuntimeState) (slots : Slots) (d : BuildDiscipline)
    → build_points_for_discipline (record s { active_build_slots = slots }) d
      ≡ build_points_for_discipline s d
unfolding build_points_for_discipline
points_of_slots s slots BuildDiscipline.attack = refl
points_of_slots s slots BuildDiscipline.defense = refl
points_of_slots s slots BuildDiscipline.utility = refl
points_of_slots s slots (BuildDiscipline.other n) = refl

-- A write of a text that may stand in the slot, or of the empty text, keeps the build valid.
pub write_slot-IsValidBuild :
    (slot_id : BuildSlotId) (v : String) (s : RuntimeState)
    → IsValidBuild s
    → (is_empty v ≡ true) ⊎ MayStand (build_points_for_discipline s) slot_id (find_option v)
    → IsValidBuild (record s { active_build_slots = set_slot slot_id v s.active_build_slots })
write_slot-IsValidBuild slot_id v s h new other_id =
    rw (fun_ext (points_of_slots s (set_slot slot_id v s.active_build_slots))) (
      IsValidSlot-set_slot (build_points_for_discipline s) s.active_build_slots slot_id other_id v
        (rw (slot_at-set_slot_self s.active_build_slots slot_id v) new) (h other_id))

pub set_active_slot-IsValidBuild :
    (slot_id : BuildSlotId) (option_id : String) (s : RuntimeState)
    → IsValidBuild s
    → IsValidBuild (set_active_slot slot_id option_id s).0
set_active_slot-IsValidBuild slot_id option_id s h =
    let (iff, refused, written) = set_active_slot_correct slot_id option_id s in
    elim (Bool-cases (set_active_slot slot_id option_id s).1) [
      | inl e ↦ rw (written e) (write_slot-IsValidBuild slot_id option_id s h (inr (iff.0 e).1))
      | inr e ↦ rw (refused e) h
    ]

pub clear_active_slot-IsValidBuild :
    (slot_id : BuildSlotId) (s : RuntimeState)
    → IsValidBuild s
    → IsValidBuild (clear_active_slot slot_id s)
unfolding clear_active_slot
clear_active_slot-IsValidBuild slot_id s h = write_slot-IsValidBuild slot_id "" s h (inl refl)

-- Clearing every slot makes any build valid.
pub clear_active_slots-IsValidBuild : (s : RuntimeState) → IsValidBuild (clear_active_slots s)
unfolding clear_active_slots
clear_active_slots-IsValidBuild s attack1 = inl refl
clear_active_slots-IsValidBuild s attack2 = inl refl
clear_active_slots-IsValidBuild s defense1 = inl refl
clear_active_slots-IsValidBuild s utility1 = inl refl
clear_active_slots-IsValidBuild s utility2 = inl refl
clear_active_slots-IsValidBuild s wildcard1 = inl refl

-- ===== src/Build/StateStore/Validity.antt =====
-- What an occupied slot promises, stated apart from the code's tests: the text names an option of
-- the catalog, which fits the slot and whose points are reached.
use codex_of_power_ng.Base.{
  ℕ, ◌≤◌, ◌≡◌, ◌≢◌, ◌↔◌, refl, true, Option, none, some, String, arith, is_empty, ◌⊎◌, inl, inr,
}
use codex_of_power_ng.Build.Types.{
  BuildDiscipline, BuildSlotId, attack1, attack2, defense1, utility1, utility2, wildcard1,
  BuildOptionDef, same_discipline_only, wildcard_only,
}
use codex_of_power_ng.Build.Slots.{Slots, find_option, is_slot_compatible, slot_at, set_slot}
use codex_of_power_ng.Build.StateStore.{build_points_for_discipline}
use codex_of_power_ng.State.{RuntimeState}

-- A slot of a discipline takes that discipline's options, unless they are for the wildcard only; the
-- wildcard slot takes all that are not tied to their own discipline.
abbrev pub Fits : BuildOptionDef → BuildSlotId → Type 0
Fits o attack1 = (o.discipline ≡ BuildDiscipline.attack) × (o.slot_compatibility ≢ wildcard_only)
Fits o attack2 = (o.discipline ≡ BuildDiscipline.attack) × (o.slot_compatibility ≢ wildcard_only)
Fits o defense1 = (o.discipline ≡ BuildDiscipline.defense) × (o.slot_compatibility ≢ wildcard_only)
Fits o utility1 = (o.discipline ≡ BuildDiscipline.utility) × (o.slot_compatibility ≢ wildcard_only)
Fits o utility2 = (o.discipline ≡ BuildDiscipline.utility) × (o.slot_compatibility ≢ wildcard_only)
Fits o wildcard1 = o.slot_compatibility ≢ same_discipline_only

-- The code's test decides it.
pub is_slot_compatible_iff :
    (o : BuildOptionDef) (slot_id : BuildSlotId)
    → (is_slot_compatible o slot_id ≡ true) ↔ Fits o slot_id
unfolding is_slot_compatible
is_slot_compatible_iff o attack1 = ground arith
is_slot_compatible_iff o attack2 = ground arith
is_slot_compatible_iff o defense1 = ground arith
is_slot_compatible_iff o utility1 = ground arith
is_slot_compatible_iff o utility2 = ground arith
is_slot_compatible_iff o wildcard1 = ground arith

-- The option may stand in the slot, given the points of each discipline.
abbrev pub MayStand : (BuildDiscipline → ℕ) → BuildSlotId → Option BuildOptionDef → Type 0
MayStand points slot_id none = ⊥
MayStand points slot_id (some option) =
    Fits option slot_id × (option.unlock_points_centi ≤ points option.discipline)

abbrev pub IsValidSlot : (BuildDiscipline → ℕ) → Slots → BuildSlotId → Type 0
IsValidSlot points slots slot_id =
    (is_empty (slot_at slots slot_id) ≡ true)
    ⊎ MayStand points slot_id (find_option (slot_at slots slot_id))

-- Every slot is empty or holds an option that may stand there.
abbrev pub IsValidBuild : RuntimeState → Type 0
IsValidBuild state =
    (slot_id : BuildSlotId)
    → IsValidSlot (build_points_for_discipline state) state.active_build_slots slot_id

pub MayStand-mono :
    (p q : BuildDiscipline → ℕ) (slot_id : BuildSlotId) (o : Option BuildOptionDef)
    → ((d : BuildDiscipline) → p d ≤ q d)
    → MayStand p slot_id o
    → MayStand q slot_id o
MayStand-mono p q slot_id none h m = m
MayStand-mono p q slot_id (some option) h m = (m.0, omega (arith, m.1, h option.discipline))

-- More points keep every slot valid.
pub IsValidSlot-mono :
    (p q : BuildDiscipline → ℕ) (slots : Slots) (slot_id : BuildSlotId)
    → ((d : BuildDiscipline) → p d ≤ q d)
    → IsValidSlot p slots slot_id
    → IsValidSlot q slots slot_id
IsValidSlot-mono p q slots slot_id h (inl e) = inl e
IsValidSlot-mono p q slots slot_id h (inr m) = inr (MayStand-mono p q slot_id _ h m)

-- A write to one slot keeps the others, and makes that one as good as what is written.
pub IsValidSlot-set_slot :
    (points : BuildDiscipline → ℕ) (slots : Slots) (slot_id other_id : BuildSlotId) (v : String)
    → IsValidSlot points (set_slot slot_id v slots) slot_id
    → IsValidSlot points slots other_id
    → IsValidSlot points (set_slot slot_id v slots) other_id
IsValidSlot-set_slot p s attack1 attack1 v h k = h
IsValidSlot-set_slot p s attack2 attack2 v h k = h
IsValidSlot-set_slot p s defense1 defense1 v h k = h
IsValidSlot-set_slot p s utility1 utility1 v h k = h
IsValidSlot-set_slot p s utility2 utility2 v h k = h
IsValidSlot-set_slot p s wildcard1 wildcard1 v h k = h
IsValidSlot-set_slot p s attack1 _ v h k = k
IsValidSlot-set_slot p s attack2 _ v h k = k
IsValidSlot-set_slot p s defense1 _ v h k = k
IsValidSlot-set_slot p s utility1 _ v h k = k
IsValidSlot-set_slot p s utility2 _ v h k = k
IsValidSlot-set_slot p s wildcard1 _ v h k = k

pub slot_at-set_slot_self :
    (slots : Slots) (slot_id : BuildSlotId) (v : String)
    → slot_at (set_slot slot_id v slots) slot_id ≡ v
slot_at-set_slot_self s attack1 v = refl
slot_at-set_slot_self s attack2 v = refl
slot_at-set_slot_self s defense1 v = refl
slot_at-set_slot_self s utility1 v = refl
slot_at-set_slot_self s utility2 v = refl
slot_at-set_slot_self s wildcard1 v = refl

-- ===== src/Build/Progression/Rollback/Settle.antt =====
-- The loop over the slots as a function of each slot's text.
use mathlib.Core.Path.{fun_ext}
use codex_of_power_ng.Base.{
  ℕ, ◌+◌, ◌≡◌, refl, true, false, Bool, ◌||◌, not, Option, none, some, List, [], ◌∷◌, String, ltb,
  arith, is_empty, if◌then◌else◌, inl, inr, ◌⊎◌, ◌↔◌, Bool-cases,
}
use codex_of_power_ng.Build.Types.{
  BuildDiscipline, BuildSlotId, attack1, attack2, defense1, utility1, utility2, wildcard1,
  BuildOptionDef,
}
use codex_of_power_ng.Build.Catalog.{initial_build_slot_layout}
use codex_of_power_ng.Build.Slots.{Slots, slot_at, set_slot, find_option, is_slot_compatible}
use codex_of_power_ng.Build.StateStore.{build_points_for_discipline}
use codex_of_power_ng.Build.StateStore.Validity.{MayStand, IsValidSlot, is_slot_compatible_iff}
use codex_of_power_ng.Build.StateStore.SetSlot.{points_of_slots}
use codex_of_power_ng.Build.Progression.Rollback.{should_deactivate, visit_slot, visit_slots}
use codex_of_power_ng.State.{RuntimeState}

-- The test on an occupied slot, at given points.
is_stale : (BuildDiscipline → ℕ) → BuildSlotId → Option BuildOptionDef → Bool
is_stale points slot_id none = true
is_stale points slot_id (some option) =
    not (is_slot_compatible option slot_id)
    || ltb (points option.discipline) option.unlock_points_centi

is_dropped : (BuildDiscipline → ℕ) → BuildSlotId → String → Bool
is_dropped points slot_id text =
    if is_empty text then false else is_stale points slot_id (find_option text)

-- What the loop leaves of a slot's text, and what it adds to the count.
pub settle : (BuildDiscipline → ℕ) → BuildSlotId → String → String
unfolding is_dropped
settle points slot_id text = if is_dropped points slot_id text then "" else text

pub dropped : (BuildDiscipline → ℕ) → BuildSlotId → String → ℕ
unfolding is_dropped
dropped points slot_id text = if is_dropped points slot_id text then 1 else 0

set_slot_self :
    (slots : Slots) (slot_id : BuildSlotId) → set_slot slot_id (slot_at slots slot_id) slots ≡ slots
set_slot_self slots attack1 = refl
set_slot_self slots attack2 = refl
set_slot_self slots defense1 = refl
set_slot_self slots utility1 = refl
set_slot_self slots utility2 = refl
set_slot_self slots wildcard1 = refl

should_deactivate-is_stale :
    (s : RuntimeState) (slot_id : BuildSlotId) (o : Option BuildOptionDef)
    → should_deactivate s slot_id o ≡ is_stale (build_points_for_discipline s) slot_id o
unfolding should_deactivate is_stale
should_deactivate-is_stale s slot_id none = refl
should_deactivate-is_stale s slot_id (some o) = refl

visit_slot_lem :
    (slot_id : BuildSlotId) (s : RuntimeState) (n : ℕ)
    → let text = slot_at s.active_build_slots slot_id in
      let points = build_points_for_discipline s in
      visit_slot slot_id (s, n) ≡ (
        record s {
          active_build_slots = set_slot slot_id (settle points slot_id text) s.active_build_slots;
        },
        n + dropped points slot_id text,
      )
unfolding visit_slot settle dropped
visit_slot_lem slot_id s n = ground (
  arith,
  set_slot_self s.active_build_slots slot_id,
  should_deactivate-is_stale s slot_id (find_option (slot_at s.active_build_slots slot_id)),
)

-- The same for a list of slots, over the array alone.
settle_all : (BuildDiscipline → ℕ) → List BuildSlotId → Slots × ℕ → Slots × ℕ
unfolding settle dropped
settle_all points [] acc = acc
settle_all points (slot_id ∷ rest) (slots, n) = settle_all points rest (
  set_slot slot_id (settle points slot_id (slot_at slots slot_id)) slots,
  n + dropped points slot_id (slot_at slots slot_id),
)

visit_slots_lem :
    (ids : List BuildSlotId) (s : RuntimeState) (slots : Slots) (n : ℕ)
    → let (after, count) = settle_all (build_points_for_discipline s) ids (slots, n) in
      visit_slots ids (record s { active_build_slots = slots }, n)
      ≡ (record s { active_build_slots = after }, count)
unfolding visit_slots settle_all
visit_slots_lem [] s slots n = refl
visit_slots_lem (slot_id ∷ rest) s slots n =
    rw
      (
        visit_slot_lem slot_id (record s { active_build_slots = slots }) n,
        fun_ext (points_of_slots s slots),
      )
      (visit_slots_lem rest s
        (set_slot slot_id (settle (build_points_for_discipline s) slot_id (slot_at slots slot_id))
          slots)
        (n + dropped (build_points_for_discipline s) slot_id (slot_at slots slot_id)))

-- The array after the loop, slot by slot, and how many slots it emptied.
abbrev pub settled : (BuildDiscipline → ℕ) → Slots → Slots
settled points slots = record {
  at0 = settle points attack1 slots.at0;
  at1 = settle points attack2 slots.at1;
  at2 = settle points defense1 slots.at2;
  at3 = settle points utility1 slots.at3;
  at4 = settle points utility2 slots.at4;
  at5 = settle points wildcard1 slots.at5;
}

abbrev pub dropped_slots : (BuildDiscipline → ℕ) → Slots → ℕ
dropped_slots points slots =
    0
    + dropped points attack1 slots.at0
    + dropped points attack2 slots.at1
    + dropped points defense1 slots.at2
    + dropped points utility1 slots.at3
    + dropped points utility2 slots.at4
    + dropped points wildcard1 slots.at5

pub visit_layout_lem :
    (s : RuntimeState)
    → visit_slots initial_build_slot_layout (s, 0) ≡ (
      record s {
        active_build_slots = settled (build_points_for_discipline s) s.active_build_slots;
      },
      dropped_slots (build_points_for_discipline s) s.active_build_slots,
    )
unfolding settle_all
visit_layout_lem s = visit_slots_lem initial_build_slot_layout s s.active_build_slots 0

is_stale_iff :
    (points : BuildDiscipline → ℕ) (slot_id : BuildSlotId) (o : Option BuildOptionDef)
    → (is_stale points slot_id o ≡ false) ↔ MayStand points slot_id o
unfolding is_stale
is_stale_iff points slot_id none = (λ h. cc, λ h. absurd h)
is_stale_iff points slot_id (some o) = ground (arith, is_slot_compatible_iff o slot_id)

-- A slot that is valid at the points keeps its text and is not counted; any other is emptied and
-- counted.
pub settle-IsValidSlot :
    (points : BuildDiscipline → ℕ) (slots : Slots) (slot_id : BuildSlotId)
    → IsValidSlot points slots slot_id
    → (settle points slot_id (slot_at slots slot_id) ≡ slot_at slots slot_id)
      × (dropped points slot_id (slot_at slots slot_id) ≡ 0)
unfolding settle dropped
settle-IsValidSlot points slots slot_id h =
    ground (arith, is_stale_iff points slot_id (find_option (slot_at slots slot_id)))

pub settle-not_valid :
    (points : BuildDiscipline → ℕ) (slots : Slots) (slot_id : BuildSlotId)
    → ¬ IsValidSlot points slots slot_id
    → (settle points slot_id (slot_at slots slot_id) ≡ "")
      × (dropped points slot_id (slot_at slots slot_id) ≡ 1)
unfolding settle dropped
settle-not_valid points slots slot_id h = elim (Bool-cases (is_empty (slot_at slots slot_id))) [
  | inl e ↦ absurd (h (inl e))
  | inr e ↦ elim (Bool-cases (is_stale points slot_id (find_option (slot_at slots slot_id)))) [
    | inl stale ↦ ground arith
    | inr fresh ↦ absurd (h (inr ((is_stale_iff points slot_id _).0 fresh)))
  ]
]

pub slot_at-settled :
    (points : BuildDiscipline → ℕ) (slots : Slots) (slot_id : BuildSlotId)
    → slot_at (settled points slots) slot_id ≡ settle points slot_id (slot_at slots slot_id)
slot_at-settled points slots attack1 = refl
slot_at-settled points slots attack2 = refl
slot_at-settled points slots defense1 = refl
slot_at-settled points slots utility1 = refl
slot_at-settled points slots utility2 = refl
slot_at-settled points slots wildcard1 = refl

settle_valid :
    (points : BuildDiscipline → ℕ) (slot_id : BuildSlotId) (text : String)
    → (is_empty (settle points slot_id text) ≡ true)
      ⊎ MayStand points slot_id (find_option (settle points slot_id text))
unfolding settle
settle_valid points slot_id text = elim (Bool-cases (is_empty text)) [
  | inl e ↦ rw (e, is_dropped) (inl e)
  | inr e ↦ elim (Bool-cases (is_stale points slot_id (find_option text))) [
    | inl stale ↦ rw (e, stale, is_dropped) (inl refl)
    | inr fresh ↦ rw (e, fresh, is_dropped) (inr ((is_stale_iff points slot_id _).0 fresh))
  ]
]

-- After the loop every slot is valid.
pub settled-IsValidSlot :
    (points : BuildDiscipline → ℕ) (slots : Slots) (slot_id : BuildSlotId)
    → IsValidSlot points (settled points slots) slot_id
settled-IsValidSlot points slots slot_id =
    rw (slot_at-settled points slots slot_id) (settle_valid points slot_id (slot_at slots slot_id))

-- ===== src/Build/Migration/Remap.antt =====
-- src/BuildProgression.cpp, RemapLegacyOptionId: what becomes of the option id in a slot.
use text.Mathlib.Text.{◌==◌ as str_eq}
use text.Mathlib.TextEquality.{eq_iff}
use codex_of_power_ng.Base.{
  ◌≡◌, ◌≢◌, refl, true, false, String, inl, inr, Bool-cases, is_empty, leb, ◌≤◌, arith, sym, subst,
  Option,
}
use codex_of_power_ng.Build.Types.{
  BuildSlotId, attack1, attack2, defense1, utility1, utility2, wildcard1, pending_cleanup,
}
use codex_of_power_ng.Build.Slots.{Slots, map_slots, slot_at}
use codex_of_power_ng.Build.Progression.FormTypes.{FormType}
use codex_of_power_ng.Build.Types.{BuildDiscipline}
use codex_of_power_ng.Build.Migration.{
  normalize_slot, remap_legacy_option_id, normalize_current, normalize_by_version,
  normalize_active_slot_option_ids, normalize_loaded_snapshot,
}
use codex_of_power_ng.Build.Migration.Normal.{IsUnretired}
use codex_of_power_ng.State.{FormId}
use codex_of_power_ng.State.Snapshot.{Snapshot}

-- The three wards became one ward and the two cures one cure; every other text stays.
abbrev pub IsRemapped : String → String → Type 0
IsRemapped t t' =
    (IsUnretired t → t' ≡ t)
    × ((t ≡ "build.defense.fireward" → t' ≡ "build.defense.elementalWard")
        × ((t ≡ "build.defense.frostward" → t' ≡ "build.defense.elementalWard")
            × ((t ≡ "build.defense.stormward" → t' ≡ "build.defense.elementalWard")
                × ((t ≡ "build.defense.antidote" → t' ≡ "build.defense.purification")
                    × (t ≡ "build.defense.purity" → t' ≡ "build.defense.purification")))))

not_eq : (t x : String) → t ≢ x → str_eq t x ≡ false
not_eq t x n = elim (Bool-cases (str_eq t x)) [ inl e ↦ absurd (n ((eq_iff t x).0 e)) | inr f ↦ f ]

unretired_kept : (t : String) → IsUnretired t → remap_legacy_option_id t ≡ t
unfolding remap_legacy_option_id
unretired_kept t h =
    rw
      (
        not_eq t _ h.0,
        not_eq t _ h.1.0,
        not_eq t _ h.1.1.0,
        not_eq t _ h.1.1.1.0,
        not_eq t _ h.1.1.1.1.0,
      )
      refl

normalize_slot-IsRemapped : (t : String) → IsRemapped t (normalize_slot t)
unfolding normalize_slot
normalize_slot-IsRemapped t = (
  (λ h. elim (Bool-cases (is_empty t)) [ inl e ↦ rw e refl | inr e ↦ rw e (unretired_kept t h) ]),
  ((λ e. rw e refl), ((λ e. rw e refl), ((λ e. rw e refl), ((λ e. rw e refl), λ e. rw e refl)))),
)

abbrev pub HasRemapped : Slots → Slots → Type 0
HasRemapped slots slots' = (k : BuildSlotId) → IsRemapped (slot_at slots k) (slot_at slots' k)

mapped-HasRemapped : (slots : Slots) → HasRemapped slots (map_slots normalize_slot slots)
mapped-HasRemapped slots attack1 = normalize_slot-IsRemapped slots.at0
mapped-HasRemapped slots attack2 = normalize_slot-IsRemapped slots.at1
mapped-HasRemapped slots defense1 = normalize_slot-IsRemapped slots.at2
mapped-HasRemapped slots utility1 = normalize_slot-IsRemapped slots.at3
mapped-HasRemapped slots utility2 = normalize_slot-IsRemapped slots.at4
mapped-HasRemapped slots wildcard1 = normalize_slot-IsRemapped slots.at5

normalize_current-slots :
    (s : Snapshot)
    → s.build_migration_state ≢ pending_cleanup
    → (normalize_current s).active_build_slots ≡ s.active_build_slots
unfolding normalize_current
normalize_current-slots s n = ground arith

-- A save of the current version without a pending cleanup keeps its slots, with the retired ids
-- remapped.
pub loaded-HasRemapped :
    (lookup_form : FormId → Option FormType) (resolver : Option (FormId → Option BuildDiscipline))
    (s : Snapshot)
    → 2 ≤ s.build_migration_version
    → s.build_migration_state ≢ pending_cleanup
    → HasRemapped s.active_build_slots
        (normalize_loaded_snapshot lookup_form resolver s).active_build_slots
unfolding normalize_loaded_snapshot normalize_active_slot_option_ids
loaded-HasRemapped l r s v n =
    let e : leb 2 s.build_migration_version ≡ true = ground arith in
    let t = normalize_active_slot_option_ids s in
    subst (HasRemapped s.active_build_slots)
      (sym
        (unfold normalize_by_version in rw (e, normalize_by_version) (normalize_current-slots t n)))
      (mapped-HasRemapped s.active_build_slots)

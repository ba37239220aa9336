-- ===== src/Build/Migration/Normal.antt =====
-- src/BuildProgression.cpp: snapshots that no further load changes, and the retired option ids.
use codex_of_power_ng.Base.{
  ◌≤◌, ◌≡◌, ◌≢◌, refl, ap, sym, subst, not, All, ◌∙◌, Bool, true, false, List, [], ◌∷◌, String, map,
  is_empty, inl, inr, Bool-cases,
}
use mathlib.Core.Bool.{true≢false as true-ne-false}
use codex_of_power_ng.Build.Types.{
  BuildSlotId, attack1, attack2, defense1, utility1, utility2, wildcard1, pending_cleanup, complete,
}
use codex_of_power_ng.Build.Slots.{Slots, no_slots, map_slots, slot_at}
use codex_of_power_ng.Build.Migration.{
  strip_record, normalize_slot, remap_legacy_option_id, is_retired_ward, is_retired_cure,
}
use codex_of_power_ng.State.Snapshot.{Snapshot}

-- The ids that the current catalogue no longer has.
abbrev pub retired_option_ids : List String
retired_option_ids =
    "build.defense.fireward" ∷ "build.defense.frostward" ∷ "build.defense.stormward"
    ∷ "build.defense.antidote" ∷ "build.defense.purity" ∷ []

abbrev pub IsUnretired : String → Type 0
IsUnretired t = All (λ id. t ≢ id) retired_option_ids

pub HasUnretired : Slots → Type 0
HasUnretired slots = (k : BuildSlotId) → IsUnretired (slot_at slots k)

-- No further load would change it: the version is current, no slot names one of the retired
-- options, so that mapping them again changes nothing, a pending cleanup has no active slot, and a
-- finished one no reward delta to undo.
pub record IsNormal (s : Snapshot) : Type 0 where
  pub current : 2 ≤ s.build_migration_version
  pub unretired : HasUnretired s.active_build_slots
  pub slots : map_slots normalize_slot s.active_build_slots ≡ s.active_build_slots
  pub pending : s.build_migration_state ≡ pending_cleanup → s.active_build_slots ≡ no_slots
  pub finished :
      s.build_migration_state ≡ complete → map strip_record s.undo_history ≡ s.undo_history

-- A text that some test tells from a literal is not that literal.
differs : (test : String → Bool) (t x : String) (b : Bool) → test x ≡ not b → test t ≡ b → t ≢ x
differs test t x true p q e = true-ne-false (sym q ∙ ap test e ∙ p)
differs test t x false p q e = true-ne-false (sym p ∙ ap test (sym e) ∙ q)

-- What is neither a retired ward nor a retired cure is none of the five.
kept_slot-IsUnretired :
    (t : String) → is_retired_ward t ≡ false → is_retired_cure t ≡ false → IsUnretired t
unfolding is_retired_ward is_retired_cure
kept_slot-IsUnretired t w c = (
  differs is_retired_ward t _ false refl w,
  (
    differs is_retired_ward t _ false refl w,
    (
      differs is_retired_ward t _ false refl w,
      (differs is_retired_cure t _ false refl c, (differs is_retired_cure t _ false refl c, tt)),
    ),
  ),
)

normalize_slot-IsUnretired : (t : String) → IsUnretired (normalize_slot t)
normalize_slot-IsUnretired t = elim (Bool-cases (is_empty t)) [
  | inl e ↦
      let d = λ (x : String) (p : is_empty x ≡ false). differs is_empty t x true p e in
      unfold normalize_slot in rw e (d _ refl, (d _ refl, (d _ refl, (d _ refl, (d _ refl, tt)))))
  | inr e ↦ elim (Bool-cases (is_retired_ward t)) [
    | inl w ↦
        unfold normalize_slot is_retired_ward is_retired_cure in
        rw (e, w, remap_legacy_option_id)
          (kept_slot-IsUnretired "build.defense.elementalWard" refl refl)
    | inr w ↦ elim (Bool-cases (is_retired_cure t)) [
      | inl c ↦
          unfold normalize_slot is_retired_ward is_retired_cure in
          rw (e, w, c, remap_legacy_option_id)
            (kept_slot-IsUnretired "build.defense.purification" refl refl)
      | inr c ↦
          unfold normalize_slot in
          rw (e, w, c, remap_legacy_option_id) (kept_slot-IsUnretired t w c)
    ]
  ]
]

mapped-HasUnretired : (slots : Slots) → HasUnretired (map_slots normalize_slot slots)
unfolding HasUnretired
mapped-HasUnretired slots attack1 = normalize_slot-IsUnretired slots.at0
mapped-HasUnretired slots attack2 = normalize_slot-IsUnretired slots.at1
mapped-HasUnretired slots defense1 = normalize_slot-IsUnretired slots.at2
mapped-HasUnretired slots utility1 = normalize_slot-IsUnretired slots.at3
mapped-HasUnretired slots utility2 = normalize_slot-IsUnretired slots.at4
mapped-HasUnretired slots wildcard1 = normalize_slot-IsUnretired slots.at5

-- Slots that the mapping leaves alone name no retired option.
pub fixed-HasUnretired :
    (slots : Slots) → map_slots normalize_slot slots ≡ slots → HasUnretired slots
fixed-HasUnretired slots e = subst HasUnretired e (mapped-HasUnretired slots)

pub empty_slots_normal : (slots : Slots) → slots ≡ no_slots → map_slots normalize_slot slots ≡ slots
empty_slots_normal slots e = rw e (unfold normalize_slot in refl)

pub empty-HasUnretired : (slots : Slots) → slots ≡ no_slots → HasUnretired slots
empty-HasUnretired slots e = fixed-HasUnretired slots (empty_slots_normal slots e)

-- ===== src/Tests/Migration.antt =====
-- The migration of saves at concrete inputs.
use mathlib.Core.List.Perm
use codex_of_power_ng.Base.{
  ℕ, ◌+◌, ◌≡◌, ◌↔◌, ◌⊎◌, ◌≤◌, refl, true, Option, none, some, List, [], ◌∷◌, arith, ◌==◌,
  if◌then◌else◌,
}
use codex_of_power_ng.Build.Types.{BuildDiscipline, pending_cleanup}
use codex_of_power_ng.Build.Progression.FormTypes.{
  FormType, weapon, armor, try_resolve_discipline_from_form_type,
  resolve_build_points_for_form_type, try_resolve_legacy_discipline,
}
use codex_of_power_ng.Build.Migration.{
  normalize_loaded_snapshot, try_finalize_pending_migration, consume_migration_notice, clear_slots,
  run_cleanup,
}
use codex_of_power_ng.Build.Migration.Derived.{derive_items}
use codex_of_power_ng.Build.Migration.Laws.{
  normalize_idem, try_finalize_correct, consume_notice_once,
}
use codex_of_power_ng.Build.Migration.Derivation.{HasTotals, migrated_totals, migrated_order}
use codex_of_power_ng.Build.Migration.Conservation.{migrated_scores_add_up}
use codex_of_power_ng.State.{FormId}
use codex_of_power_ng.State.Snapshot.{Snapshot, empty_snapshot}

-- A game that knows a weapon, 10, and an armor, 11.
abbrev forms : FormId → Option FormType
forms id = if id == 10 then some weapon else if id == 11 then some armor else none

-- An old save: the two forms, a form that is gone but has a group, and one that is quite unknown.
abbrev old_save : Snapshot
old_save = record empty_snapshot {
  registered_items = (10, 0) ∷ (11, 1) ∷ (12, 4) ∷ (13, 255) ∷ [];
  reward_totals = (24, 1065353216) ∷ [];
}

old_save_migrated :
    let s = normalize_loaded_snapshot forms none old_save in
    (s.attack_build_points_centi ≡ 70)
    × (s.defense_build_points_centi ≡ 30)
    × (s.utility_build_points_centi ≡ 10)
    × (s.build_migration_state ≡ pending_cleanup)
    × (s.build_migration_notice.unresolved_historical_registrations ≡ 1)
unfolding normalize_loaded_snapshot derive_items try_resolve_discipline_from_form_type
    resolve_build_points_for_form_type try_resolve_legacy_discipline
old_save_migrated = (refl, refl, refl, refl, refl)

normalize_idem_example :
    normalize_loaded_snapshot forms none (normalize_loaded_snapshot forms none old_save)
    ≡ normalize_loaded_snapshot forms none old_save
normalize_idem_example = normalize_idem forms none old_save

migrated_totals_example :
    HasTotals forms none old_save
      (normalize_loaded_snapshot forms none old_save)
      BuildDiscipline.attack
migrated_totals_example =
    migrated_totals forms none old_save BuildDiscipline.attack (omega arith) tt

abbrev swapped_items : List (FormId × ℕ)
swapped_items = (11, 1) ∷ (10, 0) ∷ (12, 4) ∷ (13, 255) ∷ []

migrated_order_example :
    let t = normalize_loaded_snapshot forms none old_save in
    let u =
      normalize_loaded_snapshot forms none (record old_save { registered_items = swapped_items }) in
    (t.attack_score ≡ u.attack_score) × (t.attack_build_points_centi ≡ u.attack_build_points_centi)
migrated_order_example =
    migrated_order forms none old_save swapped_items BuildDiscipline.attack (omega arith) tt
      (Perm.swap (11, 1) (10, 0) ((12, 4) ∷ (13, 255) ∷ []))

migrated_scores_add_up_example :
    let t = normalize_loaded_snapshot forms none old_save in
    t.attack_score + t.defense_score + t.utility_score
      + t.build_migration_notice.unresolved_historical_registrations
    ≡ 4
migrated_scores_add_up_example =
    migrated_scores_add_up forms old_save (omega arith) (λ e. cc) (omega arith)

abbrev pending_save : Snapshot
pending_save = record old_save {
  build_migration_version = 2;
  build_migration_state = pending_cleanup;
}

try_finalize_correct_example :
    ((try_finalize_pending_migration (some (λ s. true)) pending_save).1 ≡ true) ↔ (
      (2 ≤ 2)
      × (pending_cleanup ≡ pending_cleanup)
      × ((pending_save.reward_totals ≡ [])
          ⊎ (run_cleanup (some (λ s. true)) (clear_slots pending_save) ≡ true)))
try_finalize_correct_example = (try_finalize_correct (some (λ s. true)) pending_save).0

consume_notice_once_example :
    let (t, notice) = consume_migration_notice (normalize_loaded_snapshot forms none old_save) in
    consume_migration_notice t ≡ (t, none)
consume_notice_once_example =
    (consume_notice_once (normalize_loaded_snapshot forms none old_save)).1

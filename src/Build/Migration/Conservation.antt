-- ===== src/Build/Migration/Conservation.antt =====
-- With the game's own lookup, no registered item is lost or counted twice by the migration.
use codex_of_power_ng.Base.{ℕ, ◌+◌, ◌<◌, ◌≡◌, ◌≢◌, Option, none, List, [], ◌∷◌, arith, length}
use codex_of_power_ng.Build.Types.{BuildDiscipline}
use codex_of_power_ng.Build.Progression.FormTypes.{
  FormType, try_resolve_discipline_from_form_type, try_resolve_legacy_discipline,
  resolve_build_points_for_form_type,
}
use codex_of_power_ng.Build.Migration.{normalize_loaded_snapshot}
use codex_of_power_ng.Build.Migration.Derived.{resolve_item}
use codex_of_power_ng.Build.Migration.Derivation.{records_of, misses_of, total, migrated_totals}
use codex_of_power_ng.State.{FormId}
use codex_of_power_ng.State.Snapshot.{Snapshot}

module _ (lookup_form : FormId → Option FormType) where
  item_counts_once :
      (item : FormId × ℕ)
      → let o = resolve_item lookup_form none item in
        records_of BuildDiscipline.attack o
          + records_of BuildDiscipline.defense o
          + records_of BuildDiscipline.utility o
          + misses_of o
        ≡ 1
  unfolding resolve_item try_resolve_discipline_from_form_type resolve_build_points_for_form_type
      try_resolve_legacy_discipline
  item_counts_once (form_id, group) = ground arith

  items_count_once :
      (items : List (FormId × ℕ))
      → let resolve = resolve_item lookup_form none in
        total (λ i. records_of BuildDiscipline.attack (resolve i)) items
          + total (λ i. records_of BuildDiscipline.defense (resolve i)) items
          + total (λ i. records_of BuildDiscipline.utility (resolve i)) items
          + total (λ i. misses_of (resolve i)) items
        ≡ length items
  items_count_once [] = omega arith
  items_count_once (item ∷ items) = omega (arith, item_counts_once item, items_count_once items)

  -- After the migration of an old save with fewer than 2 ^ 32 registered items and at least one, the
  -- three scores and the number of unresolved items of the notice add up to the number of items.
  pub migrated_scores_add_up :
      (s : Snapshot)
      → s.build_migration_version < 2
      → s.registered_items ≢ []
      → length s.registered_items < 0x1_0000_0000
      → let t = normalize_loaded_snapshot lookup_form none s in
        t.attack_score + t.defense_score + t.utility_score
          + t.build_migration_notice.unresolved_historical_registrations
        ≡ length s.registered_items
  migrated_scores_add_up s old some_item few =
      let attack = migrated_totals lookup_form none s BuildDiscipline.attack old tt in
      let defense = migrated_totals lookup_form none s BuildDiscipline.defense old tt in
      let utility = migrated_totals lookup_form none s BuildDiscipline.utility old tt in
      omega (
        arith,
        attack.0,
        defense.0,
        utility.0,
        attack.2 some_item,
        items_count_once s.registered_items,
      )

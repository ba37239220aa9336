-- ===== src/Build/Migration.antt =====
-- src/BuildProgression.cpp: the migration of a loaded save, and the end of a pending cleanup.
-- `RE::TESForm::LookupByID` is an argument: the form type of an identifier, if the game has it.
pub mod Derived
pub mod Normal
pub mod Remap
pub mod Laws
pub mod Derivation
pub mod Conservation
pub mod Kept
use text.Mathlib.Text.{◌==◌ as str_eq}
use codex_of_power_ng.Base.{
  ℕ, Bool, true, false, ◌||◌, not, Option, none, some, List, [], ◌∷◌, String, map, ltb, leb,
  is_empty, if◌then◌else◌,
}
use codex_of_power_ng.Base.Word.{add32}
use codex_of_power_ng.Build.Types.{
  BuildDiscipline, BuildMigrationState, BuildMigrationNoticeSnapshot, pending_cleanup, complete,
  empty_notice,
}
use codex_of_power_ng.Build.Slots.{no_slots, map_slots}
use codex_of_power_ng.Build.StateStore.{is_pending}
use codex_of_power_ng.Build.Progression.FormTypes.{
  FormType, resolve_build_points_for_form_type, try_resolve_discipline_from_form_type,
  try_resolve_legacy_discipline,
}
use codex_of_power_ng.State.{FormId, UndoRecord}
use codex_of_power_ng.State.Snapshot.{Snapshot}
use Derived.{derive_items}

abbrev pub build_migration_version : ℕ
build_migration_version = 2

-- `empty()` of a container.
abbrev pub is_nil {ℓ} : {A : Type ℓ} → List A → Bool
is_nil [] = true
is_nil (x ∷ xs) = false

has_legacy_undo_reward_deltas : List UndoRecord → Bool
has_legacy_undo_reward_deltas [] = false
has_legacy_undo_reward_deltas (r ∷ rest) =
    not (is_nil r.reward_deltas) || has_legacy_undo_reward_deltas rest

pub strip_record : UndoRecord → UndoRecord
strip_record r = record r { reward_deltas = [] }

abbrev pub clear_slots : Snapshot → Snapshot
clear_slots snapshot = record snapshot { active_build_slots = no_slots }

strip_legacy_undo_reward_deltas : Snapshot → Snapshot
unfolding strip_record
strip_legacy_undo_reward_deltas snapshot = record snapshot {
  undo_history = map strip_record snapshot.undo_history;
}

-- The options that were merged into one ward, and into one cure.
is_retired_ward : String → Bool
is_retired_ward option_id =
    str_eq option_id "build.defense.fireward"
    || (str_eq option_id "build.defense.frostward" || str_eq option_id "build.defense.stormward")

is_retired_cure : String → Bool
is_retired_cure option_id =
    str_eq option_id "build.defense.antidote" || str_eq option_id "build.defense.purity"

remap_legacy_option_id : String → String
unfolding is_retired_ward is_retired_cure
remap_legacy_option_id option_id =
    if is_retired_ward option_id
    then "build.defense.elementalWard"
    else if is_retired_cure option_id
    then "build.defense.purification"
    else option_id

pub normalize_slot : String → String
unfolding remap_legacy_option_id
normalize_slot slot = if is_empty slot then slot else remap_legacy_option_id slot

normalize_active_slot_option_ids : Snapshot → Snapshot
unfolding normalize_slot
normalize_active_slot_option_ids snapshot = record snapshot {
  active_build_slots = map_slots normalize_slot snapshot.active_build_slots;
}

is_complete : BuildMigrationState → Bool
is_complete complete = true
is_complete _ = false

-- A save of the current version: only the unfinished parts of its migration are done.
normalize_current : Snapshot → Snapshot
unfolding strip_legacy_undo_reward_deltas is_complete
normalize_current s =
    if is_pending s.build_migration_state
    then clear_slots s
    else if is_complete s.build_migration_state
    then strip_legacy_undo_reward_deltas s
    else s

zero_scores : Snapshot → Snapshot
zero_scores s = record s {
  attack_score = 0;
  defense_score = 0;
  utility_score = 0;
  attack_build_points_centi = 0;
  defense_build_points_centi = 0;
  utility_build_points_centi = 0;
}

-- The end of the migration, after the scores are derived.
finish_migration : Bool → Bool → Bool → ℕ → Snapshot → Snapshot
unfolding strip_legacy_undo_reward_deltas
finish_migration had_registrations had_rewards had_undo unresolved snapshot =
    let s = record snapshot {
      build_migration_version = build_migration_version;
      build_migration_notice = empty_notice;
    } in
    if not (had_registrations || (had_rewards || had_undo))
    then record s { build_migration_state = complete }
    else let noted = record s {
      build_migration_notice = record {
        needs_notice = true;
        legacy_rewards_migrated = had_rewards;
        unresolved_historical_registrations = unresolved;
      };
    } in
      if had_rewards
      then record noted { build_migration_state = pending_cleanup }
      else strip_legacy_undo_reward_deltas (record noted { build_migration_state = complete })

migrate_legacy :
    (FormId → Option FormType) → Option (FormId → Option BuildDiscipline) → Snapshot → Snapshot
unfolding finish_migration zero_scores has_legacy_undo_reward_deltas
migrate_legacy lookup_form resolver s =
    let (derived, unresolved) =
      derive_items lookup_form resolver s.registered_items (clear_slots (zero_scores s), 0) in
    finish_migration (not (is_nil s.registered_items)) (not (is_nil s.reward_totals))
      (has_legacy_undo_reward_deltas s.undo_history) unresolved derived

normalize_by_version :
    (FormId → Option FormType) → Option (FormId → Option BuildDiscipline) → Snapshot → Snapshot
unfolding normalize_current migrate_legacy
normalize_by_version lookup_form resolver s =
    if leb build_migration_version s.build_migration_version
    then normalize_current s
    else migrate_legacy lookup_form resolver s

unfoldable pub normalize_loaded_snapshot :
    (FormId → Option FormType) → Option (FormId → Option BuildDiscipline) → Snapshot → Snapshot
unfolding normalize_active_slot_option_ids normalize_by_version
normalize_loaded_snapshot lookup_form resolver snapshot =
    normalize_by_version lookup_form resolver (normalize_active_slot_option_ids snapshot)

-- `cleanup && cleanup(snapshot)`
pub run_cleanup : Option (Snapshot → Bool) → Snapshot → Bool
run_cleanup none s = false
run_cleanup (some clean) s = clean s

-- `TryFinalizePendingMigration`; the cleanup is a function of the snapshot, or absent.
unfoldable pub try_finalize_pending_migration :
    Option (Snapshot → Bool) → Snapshot → Snapshot × Bool
unfolding strip_legacy_undo_reward_deltas is_complete run_cleanup
try_finalize_pending_migration cleanup s =
    if ltb s.build_migration_version build_migration_version
    then (s, false)
    else if not (is_pending s.build_migration_state)
    then (
      if is_complete s.build_migration_state then strip_legacy_undo_reward_deltas s else s,
      false,
    )
    else let cleared = clear_slots s in
      if is_nil cleared.reward_totals || run_cleanup cleanup cleared
      then (
        strip_legacy_undo_reward_deltas (record cleared {
          reward_totals = [];
          build_migration_version = build_migration_version;
          build_migration_state = complete;
        }),
        true,
      )
      else (cleared, false)

-- `ConsumeMigrationNotice`
unfoldable pub consume_migration_notice : Snapshot → Snapshot × Option BuildMigrationNoticeSnapshot
consume_migration_notice s = if not s.build_migration_notice.needs_notice then (s, none) else (
  record s { build_migration_notice = record (s.build_migration_notice) { needs_notice = false } },
  some s.build_migration_notice,
)

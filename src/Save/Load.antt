-- ===== src/Save/Load.antt =====
-- src/SerializationLoad.cpp: `Load`, and `Revert` of src/SerializationSave.cpp.
use codex_of_power_ng.Base.{Option, none, some, List, [], ◌∷◌, ◌==◌, ◌>>=◌, if◌then◌else◌}
use codex_of_power_ng.Build.Migration.{normalize_loaded_snapshot}
use codex_of_power_ng.Registration.QuickList.{QuickListState, invalidate_quick_register_cache}
use codex_of_power_ng.State.{RuntimeState}
use codex_of_power_ng.State.Snapshot.{Snapshot, replace_state, clear, empty_snapshot}
use codex_of_power_ng.Save.Format.{
  SavedRecord, LoadEnv, record_registered_items, record_blocked_items, record_notified_items,
  record_rewards, record_undo_history, record_build_scores, record_build_slots,
  record_build_migration, record_build_applied_effects,
}
use codex_of_power_ng.Save.Loader.Entries.{
  load_registered, load_ids, load_rewards, load_build_applied_effects,
}
use codex_of_power_ng.Save.Loader.Build.{load_build_scores, load_build_slots, load_build_migration}
use codex_of_power_ng.Save.Loader.Undo.{load_undo_history}

-- The `switch` on the record's type; a record of an unknown type is skipped.
unfoldable pub load_record : LoadEnv → SavedRecord → Snapshot → Option Snapshot
load_record env r s =
    if r.record_type == record_registered_items
    then load_registered env r.version r.announced r.content s
    else if r.record_type == record_blocked_items
    then (do
      ids ← load_ids env r.announced r.content s.blocked_items
      some (record s { blocked_items = ids }))
    else if r.record_type == record_notified_items
    then (do
      ids ← load_ids env r.announced r.content s.notified_items
      some (record s { notified_items = ids }))
    else if r.record_type == record_build_scores
    then load_build_scores r.version r.announced r.content s
    else if r.record_type == record_build_slots
    then load_build_slots env r.version r.announced r.content s
    else if r.record_type == record_build_migration
    then load_build_migration r.version r.announced r.content s
    else if r.record_type == record_rewards
    then load_rewards env r.announced r.content s
    else if r.record_type == record_build_applied_effects
    then load_build_applied_effects env r.version r.announced r.content s
    else if r.record_type == record_undo_history
    then load_undo_history env r.version r.announced r.content s
    else some s

-- The loop over `GetNextRecordInfo`: none where `Load` returns with an error.
unfoldable pub load_records : LoadEnv → List SavedRecord → Snapshot → Option Snapshot
unfolding load_record
load_records env [] s = some s
load_records env (r ∷ rest) s = do s' ← load_record env r s; load_records env rest s'

-- The end of `Load`, on what its loop gave.
abbrev pub finish_load :
    {A : Type 0}
    → LoadEnv
    → Option Snapshot
    → RuntimeState × QuickListState A
    → RuntimeState × QuickListState A
finish_load env none (state, quick_list) = (state, quick_list)
finish_load env (some loaded) (state, quick_list) = (
  replace_state state (normalize_loaded_snapshot env.lookup_form none loaded),
  invalidate_quick_register_cache quick_list,
)

unfoldable pub load :
    {A : Type 0}
    → LoadEnv
    → List SavedRecord
    → RuntimeState × QuickListState A
    → RuntimeState × QuickListState A
unfolding load_records
load env records world = finish_load env (load_records env records empty_snapshot) world

unfoldable pub revert :
    {A : Type 0} → RuntimeState × QuickListState A → RuntimeState × QuickListState A
revert (state, quick_list) = (clear state 1, invalidate_quick_register_cache quick_list)

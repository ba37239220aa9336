-- ===== src/Save/Writer.antt =====
-- src/SerializationSave.cpp and include/CodexOfPowerNG/SerializationWriteFlow.h: the writing of the
-- nine records. Each writer is the sequence of its `WriteRecordData` calls, which stops at the first
-- one that fails; `accepts n` tells whether the interface accepts its n-th call.
use codex_of_power_ng.Base.{
  ℕ, ◌+◌, ◌%◌, Bool, true, false, ◌&&◌, Option, none, some, List, [], ◌∷◌, ◌++◌, length,
  if◌then◌else◌,
}
use codex_of_power_ng.Base.Int.{pos}
use codex_of_power_ng.Build.Types.{
  BuildDiscipline, BuildMigrationState, not_started, pending_cleanup, complete,
}
use codex_of_power_ng.State.{UndoRecord, RewardDelta, BuildScoreContribution}
use codex_of_power_ng.State.Snapshot.{Snapshot}
use codex_of_power_ng.Save.Bytes.{Bytes, put8, put32, put64, bits_of_int}
use codex_of_power_ng.Save.Format.{
  SavedRecord, TextCodec, serialization_version, undo_record_version, record_registered_items,
  record_blocked_items, record_notified_items, record_rewards, record_undo_history,
  record_build_scores, record_build_slots, record_build_migration, record_build_applied_effects,
}

-- The records written so far, the last one being open, and the calls made.
pub record CoSave : Type 0 where
  pub records : List SavedRecord
  pub calls : ℕ

abbrev pub extend : SavedRecord → Bytes → SavedRecord
extend r bytes = record r { announced = r.announced + length bytes; content = r.content ++ bytes }

abbrev pub extend_last : List SavedRecord → Bytes → List SavedRecord
extend_last [] bytes = []
extend_last (r ∷ []) bytes = extend r bytes ∷ []
extend_last (r ∷ s ∷ rs) bytes = r ∷ extend_last (s ∷ rs) bytes

-- `static_cast<std::uint32_t>(size())`
abbrev pub size32 {ℓ} : {A : Type ℓ} → List A → ℕ
size32 xs = length xs % 0x1_0000_0000

-- The two chunks of `WriteString`; an empty text has no second one.
abbrev pub string_chunks : Bytes → List Bytes
string_chunks [] = put32 0 ∷ []
string_chunks (b ∷ bs) = put32 (size32 (b ∷ bs)) ∷ (b ∷ bs) ∷ []

abbrev pub pair_chunks : List (ℕ × ℕ) → List Bytes
pair_chunks [] = []
pair_chunks ((a, b) ∷ rest) = put32 a ∷ put32 b ∷ pair_chunks rest

abbrev pub id_chunks : List ℕ → List Bytes
id_chunks [] = []
id_chunks (a ∷ rest) = put32 a ∷ id_chunks rest

abbrev pub registered_chunks : Snapshot → List Bytes
registered_chunks s = put32 (size32 s.registered_items) ∷ pair_chunks s.registered_items

abbrev pub blocked_chunks : Snapshot → List Bytes
blocked_chunks s = put32 (size32 s.blocked_items) ∷ id_chunks s.blocked_items

abbrev pub notified_chunks : Snapshot → List Bytes
notified_chunks s = put32 (size32 s.notified_items) ∷ id_chunks s.notified_items

abbrev pub build_scores_chunks : Snapshot → List Bytes
build_scores_chunks s =
    put32 s.attack_score
    ∷ put32 s.defense_score
    ∷ put32 s.utility_score
    ∷ put32 s.attack_build_points_centi
    ∷ put32 s.defense_build_points_centi
    ∷ put32 s.utility_build_points_centi
    ∷ []

-- The array has six slots.
abbrev pub build_slots_chunks : TextCodec → Snapshot → List Bytes
build_slots_chunks codec s =
    let slots = s.active_build_slots in
    put32 6
    ∷ (string_chunks (codec.encode slots.at0)
        ++ (string_chunks (codec.encode slots.at1)
            ++ (string_chunks (codec.encode slots.at2)
                ++ (string_chunks (codec.encode slots.at3)
                    ++ (string_chunks (codec.encode slots.at4)
                        ++ string_chunks (codec.encode slots.at5))))))

abbrev pub raw_migration_state : BuildMigrationState → ℕ
raw_migration_state not_started = 0
raw_migration_state pending_cleanup = 1
raw_migration_state complete = 2
raw_migration_state (BuildMigrationState.other n) = n

abbrev pub raw_flag : Bool → ℕ
raw_flag true = 1
raw_flag false = 0

abbrev pub build_migration_chunks : Snapshot → List Bytes
build_migration_chunks s =
    put32 s.build_migration_version
    ∷ put32 (raw_migration_state s.build_migration_state)
    ∷ put8 (raw_flag s.build_migration_notice.needs_notice)
    ∷ put8 (raw_flag s.build_migration_notice.legacy_rewards_migrated)
    ∷ put32 s.build_migration_notice.unresolved_historical_registrations
    ∷ []

abbrev pub build_applied_effects_chunks : Snapshot → List Bytes
build_applied_effects_chunks s =
    put32 (size32 s.build_applied_effect_totals) ∷ pair_chunks s.build_applied_effect_totals

abbrev pub rewards_chunks : Snapshot → List Bytes
rewards_chunks s = put32 (size32 s.reward_totals) ∷ pair_chunks s.reward_totals

abbrev pub raw_discipline : BuildDiscipline → ℕ
raw_discipline BuildDiscipline.attack = 0
raw_discipline BuildDiscipline.defense = 1
raw_discipline BuildDiscipline.utility = 2
raw_discipline (BuildDiscipline.other n) = n

abbrev pub contribution_chunks : Option BuildScoreContribution → List Bytes
contribution_chunks none =
    put32 0 ∷ put32 0 ∷ put32 (bits_of_int (pos 0)) ∷ put32 (bits_of_int (pos 0)) ∷ []
contribution_chunks (some c) =
    put32 1
    ∷ put32 (raw_discipline c.discipline)
    ∷ put32 (bits_of_int c.record_delta)
    ∷ put32 (bits_of_int c.points_delta_centi)
    ∷ []

abbrev pub delta_chunks : List RewardDelta → List Bytes
delta_chunks [] = []
delta_chunks (d ∷ rest) = put32 d.av ∷ put32 d.delta ∷ delta_chunks rest

abbrev pub undo_entry_chunks : UndoRecord → List Bytes
undo_entry_chunks r =
    put64 r.action_id
    ∷ put32 r.form_id
    ∷ put32 r.reg_key
    ∷ put32 r.group
    ∷ (contribution_chunks r.build_contribution
        ++ (put32 (size32 r.reward_deltas) ∷ delta_chunks r.reward_deltas))

abbrev pub undo_entries_chunks : List UndoRecord → List Bytes
undo_entries_chunks [] = []
undo_entries_chunks (r ∷ rest) = undo_entry_chunks r ++ undo_entries_chunks rest

abbrev pub undo_chunks : Snapshot → List Bytes
undo_chunks s =
    put32 (size32 s.undo_history) ∷ put64 s.undo_next_action_id ∷ undo_entries_chunks s.undo_history

module _ (accepts : ℕ → Bool) where
  unfoldable pub open_record : ℕ → ℕ → CoSave → CoSave × Bool
  open_record t v w =
      if accepts w.calls
      then (
        record {
          records =
              w.records
              ++ (record { record_type = t; version = v; announced = 0; content = [] } ∷ []);
          calls = w.calls + 1;
        },
        true,
      )
      else (record w { calls = w.calls + 1 }, false)

  unfoldable pub write_data : Bytes → CoSave → CoSave × Bool
  write_data bytes w =
      if accepts w.calls
      then (record { records = extend_last w.records bytes; calls = w.calls + 1 }, true)
      else (record w { calls = w.calls + 1 }, false)

  -- The calls after one that fails are not made.
  unfoldable pub write_chunks : List Bytes → CoSave × Bool → CoSave × Bool
  unfolding write_data
  write_chunks chunks (w, false) = (w, false)
  write_chunks [] (w, true) = (w, true)
  write_chunks (c ∷ cs) (w, true) = write_chunks cs (write_data c w)

  unfoldable pub write_record : ℕ → ℕ → List Bytes → CoSave → CoSave × Bool
  unfolding open_record write_chunks
  write_record t v chunks w = write_chunks chunks (open_record t v w)

  -- One round of `ExecuteAllSaveWriters`: the writer runs in any case.
  unfoldable pub and_then_write : ℕ → ℕ → List Bytes → CoSave × Bool → CoSave × Bool
  unfolding write_record
  and_then_write t v chunks (w, all_ok) =
      let (w', ok) = write_record t v chunks w in (w', ok && all_ok)

  unfoldable pub save : TextCodec → Snapshot → CoSave × Bool
  unfolding and_then_write
  save codec s = and_then_write record_undo_history undo_record_version (undo_chunks s) (
      and_then_write record_rewards serialization_version (rewards_chunks s) (
        and_then_write record_build_applied_effects 1 (build_applied_effects_chunks s) (
          and_then_write record_build_migration 1 (build_migration_chunks s) (
            and_then_write record_build_slots 1 (build_slots_chunks codec s) (
              and_then_write record_build_scores 2 (build_scores_chunks s) (
                and_then_write record_notified_items serialization_version (notified_chunks s) (
                  and_then_write record_blocked_items serialization_version (blocked_chunks s) (
                    and_then_write record_registered_items serialization_version
                      (registered_chunks s) (record { records = []; calls = 0 }, true)))))))))

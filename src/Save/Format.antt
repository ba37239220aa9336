-- ===== src/Save/Format.antt =====
-- include/CodexOfPowerNG/Constants.h and the constants of src/SerializationSave.cpp and
-- SerializationLoad.cpp: the records of a co-save, and what a load takes from its surroundings.
use codex_of_power_ng.Base.{ℕ, Option, String}
use codex_of_power_ng.Build.Progression.FormTypes.{FormType}
use codex_of_power_ng.State.{FormId}
use codex_of_power_ng.Game.{FloatOps, ActorValues}
use codex_of_power_ng.Save.Bytes.{Bytes}

abbrev pub serialization_version : ℕ
serialization_version = 2

abbrev pub undo_record_version : ℕ
undo_record_version = 4

-- The types are four characters each, with the first one in the highest byte.
abbrev pub record_registered_items : ℕ
record_registered_items = 0x5245_4749

abbrev pub record_blocked_items : ℕ
record_blocked_items = 0x424c_434b

abbrev pub record_notified_items : ℕ
record_notified_items = 0x4e54_4659

abbrev pub record_rewards : ℕ
record_rewards = 0x5257_4453

abbrev pub record_undo_history : ℕ
record_undo_history = 0x554e_444f

abbrev pub record_build_scores : ℕ
record_build_scores = 0x4253_4352

abbrev pub record_build_slots : ℕ
record_build_slots = 0x4253_4c54

abbrev pub record_build_migration : ℕ
record_build_migration = 0x424d_4947

abbrev pub record_build_applied_effects : ℕ
record_build_applied_effects = 0x4245_4658

abbrev pub group_unknown : ℕ
group_unknown = 255

abbrev pub max_serialized_reward_entries : ℕ
max_serialized_reward_entries = 256

abbrev pub max_serialized_undo_reward_deltas : ℕ
max_serialized_undo_reward_deltas = 64

abbrev pub max_serialized_build_slot_string_length : ℕ
max_serialized_build_slot_string_length = 128

-- A record as `GetNextRecordInfo` announces it, and the bytes that `ReadRecordData` then gives: in
-- a damaged file they can be fewer than the announced length.
pub record SavedRecord : Type 0 where
  pub record_type : ℕ
  pub version : ℕ
  pub announced : ℕ
  pub content : Bytes

-- The bytes of a `std::string`, which here is a text.
pub record TextCodec : Type 0 where
  pub encode : String → Bytes
  pub decode : Bytes → String

-- `ResolveFormID` maps a form id of the save to the current load order, if its plugin is loaded.
pub record LoadEnv : Type 0 where
  pub resolve_form_id : FormId → Option FormId
  pub lookup_form : FormId → Option FormType
  pub codec : TextCodec
  pub float_ops : FloatOps
  pub actor_values : ActorValues

-- ===== src/Tests/Save.antt =====
-- A save and a load of it, and the load of a damaged file.
use codex_of_power_ng.Base.{
  ℕ, ◌≡◌, Bool, true, none, some, List, [], ◌∷◌, is_empty, if◌then◌else◌, refl, arith, subst,
}
use codex_of_power_ng.Base.Int.{pos}
use codex_of_power_ng.Build.Types.{BuildDiscipline, not_started}
use codex_of_power_ng.Build.Slots.{no_slots}
use codex_of_power_ng.Build.Progression.FormTypes.{weapon}
use codex_of_power_ng.Build.Migration.{normalize_loaded_snapshot}
use codex_of_power_ng.Build.Migration.Normal.{IsNormal}
use codex_of_power_ng.Build.Migration.Laws.{loaded-IsNormal}
use codex_of_power_ng.Registration.QuickList.{QuickListState, invalidate_quick_register_cache}
use codex_of_power_ng.Registration.Store.{pop_back}
use codex_of_power_ng.Rewards.Caps.{clamp_reward_total, try_get_reward_cap}
use codex_of_power_ng.State.{FormId, UndoRecord, RuntimeState, initial_state}
use codex_of_power_ng.State.Snapshot.{Snapshot, empty_snapshot, replace_state}
use codex_of_power_ng.Save.Format.{TextCodec, LoadEnv, SavedRecord, record_blocked_items}
use codex_of_power_ng.Save.Writer.{save}
use codex_of_power_ng.Save.Load.{load}
use codex_of_power_ng.Save.Loader.Entries.{
  is_supported_reward_actor_value, is_supported_build_effect_actor_value,
}
use codex_of_power_ng.Save.RoundTrip.Chunks.{saved_records, save_complete}
use codex_of_power_ng.Save.RoundTrip.Dropped.{taken_over}
use codex_of_power_ng.Save.RoundTrip.Whole.{IsSavable, load-save, reordered, IsSameUpToOrder}
use codex_of_power_ng.Save.AnyFile.Whole.{IsLoaded, load-IsLoaded}
use codex_of_power_ng.Tests.Values.{some_floats, some_actor_values}

-- One text, of two bytes.
abbrev one_text : TextCodec
one_text = record {
  encode = λ t. if is_empty t then [] else 98 ∷ 49 ∷ [];
  decode = λ bytes. elim bytes [ [] ↦ "" | x ∷ xs ↦ "build.attack.ferocity" ];
}

abbrev same_order : LoadEnv
same_order = record {
  resolve_form_id = λ id. some id;
  lookup_form = λ id. some weapon;
  codec = one_text;
  float_ops = some_floats;
  actor_values = some_actor_values;
}

abbrev last_registered : UndoRecord
last_registered = record {
  action_id = 7;
  form_id = 0x1397f;
  reg_key = 0x1397f;
  group = 0;
  build_contribution = some (record {
    discipline = BuildDiscipline.attack;
    record_delta = pos 1;
    points_delta_centi = pos 50;
  });
  reward_deltas = record { av = 24; delta = 0x4000_0000 } ∷ [];
}

-- Two registered items, one of them to undo, an active option and a reward.
abbrev played : Snapshot
played = record empty_snapshot {
  registered_items = (0x12eb7, 0) ∷ (0x1397f, 0) ∷ [];
  blocked_items = 0xf ∷ [];
  notified_items = 0x12eb7 ∷ 0x1397f ∷ [];
  reward_totals = (24, 0x4000_0000) ∷ [];
  build_applied_effect_totals = (30, 0x3e80_0000) ∷ [];
  attack_score = 2;
  attack_build_points_centi = 100;
  active_build_slots = record no_slots { at0 = "build.attack.ferocity" };
  build_migration_version = 2;
  build_migration_state = not_started;
  undo_history = last_registered ∷ [];
  undo_next_action_id = 8;
}

played_normal : normalize_loaded_snapshot same_order.lookup_form none played ≡ played
unfolding normalize_loaded_snapshot
played_normal = refl

played-IsNormal : IsNormal played
played-IsNormal = subst IsNormal played_normal (loaded-IsNormal same_order.lookup_form none played)

played-IsSavable : IsSavable same_order played
unfolding is_supported_reward_actor_value is_supported_build_effect_actor_value clamp_reward_total
    try_get_reward_cap pop_back
played-IsSavable = record {
  registered = (
    omega arith,
    (((omega arith, omega arith), ((omega arith, omega arith), tt)), (refl, (refl, tt))),
  );
  blocked = (omega arith, ((omega arith, tt), (refl, tt)));
  notified = (omega arith, ((omega arith, (omega arith, tt)), (refl, (refl, tt))));
  rewards = (omega arith, ((((omega arith, omega arith), (refl, refl)), tt), (refl, tt)));
  effects = (omega arith, ((((omega arith, omega arith), (refl, refl)), tt), (refl, tt)));
  scores = ((omega arith, (omega arith, omega arith)), (omega arith, (omega arith, omega arith)));
  slots = (
    ((refl, omega arith), ((refl, omega arith), (refl, omega arith))),
    ((refl, omega arith), ((refl, omega arith), (refl, omega arith))),
  );
  migration = (omega arith, (tt, omega arith));
  undo = (
    omega arith,
    (
      (
        (
          (omega arith, (omega arith, (omega arith, omega arith))),
          (
            (tt, ((omega arith, omega arith), (omega arith, omega arith))),
            ((((omega arith, omega arith), refl), tt), omega arith),
          ),
        ),
        tt,
      ),
      (omega arith, omega arith),
    ),
  );
  normal = played-IsNormal;
}

abbrev always : ℕ → Bool
always n = true

played_saved : (save always one_text played).1 ≡ true
unfolding save
played_saved = refl

abbrev fresh_world : RuntimeState × QuickListState FormId
fresh_world = (
  initial_state,
  record {
    cache = record { all_eligible = []; generation = 3; built_at_ms = 100; settings_mask = 4 };
    current_generation = 3;
  },
)

save_complete_example : (save always one_text played).0.records ≡ saved_records one_text played
save_complete_example = save_complete always one_text played played_saved

load-save_example :
    (load same_order ((save always one_text played).0.records) fresh_world ≡ (
      replace_state initial_state (reordered played),
      invalidate_quick_register_cache fresh_world.1,
    ))
    × IsSameUpToOrder (reordered played) played
load-save_example =
    load-save same_order played always fresh_world (λ id. refl) played-IsSavable played_saved

-- A record that announces more bytes than the file has.
abbrev cut_file : List SavedRecord
cut_file =
    record {
      record_type = record_blocked_items;
      version = 2;
      announced = 12;
      content = 2 ∷ 0 ∷ 0 ∷ 0 ∷ 15 ∷ 0 ∷ [];
    }
    ∷ []

load-IsLoaded_example : IsLoaded same_order (load same_order cut_file fresh_world) fresh_world
load-IsLoaded_example = load-IsLoaded same_order cut_file fresh_world

-- The total of a stamina option is lost.
abbrev enduring : Snapshot
enduring = record empty_snapshot {
  build_applied_effect_totals = (some_actor_values.stamina, 0x4120_0000) ∷ (30, 0x3e80_0000) ∷ [];
}

enduring_taken_over :
    taken_over same_order
      (is_supported_build_effect_actor_value some_actor_values)
      enduring.build_applied_effect_totals
    ≡ (30, 0x3e80_0000) ∷ []
unfolding is_supported_build_effect_actor_value clamp_reward_total try_get_reward_cap
enduring_taken_over = refl

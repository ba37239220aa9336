-- ===== src/Save/RoundTrip/Whole.antt =====
-- src/SerializationSave.cpp and SerializationLoad.cpp: a whole save, and the load of its file.
use mathlib.Core.List.{reverse}
use codex_of_power_ng.Base.{
  ℕ, ◌≡◌, ◌≤◌, Bool, true, none, some, List, [], ◌∷◌, length, ◌>>=◌, refl, ap, ◌∙◌, All,
}
use codex_of_power_ng.Base.Word.{IsU32, IsU64}
use codex_of_power_ng.Base.Keyed.{lookup, member, Distinct}
use codex_of_power_ng.Build.Migration.Normal.{IsNormal}
use codex_of_power_ng.Build.Migration.Laws.{normal_fixed}
use codex_of_power_ng.Registration.QuickList.{QuickListState, invalidate_quick_register_cache}
use codex_of_power_ng.Registration.Store.{pop_back}
use codex_of_power_ng.State.{FormId, RuntimeState, undo_history_limit}
use codex_of_power_ng.State.Snapshot.{Snapshot, replace_state, empty_snapshot}
use codex_of_power_ng.Save.Format.{LoadEnv, SavedRecord, max_serialized_reward_entries}
use codex_of_power_ng.Save.Load.{load_record, load_records, finish_load, load}
use codex_of_power_ng.Save.Loader.Entries.{
  is_supported_reward_actor_value, is_supported_build_effect_actor_value,
}
use codex_of_power_ng.Save.Loader.Undo.{least_next_id}
use codex_of_power_ng.Save.Writer.{save}
use codex_of_power_ng.Save.RoundTrip.Build.{
  HasWordScores, IsMigrationByte, load-scores, load-migration,
}
use codex_of_power_ng.Save.RoundTrip.Chunks.{saved_records, save_complete}
use codex_of_power_ng.Base.Keyed.{NoRepeat}
use codex_of_power_ng.Save.RoundTrip.Entries.{IsWordPair, IsKept}
use codex_of_power_ng.Save.RoundTrip.History.{load-undo_history}
use codex_of_power_ng.Save.RoundTrip.Order.{
  Distinct-reverse, NoRepeat-reverse, lookup-reverse, member-reverse,
}
use codex_of_power_ng.Save.RoundTrip.Records.{
  load-registered, load-ids, load-rewards, load-applied_effects,
}
use codex_of_power_ng.Save.RoundTrip.Slots.{IsStoredSlots, load-slots}
use codex_of_power_ng.Save.RoundTrip.Undo.{IsStoredUndo}

-- The ids of a set: as many as a count can hold, words, and none of them twice.
abbrev pub IsIdSet : List FormId → Type 0
IsIdSet ids = IsU32 (length ids) × (All IsU32 ids × NoRepeat ids)

-- A snapshot of which a load gives everything back: its numbers fit the words of the file, its maps
-- have no key twice, and no rule of the load drops, cuts, clamps or migrates a part of it.
pub record IsSavable (env : LoadEnv) (s : Snapshot) : Type 0 where
  pub registered :
      IsU32 (length s.registered_items)
      × (All IsWordPair s.registered_items × Distinct s.registered_items)
  pub blocked : IsIdSet s.blocked_items
  pub notified : IsIdSet s.notified_items
  pub rewards :
      (length s.reward_totals ≤ max_serialized_reward_entries)
      × (All (IsKept env (is_supported_reward_actor_value env.actor_values)) s.reward_totals
          × Distinct s.reward_totals)
  pub effects :
      IsU32 (length s.build_applied_effect_totals)
      × (All
            (IsKept env (is_supported_build_effect_actor_value env.actor_values))
            s.build_applied_effect_totals
          × Distinct s.build_applied_effect_totals)
  pub scores : HasWordScores s
  pub slots : IsStoredSlots env.codec s.active_build_slots
  pub migration :
      IsU32 s.build_migration_version
      × (IsMigrationByte s.build_migration_state
          × IsU32 s.build_migration_notice.unresolved_historical_registrations)
  pub undo :
      (length s.undo_history ≤ undo_history_limit)
      × (All (IsStoredUndo env) s.undo_history
          × (IsU64 s.undo_next_action_id
              × (least_next_id (pop_back s.undo_history) ≤ s.undo_next_action_id)))
  pub normal : IsNormal s

-- The hash containers, filled in the order of the file.
abbrev pub reordered : Snapshot → Snapshot
reordered s = record s {
  registered_items = reverse s.registered_items;
  blocked_items = reverse s.blocked_items;
  notified_items = reverse s.notified_items;
}

load_records-step :
    (env : LoadEnv) (r : SavedRecord) (rest : List SavedRecord) (s s' : Snapshot)
    → load_record env r s ≡ some s'
    → load_records env (r ∷ rest) s ≡ load_records env rest s'
unfolding load_records
load_records-step env r rest s s' e = rw e refl

load_records-end : (env : LoadEnv) (s : Snapshot) → load_records env [] s ≡ some s
unfolding load_records
load_records-end env s = refl

module _ (env : LoadEnv) (same : (id : FormId) → env.resolve_form_id id ≡ some id) (s : Snapshot)
    (h : IsSavable env s) where
  load_records-save :
      load_records env (saved_records env.codec s) empty_snapshot ≡ some (reordered s)
  unfolding load_record
  load_records-save =
      let t1 : Snapshot = record empty_snapshot { registered_items = reverse s.registered_items } in
      let t2 : Snapshot = record t1 { blocked_items = reverse s.blocked_items } in
      let t3 : Snapshot = record t2 { notified_items = reverse s.notified_items } in
      let t4 : Snapshot = record t3 {
        attack_score = s.attack_score;
        defense_score = s.defense_score;
        utility_score = s.utility_score;
        attack_build_points_centi = s.attack_build_points_centi;
        defense_build_points_centi = s.defense_build_points_centi;
        utility_build_points_centi = s.utility_build_points_centi;
      } in
      let t5 : Snapshot = record t4 { active_build_slots = s.active_build_slots } in
      let t6 : Snapshot = record t5 {
        build_migration_version = s.build_migration_version;
        build_migration_state = s.build_migration_state;
        build_migration_notice = s.build_migration_notice;
      } in
      let t7 : Snapshot = record t6 {
        build_applied_effect_totals = s.build_applied_effect_totals;
      } in
      let t8 : Snapshot = record t7 { reward_totals = s.reward_totals } in
      load_records-step env _ _ empty_snapshot t1 (
        load-registered env same s empty_snapshot h.registered.0 h.registered.1.0
          (Distinct-reverse s.registered_items h.registered.1.1))
      ∙ load_records-step env _ _ t1 t2 (
          ap (λ o. o >>= (λ ids. some (record t1 { blocked_items = ids })))
            (load-ids env same s.blocked_items [] h.blocked.0 h.blocked.1.0
              (NoRepeat-reverse s.blocked_items h.blocked.1.1)))
      ∙ load_records-step env _ _ t2 t3 (
          ap (λ o. o >>= (λ ids. some (record t2 { notified_items = ids })))
            (load-ids env same s.notified_items [] h.notified.0 h.notified.1.0
              (NoRepeat-reverse s.notified_items h.notified.1.1)))
      ∙ load_records-step env _ _ t3 t4 (load-scores s t3 h.scores)
      ∙ load_records-step env _ _ t4 t5 (load-slots env s t4 h.slots)
      ∙ load_records-step env _ _ t5 t6
          (load-migration s t5 h.migration.0 h.migration.1.0 h.migration.1.1)
      ∙ load_records-step env _ _ t6 t7
          (load-applied_effects env s t6 h.effects.0 h.effects.1.0 h.effects.1.1)
      ∙ load_records-step env _ _ t7 t8
          (load-rewards env s t7 h.rewards.0 h.rewards.1.0 h.rewards.1.1)
      ∙ load_records-step env _ _ t8 (reordered s)
          (load-undo_history env same s t8 h.undo.0 h.undo.1.0 h.undo.1.1.0 h.undo.1.1.1)
      ∙ load_records-end env (reordered s)

  reordered-IsNormal : IsNormal (reordered s)
  reordered-IsNormal = record {
    current = h.normal.current;
    unretired = h.normal.unretired;
    slots = h.normal.slots;
    pending = h.normal.pending;
    finished = h.normal.finished;
  }

  load-saved_records :
      {A : Type 0}
      → (world : RuntimeState × QuickListState A)
      → load env (saved_records env.codec s) world
        ≡ (replace_state world.0 (reordered s), invalidate_quick_register_cache world.1)
  unfolding load
  load-saved_records world =
      ap (λ o. finish_load env o world) load_records-save
      ∙ ap (λ n. (replace_state world.0 n, invalidate_quick_register_cache world.1))
          (normal_fixed env.lookup_form none (reordered s) reordered-IsNormal)

-- The same snapshot, up to the order in which the hash containers give their entries.
abbrev pub IsSameUpToOrder : Snapshot → Snapshot → Type 0
IsSameUpToOrder t s =
    (((key : FormId) → lookup key t.registered_items ≡ lookup key s.registered_items)
      × (((id : FormId) → member id t.blocked_items ≡ member id s.blocked_items)
          × ((id : FormId) → member id t.notified_items ≡ member id s.notified_items)))
    × (t ≡ record s {
      registered_items = t.registered_items;
      blocked_items = t.blocked_items;
      notified_items = t.notified_items;
    })

reordered-IsSameUpToOrder :
    (env : LoadEnv) (s : Snapshot) → IsSavable env s → IsSameUpToOrder (reordered s) s
reordered-IsSameUpToOrder env s h = (
  (
    λ key. lookup-reverse key s.registered_items h.registered.1.1,
    (λ id. member-reverse id s.blocked_items, λ id. member-reverse id s.notified_items),
  ),
  refl,
)

-- A save that reports no failure, whatever calls the interface refuses, of a snapshot that fits the
-- format (words, distinct keys, at most 256 rewards, 64 deltas an entry, ten entries and texts of
-- 128 bytes, totals that are supported and within their caps, nothing left to migrate), loaded
-- where every form id resolves to itself, puts that snapshot in the place of the state and drops
-- the cached quick list; the two maps and sets of ids hold the same entries, in another order.
pub load-save :
    {A : Type 0}
    → (env : LoadEnv) (s : Snapshot) (accepts : ℕ → Bool) (world : RuntimeState × QuickListState A)
    → ((id : FormId) → env.resolve_form_id id ≡ some id)
    → IsSavable env s
    → (save accepts env.codec s).1 ≡ true
    → (load env ((save accepts env.codec s).0.records) world
        ≡ (replace_state world.0 (reordered s), invalidate_quick_register_cache world.1))
      × IsSameUpToOrder (reordered s) s
load-save env s accepts world same h ok = (
  ap (λ records. load env records world) (save_complete accepts env.codec s ok)
      ∙ load-saved_records env same s h world,
  reordered-IsSameUpToOrder env s h,
)

-- ===== src/Build/Migration/Laws.antt =====
-- What a loaded snapshot looks like after its migration.
use codex_of_power_ng.Base.{
  ℕ, ◌≤◌, ◌≡◌, ◌↔◌, refl, ap, ◌∙◌, Bool, true, false, Option, none, some, List, [], ◌∷◌, String,
  map, arith, is_empty, inl, inr, Bool-cases, leb, ◌⊎◌,
}
use codex_of_power_ng.Build.Types.{BuildDiscipline, pending_cleanup, complete}
use codex_of_power_ng.Build.Slots.{no_slots, map_slots}
use codex_of_power_ng.Build.Progression.FormTypes.{FormType}
use codex_of_power_ng.Build.Migration.Derived.{
  derive_items, visit_item, resolve_item, apply_derived_contribution,
}
use codex_of_power_ng.Build.Migration.{
  has_legacy_undo_reward_deltas, strip_record, normalize_slot, remap_legacy_option_id,
  is_retired_ward, is_retired_cure, normalize_active_slot_option_ids, normalize_current,
  zero_scores, finish_migration, migrate_legacy, normalize_by_version, normalize_loaded_snapshot,
  clear_slots, try_finalize_pending_migration, consume_migration_notice, run_cleanup,
}
use codex_of_power_ng.State.{FormId, UndoRecord}
use codex_of_power_ng.State.Snapshot.{Snapshot}
use codex_of_power_ng.Build.Migration.Normal.{
  IsNormal, fixed-HasUnretired, empty_slots_normal, empty-HasUnretired,
}

normalize_slot_idem : (t : String) → normalize_slot (normalize_slot t) ≡ normalize_slot t
normalize_slot_idem t = elim (Bool-cases (is_empty t)) [
  | inl e ↦ unfold normalize_slot in rw (e, normalize_slot) (rw (e, normalize_slot) refl)
  | inr e ↦ elim (Bool-cases (is_retired_ward t)) [
    | inl w ↦ unfold normalize_slot in rw (e, w, remap_legacy_option_id) refl
    | inr w ↦ elim (Bool-cases (is_retired_cure t)) [
      | inl c ↦ unfold normalize_slot in rw (e, w, c, remap_legacy_option_id) refl
      | inr c ↦
          unfold normalize_slot in
          rw (e, w, c, remap_legacy_option_id) (rw (e, w, c, remap_legacy_option_id) refl)
    ]
  ]
]

strip_idem : (rs : List UndoRecord) → map strip_record (map strip_record rs) ≡ map strip_record rs
unfolding strip_record
strip_idem [] = refl
strip_idem (r ∷ rs) = ap (◌∷◌ (strip_record r)) (strip_idem rs)

strip_unneeded :
    (rs : List UndoRecord) → has_legacy_undo_reward_deltas rs ≡ false → map strip_record rs ≡ rs
unfolding strip_record has_legacy_undo_reward_deltas
strip_unneeded [] h = refl
strip_unneeded (r ∷ rs) h = ground (arith, strip_unneeded rs)

-- The derivation of the scores leaves slots, history and rewards alone.
abbrev SameRest : Snapshot → Snapshot → Type 0
SameRest s t =
    (t.active_build_slots ≡ s.active_build_slots)
    × (t.undo_history ≡ s.undo_history)
    × (t.reward_totals ≡ s.reward_totals)
    × (t.registered_items ≡ s.registered_items)

apply_derived-SameRest :
    (d : BuildDiscipline) (p : ℕ) (s : Snapshot) → SameRest s (apply_derived_contribution d p s)
unfolding apply_derived_contribution
apply_derived-SameRest BuildDiscipline.attack p s = (refl, refl, refl, refl)
apply_derived-SameRest BuildDiscipline.defense p s = (refl, refl, refl, refl)
apply_derived-SameRest BuildDiscipline.utility p s = (refl, refl, refl, refl)
apply_derived-SameRest (BuildDiscipline.other n) p s = (refl, refl, refl, refl)

visit_item-SameRest :
    (o : Option (BuildDiscipline × ℕ)) (s : Snapshot) (n : ℕ) → SameRest s (visit_item o (s, n)).0
unfolding visit_item
visit_item-SameRest none s n = (refl, refl, refl, refl)
visit_item-SameRest (some (d, p)) s n = apply_derived-SameRest d p s

pub derive_items-SameRest :
    (lookup_form : FormId → Option FormType) (resolver : Option (FormId → Option BuildDiscipline))
    (items : List (FormId × ℕ)) (s : Snapshot) (n : ℕ)
    → SameRest s (derive_items lookup_form resolver items (s, n)).0
unfolding derive_items
derive_items-SameRest l r [] s n = (refl, refl, refl, refl)
derive_items-SameRest l r (item ∷ items) s n =
    let (t, k) = visit_item (resolve_item l r item) (s, n) in
    let first = visit_item-SameRest (resolve_item l r item) s n in
    let later = derive_items-SameRest l r items t k in
    (later.0 ∙ first.0, later.1 ∙ first.1, later.2 ∙ first.2, later.3 ∙ first.3)

-- What the migration of an old save settles, for any scores that were derived.
finish_migration-IsNormal :
    (regs rewards undo : Bool) (n : ℕ) (s : Snapshot)
    → s.active_build_slots ≡ no_slots
    → (undo ≡ false → map strip_record s.undo_history ≡ s.undo_history)
    → IsNormal (finish_migration regs rewards undo n s)
unfolding finish_migration
finish_migration-IsNormal regs rewards undo n s slots plain = ground (
  arith,
  empty_slots_normal s.active_build_slots slots,
  empty-HasUnretired s.active_build_slots slots,
  strip_idem s.undo_history,
)

migrate_legacy-IsNormal :
    (lookup_form : FormId → Option FormType) (resolver : Option (FormId → Option BuildDiscipline))
    (s : Snapshot)
    → IsNormal (migrate_legacy lookup_form resolver s)
unfolding migrate_legacy
migrate_legacy-IsNormal l r s =
    let same = derive_items-SameRest l r s.registered_items (clear_slots (zero_scores s)) 0 in
    finish_migration-IsNormal _ _ (has_legacy_undo_reward_deltas s.undo_history) _
      (derive_items l r s.registered_items (clear_slots (zero_scores s), 0)).0 same.0
      (λ e. rw same.1 (strip_unneeded s.undo_history e))

normalize_current-IsNormal :
    (s : Snapshot)
    → 2 ≤ s.build_migration_version
    → map_slots normalize_slot s.active_build_slots ≡ s.active_build_slots
    → IsNormal (normalize_current s)
unfolding normalize_current
normalize_current-IsNormal s v slots = ground (
  arith,
  empty_slots_normal no_slots refl,
  empty-HasUnretired no_slots refl,
  fixed-HasUnretired s.active_build_slots slots,
  strip_idem s.undo_history,
)

normalize_current_fixed : (s : Snapshot) → IsNormal s → normalize_current s ≡ s
unfolding normalize_current
normalize_current_fixed s h = ground arith

remapped_slots :
    (s : Snapshot)
    → map_slots normalize_slot (normalize_active_slot_option_ids s).active_build_slots
      ≡ (normalize_active_slot_option_ids s).active_build_slots
unfolding normalize_active_slot_option_ids
remapped_slots s = λ i. record {
  at0 = normalize_slot_idem s.active_build_slots.at0 i;
  at1 = normalize_slot_idem s.active_build_slots.at1 i;
  at2 = normalize_slot_idem s.active_build_slots.at2 i;
  at3 = normalize_slot_idem s.active_build_slots.at3 i;
  at4 = normalize_slot_idem s.active_build_slots.at4 i;
  at5 = normalize_slot_idem s.active_build_slots.at5 i;
}

module _ (lookup_form : FormId → Option FormType)
    (resolver : Option (FormId → Option BuildDiscipline)) where
  by_version-IsNormal :
      (s : Snapshot)
      → map_slots normalize_slot s.active_build_slots ≡ s.active_build_slots
      → IsNormal (normalize_by_version lookup_form resolver s)
  by_version-IsNormal s slots = elim (Bool-cases (leb 2 s.build_migration_version)) [
    | inl e ↦
        unfold normalize_by_version in
        rw (e, normalize_by_version) (normalize_current-IsNormal s (ground arith) slots)
    | inr e ↦
        unfold normalize_by_version in
        rw (e, normalize_by_version) (migrate_legacy-IsNormal lookup_form resolver s)
  ]

  pub loaded-IsNormal : (s : Snapshot) → IsNormal (normalize_loaded_snapshot lookup_form resolver s)
  unfolding normalize_loaded_snapshot
  loaded-IsNormal s = by_version-IsNormal (normalize_active_slot_option_ids s) (remapped_slots s)

  remap_fixed : (s : Snapshot) → IsNormal s → normalize_active_slot_option_ids s ≡ s
  unfolding normalize_active_slot_option_ids
  remap_fixed s h = rw h.slots refl

  by_version_fixed : (s : Snapshot) → IsNormal s → normalize_by_version lookup_form resolver s ≡ s
  by_version_fixed s h =
      let e : leb 2 s.build_migration_version ≡ true = ground arith in
      unfold normalize_by_version in rw (e, normalize_by_version) (normalize_current_fixed s h)

  pub normal_fixed :
      (s : Snapshot) → IsNormal s → normalize_loaded_snapshot lookup_form resolver s ≡ s
  unfolding normalize_loaded_snapshot
  normal_fixed s h =
      ap (normalize_by_version lookup_form resolver) (remap_fixed s h) ∙ by_version_fixed s h

  -- Loading twice is loading once: a save written after a load is not migrated again.
  pub normalize_idem :
      (s : Snapshot)
      → normalize_loaded_snapshot lookup_form resolver
          (normalize_loaded_snapshot lookup_form resolver s)
        ≡ normalize_loaded_snapshot lookup_form resolver s
  normalize_idem s = normal_fixed _ (loaded-IsNormal s)

-- `TryFinalizePendingMigration` reports success exactly when a cleanup was pending and there were no
-- rewards left or the cleanup of the snapshot without active slots succeeded; then the migration is
-- complete and the rewards are gone. If the cleanup fails, it stays pending and keeps the rewards.
-- Either way a pending snapshot ends without active slots, and nothing changes but the slots, the
-- history, the rewards, and the version and the state of the migration: scores, points and
-- registered items stay.
pub try_finalize_correct :
    (cleanup : Option (Snapshot → Bool)) (s : Snapshot)
    → let (t, done) = try_finalize_pending_migration cleanup s in
      ((done ≡ true) ↔ (
        (2 ≤ s.build_migration_version)
        × (s.build_migration_state ≡ pending_cleanup)
        × ((s.reward_totals ≡ []) ⊎ (run_cleanup cleanup (clear_slots s) ≡ true))))
      × (done ≡ true → (t.build_migration_state ≡ complete) × (t.reward_totals ≡ []) × IsNormal t)
      × (done ≡ false
          → (t.build_migration_state ≡ s.build_migration_state)
            × (t.reward_totals ≡ s.reward_totals))
      × (2 ≤ s.build_migration_version
          → s.build_migration_state ≡ pending_cleanup
          → t.active_build_slots ≡ no_slots)
      × (t ≡ record s {
        active_build_slots = t.active_build_slots;
        undo_history = t.undo_history;
        reward_totals = t.reward_totals;
        build_migration_version = t.build_migration_version;
        build_migration_state = t.build_migration_state;
      })
unfolding try_finalize_pending_migration
try_finalize_correct cleanup s = (
  ground arith,
  ground (
    arith,
    strip_idem s.undo_history,
    empty_slots_normal no_slots refl,
    empty-HasUnretired no_slots refl,
  ),
  ground arith,
  ground arith,
  ground arith,
)

-- A notice is handed out at most once, and nothing else of the snapshot changes.
pub consume_notice_once :
    (s : Snapshot)
    → let (t, notice) = consume_migration_notice s in
      ((notice ≡ none) ↔ (s.build_migration_notice.needs_notice ≡ false))
      × (consume_migration_notice t ≡ (t, none))
      × (t ≡ record s { build_migration_notice = t.build_migration_notice })
unfolding consume_migration_notice
consume_notice_once s = ground arith

-- ===== src/Build/Migration/Kept.antt =====
-- src/BuildProgression.cpp: what the migration of a loaded snapshot leaves alone.
use codex_of_power_ng.Base.{
  ℕ, Bool, true, false, ◌≡◌, Option, none, some, List, [], ◌∷◌, map, leb, refl, arith, ◌∙◌, ◌⊎◌,
  inl, inr, Bool-cases, not, subst, length,
}
use codex_of_power_ng.Build.Types.{BuildDiscipline}
use codex_of_power_ng.Build.Progression.FormTypes.{FormType}
use codex_of_power_ng.Build.StateStore.{is_pending}
use codex_of_power_ng.State.{FormId, ActorValue, Float32, UndoRecord}
use codex_of_power_ng.State.Snapshot.{Snapshot}
use codex_of_power_ng.Build.Migration.{
  normalize_loaded_snapshot, normalize_by_version, normalize_current, migrate_legacy,
  finish_migration, zero_scores, clear_slots, is_complete, is_nil, strip_record,
  strip_legacy_undo_reward_deltas, normalize_active_slot_option_ids, has_legacy_undo_reward_deltas,
}
use codex_of_power_ng.Build.Migration.Derived.{
  derive_items, visit_item, resolve_item, apply_derived_contribution,
}
use codex_of_power_ng.Build.Migration.Laws.{derive_items-SameRest}

-- The parts that no migration changes.
pub record KeptParts : Type 0 where
  pub registered : List (FormId × ℕ)
  pub blocked : List FormId
  pub notified : List FormId
  pub rewards : List (ActorValue × Float32)
  pub effects : List (ActorValue × Float32)
  pub next_action_id : ℕ

abbrev pub kept_parts : Snapshot → KeptParts
kept_parts s = record {
  registered = s.registered_items;
  blocked = s.blocked_items;
  notified = s.notified_items;
  rewards = s.reward_totals;
  effects = s.build_applied_effect_totals;
  next_action_id = s.undo_next_action_id;
}

apply_derived-kept :
    (d : BuildDiscipline) (p : ℕ) (s : Snapshot)
    → kept_parts (apply_derived_contribution d p s) ≡ kept_parts s
unfolding apply_derived_contribution
apply_derived-kept BuildDiscipline.attack p s = refl
apply_derived-kept BuildDiscipline.defense p s = refl
apply_derived-kept BuildDiscipline.utility p s = refl
apply_derived-kept (BuildDiscipline.other n) p s = refl

visit_item-kept :
    (o : Option (BuildDiscipline × ℕ)) (s : Snapshot) (n : ℕ)
    → kept_parts ((visit_item o (s, n)).0) ≡ kept_parts s
unfolding visit_item
visit_item-kept none s n = refl
visit_item-kept (some (d, p)) s n = apply_derived-kept d p s

derive_items-kept :
    (lookup_form : FormId → Option FormType) (resolver : Option (FormId → Option BuildDiscipline))
    (items : List (FormId × ℕ)) (s : Snapshot) (n : ℕ)
    → kept_parts ((derive_items lookup_form resolver items (s, n)).0) ≡ kept_parts s
unfolding derive_items
derive_items-kept l r [] s n = refl
derive_items-kept l r (item ∷ items) s n =
    let (t, k) = visit_item (resolve_item l r item) (s, n) in
    derive_items-kept l r items t k ∙ visit_item-kept (resolve_item l r item) s n

-- The history is left alone, or loses its reward deltas.
abbrev pub IsKeptOrStripped : List UndoRecord → List UndoRecord → Type 0
IsKeptOrStripped rs kept = (rs ≡ kept) ⊎ (rs ≡ map strip_record kept)

abbrev pub IsKeptBy : Snapshot → Snapshot → Type 0
IsKeptBy s t = (kept_parts t ≡ kept_parts s) × IsKeptOrStripped t.undo_history s.undo_history

finish_migration-IsKeptBy :
    (regs rewards undo : Bool) (n : ℕ) (s : Snapshot)
    → IsKeptBy s (finish_migration regs rewards undo n s)
unfolding finish_migration strip_legacy_undo_reward_deltas
finish_migration-IsKeptBy true true undo n s = (refl, inl refl)
finish_migration-IsKeptBy true false undo n s = (refl, inr refl)
finish_migration-IsKeptBy false true undo n s = (refl, inl refl)
finish_migration-IsKeptBy false false true n s = (refl, inr refl)
finish_migration-IsKeptBy false false false n s = (refl, inl refl)

normalize_current-IsKeptBy : (s : Snapshot) → IsKeptBy s (normalize_current s)
unfolding normalize_current strip_legacy_undo_reward_deltas
normalize_current-IsKeptBy s = elim (Bool-cases (is_pending s.build_migration_state)) [
  | inl p ↦ rw p (refl, inl refl)
  | inr p ↦ elim (Bool-cases (is_complete s.build_migration_state)) [
    | inl c ↦ rw (p, c) (refl, inr refl)
    | inr c ↦ rw (p, c) (refl, inl refl)
  ]
]

module _ (lookup_form : FormId → Option FormType)
    (resolver : Option (FormId → Option BuildDiscipline)) where
  migrate_legacy-IsKeptBy : (s : Snapshot) → IsKeptBy s (migrate_legacy lookup_form resolver s)
  unfolding migrate_legacy zero_scores
  migrate_legacy-IsKeptBy s =
      let start = clear_slots (zero_scores s) in
      let derived = (derive_items lookup_form resolver s.registered_items (start, 0)).0 in
      let same = derive_items-kept lookup_form resolver s.registered_items start 0 in
      let undo = (derive_items-SameRest lookup_form resolver s.registered_items start 0).1 in
      let unresolved = (derive_items lookup_form resolver s.registered_items (start, 0)).1 in
      let done =
        finish_migration-IsKeptBy (not (is_nil s.registered_items)) (not (is_nil s.reward_totals))
          (has_legacy_undo_reward_deltas s.undo_history) unresolved derived in
      (done.0 ∙ same, subst (IsKeptOrStripped _) undo done.1)

  by_version-IsKeptBy : (s : Snapshot) → IsKeptBy s (normalize_by_version lookup_form resolver s)
  unfolding normalize_by_version
  by_version-IsKeptBy s = elim (Bool-cases (leb 2 s.build_migration_version)) [
    | inl e ↦ rw e (normalize_current-IsKeptBy s)
    | inr e ↦ rw e (migrate_legacy-IsKeptBy s)
  ]

  pub normalize-IsKeptBy :
      (s : Snapshot) → IsKeptBy s (normalize_loaded_snapshot lookup_form resolver s)
  unfolding normalize_loaded_snapshot normalize_active_slot_option_ids
  normalize-IsKeptBy s = by_version-IsKeptBy (normalize_active_slot_option_ids s)

pub strip_record-deltas : (r : UndoRecord) → (strip_record r).reward_deltas ≡ []
unfolding strip_record
strip_record-deltas r = refl

pub length-stripped : (rs : List UndoRecord) → length (map strip_record rs) ≡ length rs
length-stripped [] = refl
length-stripped (r ∷ rs) = omega (arith, length-stripped rs)

-- ===== src/Build/Migration/Derivation.antt =====
-- The scores that the migration of an old save derives, against sums over the registered items.
use mathlib.Core.List.{Perm, Permᴰ}
use mathlib.Core.Logic.{∥∥₁_elim}
use native.Mathlib.Nat.{ℕ_set}
use codex_of_power_ng.Base.{
  ℕ, ◌+◌, ◌%◌, ◌<◌, ◌≡◌, ◌≢◌, refl, ap, ◌∙◌, Bool, true, false, Option, none, some, List, [], ◌∷◌,
  not, arith, if◌then◌else◌, leb,
}
use codex_of_power_ng.Base.Word.{IsU32}
use codex_of_power_ng.Build.Types.{BuildDiscipline, discipline_eq}
use codex_of_power_ng.Build.Progression.FormTypes.{FormType}
use codex_of_power_ng.Build.Migration.Derived.{
  derive_items, visit_item, resolve_item, apply_derived_contribution,
}
use codex_of_power_ng.Build.Migration.{
  normalize_active_slot_option_ids, finish_migration, migrate_legacy, normalize_by_version,
  normalize_loaded_snapshot, clear_slots, zero_scores, is_nil, has_legacy_undo_reward_deltas,
}
use codex_of_power_ng.State.{FormId}
use codex_of_power_ng.State.Snapshot.{Snapshot}

abbrev pub snapshot_score : BuildDiscipline → Snapshot → ℕ
snapshot_score BuildDiscipline.attack s = s.attack_score
snapshot_score BuildDiscipline.defense s = s.defense_score
snapshot_score BuildDiscipline.utility s = s.utility_score
snapshot_score (BuildDiscipline.other n) s = 0

abbrev pub snapshot_points : BuildDiscipline → Snapshot → ℕ
snapshot_points BuildDiscipline.attack s = s.attack_build_points_centi
snapshot_points BuildDiscipline.defense s = s.defense_build_points_centi
snapshot_points BuildDiscipline.utility s = s.utility_build_points_centi
snapshot_points (BuildDiscipline.other n) s = 0

-- What a resolved item counts for: a record and points of its discipline, or a miss.
abbrev pub records_of : BuildDiscipline → Option (BuildDiscipline × ℕ) → ℕ
records_of d none = 0
records_of d (some (e, p)) = if discipline_eq e d then 1 else 0

abbrev pub points_of : BuildDiscipline → Option (BuildDiscipline × ℕ) → ℕ
points_of d none = 0
points_of d (some (e, p)) = if discipline_eq e d then p else 0

abbrev pub misses_of : Option (BuildDiscipline × ℕ) → ℕ
misses_of none = 1
misses_of (some r) = 0

-- The sum of a weight over the items.
abbrev pub total : (FormId × ℕ → ℕ) → List (FormId × ℕ) → ℕ
total w [] = 0
total w (item ∷ rest) = w item + total w rest

total-Permᴰ :
    (w : FormId × ℕ → ℕ) {xs ys : List (FormId × ℕ)} → Permᴰ xs ys → total w xs ≡ total w ys
total-Permᴰ w Permᴰ.nil = refl
total-Permᴰ w (Permᴰ.cons e p) = omega (arith, ap w e, total-Permᴰ w p)
total-Permᴰ w (Permᴰ.swap e f) = omega (arith, ap w e, ap w f)
total-Permᴰ w (Permᴰ.trans p q) = total-Permᴰ w p ∙ total-Permᴰ w q

total-perm : (w : FormId × ℕ → ℕ) {xs ys : List (FormId × ℕ)} → Perm xs ys → total w xs ≡ total w ys
total-perm w p = ∥∥₁_elim p (ℕ_set _ _) (total-Permᴰ w)

not_nil : (items : List (FormId × ℕ)) → items ≢ [] → not (is_nil items) ≡ true
not_nil [] h = absurd (h refl)
not_nil (item ∷ items) h = refl

-- The three enumerators.
abbrev pub IsEnumerator : BuildDiscipline → Type 0
IsEnumerator (BuildDiscipline.other n) = ⊥
IsEnumerator _ = Unit

visit_item_lem :
    (o : Option (BuildDiscipline × ℕ)) (s : Snapshot) (n : ℕ) (d : BuildDiscipline)
    → IsEnumerator d
    → let (t, k) = visit_item o (s, n) in
      (snapshot_score d t % 0x1_0000_0000 ≡ (snapshot_score d s + records_of d o) % 0x1_0000_0000)
      × (snapshot_points d t % 0x1_0000_0000
          ≡ (snapshot_points d s + points_of d o) % 0x1_0000_0000)
      × (k % 0x1_0000_0000 ≡ (n + misses_of o) % 0x1_0000_0000)
unfolding visit_item apply_derived_contribution
visit_item_lem o s n d h = ground arith

zeroed :
    (s : Snapshot) (d : BuildDiscipline)
    → (snapshot_score d (clear_slots (zero_scores s)) ≡ 0)
      × (snapshot_points d (clear_slots (zero_scores s)) ≡ 0)
unfolding zero_scores
zeroed s BuildDiscipline.attack = (refl, refl)
zeroed s BuildDiscipline.defense = (refl, refl)
zeroed s BuildDiscipline.utility = (refl, refl)
zeroed s (BuildDiscipline.other n) = (refl, refl)

-- The end of the migration keeps the totals, and reports the misses where it reports anything.
finish_totals :
    (regs rewards undo : Bool) (n : ℕ) (s : Snapshot) (d : BuildDiscipline)
    → (snapshot_score d (finish_migration regs rewards undo n s) ≡ snapshot_score d s)
      × (snapshot_points d (finish_migration regs rewards undo n s) ≡ snapshot_points d s)
      × (regs ≡ true
          → (finish_migration regs rewards undo n
              s).build_migration_notice.unresolved_historical_registrations
            ≡ n)
unfolding finish_migration
finish_totals regs rewards undo n s d = ground arith

module _ (lookup_form : FormId → Option FormType)
    (resolver : Option (FormId → Option BuildDiscipline)) where
  derive_items_lem :
      (items : List (FormId × ℕ)) (s : Snapshot) (n : ℕ) (d : BuildDiscipline)
      → IsEnumerator d
      → let (t, k) = derive_items lookup_form resolver items (s, n) in
        let resolve = resolve_item lookup_form resolver in
        (snapshot_score d t % 0x1_0000_0000
          ≡ (snapshot_score d s + total (λ i. records_of d (resolve i)) items) % 0x1_0000_0000)
        × (snapshot_points d t % 0x1_0000_0000
            ≡ (snapshot_points d s + total (λ i. points_of d (resolve i)) items) % 0x1_0000_0000)
        × (k % 0x1_0000_0000 ≡ (n + total (λ i. misses_of (resolve i)) items) % 0x1_0000_0000)
  unfolding derive_items
  derive_items_lem [] s n d h = (omega arith, omega arith, omega arith)
  derive_items_lem (item ∷ items) s n d h =
      let o = resolve_item lookup_form resolver item in
      let (t, k) = visit_item o (s, n) in
      let first = visit_item_lem o s n d h in
      let later = derive_items_lem items t k d h in
      (
        omega (arith, first.0, later.0),
        omega (arith, first.1, later.1),
        omega (arith, first.2, later.2),
      )

  -- Every total stays a 32-bit number.
  abbrev Fits : BuildDiscipline → Snapshot → ℕ → Type 0
  Fits d s n = IsU32 (snapshot_score d s) × IsU32 (snapshot_points d s) × IsU32 n

  visit_item-Fits :
      (o : Option (BuildDiscipline × ℕ)) (s : Snapshot) (n : ℕ) (d : BuildDiscipline)
      → Fits d s n
      → Fits d (visit_item o (s, n)).0 (visit_item o (s, n)).1
  unfolding visit_item apply_derived_contribution
  visit_item-Fits o s n d h = ground arith

  derive_items-Fits :
      (items : List (FormId × ℕ)) (s : Snapshot) (n : ℕ) (d : BuildDiscipline)
      → Fits d s n
      → let (t, k) = derive_items lookup_form resolver items (s, n) in Fits d t k
  unfolding derive_items
  derive_items-Fits [] s n d h = h
  derive_items-Fits (item ∷ items) s n d h =
      let o = resolve_item lookup_form resolver item in
      let (t, k) = visit_item o (s, n) in derive_items-Fits items t k d (visit_item-Fits o s n d h)

  derived_totals :
      (items : List (FormId × ℕ)) (s : Snapshot) (d : BuildDiscipline)
      → IsEnumerator d
      → let (t, k) = derive_items lookup_form resolver items (clear_slots (zero_scores s), 0) in
        let resolve = resolve_item lookup_form resolver in
        (snapshot_score d t ≡ total (λ i. records_of d (resolve i)) items % 0x1_0000_0000)
        × (snapshot_points d t ≡ total (λ i. points_of d (resolve i)) items % 0x1_0000_0000)
        × (k ≡ total (λ i. misses_of (resolve i)) items % 0x1_0000_0000)
  unfolding zero_scores
  derived_totals items s d h =
      let z = clear_slots (zero_scores s) in
      let sums = derive_items_lem items z 0 d h in
      let zero = zeroed s d in
      let fits = derive_items-Fits items z 0 d (omega (arith, zero.0, zero.1)) in
      (
        omega (arith, sums.0, fits.0, zero.0),
        omega (arith, sums.1, fits.1, zero.1),
        omega (arith, sums.2, fits.2),
      )

  -- What the totals of a migrated save are.
  abbrev pub HasTotals : Snapshot → Snapshot → BuildDiscipline → Type 0
  HasTotals s t d =
      let resolve = resolve_item lookup_form resolver in
      (snapshot_score d t
        ≡ total (λ i. records_of d (resolve i)) s.registered_items % 0x1_0000_0000)
      × (snapshot_points d t
          ≡ total (λ i. points_of d (resolve i)) s.registered_items % 0x1_0000_0000)
      × (s.registered_items ≢ []
          → t.build_migration_notice.unresolved_historical_registrations
            ≡ total (λ i. misses_of (resolve i)) s.registered_items % 0x1_0000_0000)

  migrate_legacy-HasTotals :
      (s : Snapshot) (d : BuildDiscipline)
      → IsEnumerator d
      → HasTotals s (migrate_legacy lookup_form resolver s) d
  unfolding migrate_legacy
  migrate_legacy-HasTotals s d h =
      let (t, k) =
        derive_items lookup_form resolver s.registered_items (clear_slots (zero_scores s), 0) in
      let kept =
        finish_totals (not (is_nil s.registered_items)) (not (is_nil s.reward_totals))
          (has_legacy_undo_reward_deltas s.undo_history) k t d in
      let derived = derived_totals s.registered_items s d h in
      (
        kept.0 ∙ derived.0,
        kept.1 ∙ derived.1,
        λ some_item. kept.2 (not_nil s.registered_items some_item) ∙ derived.2,
      )

  by_version-HasTotals :
      (s : Snapshot) (d : BuildDiscipline)
      → s.build_migration_version < 2
      → IsEnumerator d
      → HasTotals s (normalize_by_version lookup_form resolver s) d
  by_version-HasTotals s d old h =
      let e : leb 2 s.build_migration_version ≡ false = ground arith in
      unfold normalize_by_version in rw (e, normalize_by_version) (migrate_legacy-HasTotals s d h)

  -- A save from before the current version gets, for each discipline, as many records as items that
  -- resolve to it and the sum of their points, in 32-bit arithmetic; and if it has any item, the
  -- notice counts those that do not resolve.
  pub migrated_totals :
      (s : Snapshot) (d : BuildDiscipline)
      → s.build_migration_version < 2
      → IsEnumerator d
      → HasTotals s (normalize_loaded_snapshot lookup_form resolver s) d
  unfolding normalize_loaded_snapshot normalize_active_slot_option_ids
  migrated_totals s d old h = by_version-HasTotals (normalize_active_slot_option_ids s) d old h

  -- The totals do not depend on the order in which the hash map gives its items.
  pub migrated_order :
      (s : Snapshot) (items : List (FormId × ℕ)) (d : BuildDiscipline)
      → s.build_migration_version < 2
      → IsEnumerator d
      → Perm s.registered_items items
      → let t = normalize_loaded_snapshot lookup_form resolver s in
        let u =
          normalize_loaded_snapshot lookup_form resolver (record s { registered_items = items }) in
        (snapshot_score d t ≡ snapshot_score d u) × (snapshot_points d t ≡ snapshot_points d u)
  migrated_order s items d old h p =
      let resolve = resolve_item lookup_form resolver in
      let mine = migrated_totals s d old h in
      let other = migrated_totals (record s { registered_items = items }) d old h in
      (
        omega (arith, mine.0, other.0, total-perm (λ i. records_of d (resolve i)) p),
        omega (arith, mine.1, other.1, total-perm (λ i. points_of d (resolve i)) p),
      )

-- ===== src/Save/AnyFile/Whole.antt =====
-- src/SerializationLoad.cpp: the load of any file, damaged or made up.
use codex_of_power_ng.Base.{
  ◌≡◌, Option, none, some, List, [], ◌∷◌, map, ◌==◌, refl, arith, All, sym, subst, ◌⊎◌, inl, inr,
}
use codex_of_power_ng.Build.Migration.{normalize_loaded_snapshot, strip_record}
use codex_of_power_ng.Build.Migration.Normal.{IsNormal}
use codex_of_power_ng.Build.Migration.Laws.{loaded-IsNormal}
use codex_of_power_ng.Build.Migration.Kept.{
  normalize-IsKeptBy, IsKeptOrStripped, strip_record-deltas, length-stripped,
}
use codex_of_power_ng.Registration.QuickList.{QuickListState, invalidate_quick_register_cache}
use codex_of_power_ng.State.{UndoRecord, RuntimeState}
use codex_of_power_ng.State.Snapshot.{Snapshot, replace_state, empty_snapshot}
use codex_of_power_ng.Save.Format.{
  SavedRecord, LoadEnv, record_registered_items, record_blocked_items, record_notified_items,
  record_rewards, record_undo_history, record_build_scores, record_build_slots,
  record_build_migration, record_build_applied_effects,
}
use codex_of_power_ng.Save.Load.{load_record, load_records, finish_load, load}
use codex_of_power_ng.Save.Loader.Entries.{load_ids}
use codex_of_power_ng.Base.Keyed.{NoRepeat}
use codex_of_power_ng.Save.AnyFile.Records.{
  HasSoundParts, IsSound, load_registered-IsSound, load_ids-NoRepeat, load_rewards-IsSound,
  load_applied_effects-IsSound, load_undo-IsSound, load_scores-IsSound, load_slots-IsSound,
  load_migration-IsSound,
}
use codex_of_power_ng.Save.AnyFile.Undo.{IsBoundedDeltas, IsBoundedHistory}
use codex_of_power_ng.Save.AnyFile.Yields.{Yields, Yields-bind, Yields-if}

module _ (env : LoadEnv) where
  load_record-IsSound :
      (r : SavedRecord) (s : Snapshot) → IsSound env s → Yields (IsSound env) (load_record env r s)
  unfolding load_record
  load_record-IsSound r s w =
      let P = IsSound env in
      Yields-if P (r.record_type == record_registered_items) _ _
        (load_registered-IsSound env r.version r.announced r.content s w)
        (Yields-if P (r.record_type == record_blocked_items) _ _
          (Yields-bind NoRepeat P (load_ids env r.announced r.content s.blocked_items) _
            (load_ids-NoRepeat env r.announced r.content s.blocked_items w.0.0.1.0)
            (λ ids d. (((w.0.0.0, (d, w.0.0.1.1)), w.0.1), w.1)))
          (Yields-if P (r.record_type == record_notified_items) _ _
            (Yields-bind NoRepeat P (load_ids env r.announced r.content s.notified_items) _
              (load_ids-NoRepeat env r.announced r.content s.notified_items w.0.0.1.1)
              (λ ids d. (((w.0.0.0, (w.0.0.1.0, d)), w.0.1), w.1)))
            (Yields-if P (r.record_type == record_build_scores) _ _
              (load_scores-IsSound env r.version r.announced r.content s w)
              (Yields-if P (r.record_type == record_build_slots) _ _
                (load_slots-IsSound env r.version r.announced r.content s w)
                (Yields-if P (r.record_type == record_build_migration) _ _
                  (load_migration-IsSound env r.version r.announced r.content s w)
                  (Yields-if P (r.record_type == record_rewards) _ _
                    (load_rewards-IsSound env r.announced r.content s w)
                    (Yields-if P (r.record_type == record_build_applied_effects) _ _
                      (load_applied_effects-IsSound env r.version r.announced r.content s w)
                      (Yields-if P (r.record_type == record_undo_history) _ _
                        (load_undo-IsSound env r.version r.announced r.content s w) w))))))))

  load_records-IsSound :
      (records : List SavedRecord) (s : Snapshot)
      → IsSound env s
      → Yields (IsSound env) (load_records env records s)
  unfolding load_records
  load_records-IsSound [] s w = w
  load_records-IsSound (r ∷ records) s w =
      Yields-bind (IsSound env) (IsSound env) (load_record env r s) _ (load_record-IsSound r s w)
        (λ t v. load_records-IsSound records t v)

  stripped-bounded :
      (rs : List UndoRecord) → All (λ r. IsBoundedDeltas env r.reward_deltas) (map strip_record rs)
  stripped-bounded [] = tt
  stripped-bounded (r ∷ rs) = (
    subst (IsBoundedDeltas env) (sym (strip_record-deltas r)) (omega arith, tt),
    stripped-bounded rs,
  )

  stripped-IsBoundedHistory :
      (rs : List UndoRecord) → IsBoundedHistory env rs → IsBoundedHistory env (map strip_record rs)
  stripped-IsBoundedHistory rs w = (omega (arith, w.0, length-stripped rs), stripped-bounded rs)

  kept-IsBoundedHistory :
      (rs kept : List UndoRecord)
      → IsKeptOrStripped rs kept
      → IsBoundedHistory env kept
      → IsBoundedHistory env rs
  kept-IsBoundedHistory rs kept (inl e) w = subst (IsBoundedHistory env) (sym e) w
  kept-IsBoundedHistory rs kept (inr e) w =
      subst (IsBoundedHistory env) (sym e) (stripped-IsBoundedHistory kept w)

  normalized-IsSound :
      (s : Snapshot)
      → IsSound env s
      → IsSound env (normalize_loaded_snapshot env.lookup_form none s)
  normalized-IsSound s w =
      let kept = normalize-IsKeptBy env.lookup_form none s in
      (
        subst (HasSoundParts env) (sym kept.0) w.0,
        kept-IsBoundedHistory (normalize_loaded_snapshot env.lookup_form none s).undo_history
            s.undo_history kept.1 w.1,
      )

  -- What a load did to the state and to the cached quick list.
  abbrev pub IsLoaded :
      {A : Type 0} → RuntimeState × QuickListState A → RuntimeState × QuickListState A → Type 0
  IsLoaded after before =
      (after ≡ before)
      ⊎ ((loaded : Snapshot) × ((after
              ≡ (replace_state before.0 loaded, invalidate_quick_register_cache before.1))
            × (IsNormal loaded × IsSound env loaded)))

  finish_load-IsLoaded :
      {A : Type 0}
      → (o : Option Snapshot) (world : RuntimeState × QuickListState A) → Yields (IsSound env) o
      → IsLoaded (finish_load env o world) world
  finish_load-IsLoaded none world w = inl refl
  finish_load-IsLoaded (some s) world w = inr (
    normalize_loaded_snapshot env.lookup_form none s,
    (refl, (loaded-IsNormal env.lookup_form none s, normalized-IsSound s w)),
  )

  -- A load of any records, also of a damaged file, either changes nothing or replaces the whole state
  -- by a snapshot that needs no further migration: registered items, ids and totals with no key
  -- twice, totals of supported actor values that went through the clamp to their cap, at most ten
  -- records to undo, with at most 64 reward deltas each, all of supported actor values.
  pub load-IsLoaded :
      {A : Type 0}
      → (records : List SavedRecord) (world : RuntimeState × QuickListState A)
      → IsLoaded (load env records world) world
  unfolding load
  load-IsLoaded records world =
      finish_load-IsLoaded (load_records env records empty_snapshot) world (
        load_records-IsSound records empty_snapshot
          (((tt, (tt, tt)), ((tt, tt), (tt, tt))), (omega arith, tt)))

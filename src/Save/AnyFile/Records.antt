-- ===== src/Save/AnyFile/Records.antt =====
-- src/SerializationLoad.cpp: one record of any version, length and bytes.
use codex_of_power_ng.Base.{
  ℕ, ◌+◌, ◌-◌, ◌/◌, min, not, ◌&&◌, List, [], ltb, leb, ◌==◌, if◌then◌else◌, arith,
}
use codex_of_power_ng.Base.Keyed.{Distinct}
use codex_of_power_ng.Build.Migration.Kept.{KeptParts, kept_parts}
use codex_of_power_ng.State.{FormId}
use codex_of_power_ng.State.Snapshot.{Snapshot}
use codex_of_power_ng.Save.Bytes.{Bytes, get8, get32, get64}
use codex_of_power_ng.Save.Format.{LoadEnv}
use codex_of_power_ng.Save.Loader.Build.{
  load_build_scores, load_build_slots, load_build_migration, read_slots,
}
use codex_of_power_ng.Save.Loader.Entries.{
  read_count, registered_by_version, load_registered, load_ids, load_rewards,
  load_build_applied_effects, read_totals, is_supported_reward_actor_value,
  is_supported_build_effect_actor_value,
}
use codex_of_power_ng.Save.Loader.Undo.{load_undo_history, read_undo_entries}
use codex_of_power_ng.Base.Keyed.{NoRepeat}
use codex_of_power_ng.Save.AnyFile.Lists.{
  IsClampedMap, read_registered_v1-Distinct, read_registered_v2-Distinct, read_ids-NoRepeat,
  read_totals-IsClampedMap,
}
use codex_of_power_ng.Save.AnyFile.Undo.{IsBoundedHistory, read_undo_entries-IsBoundedHistory}
use codex_of_power_ng.Save.AnyFile.Yields.{Yields, Yields-read, Yields-bind, Yields-if}

-- The lists that no migration changes: keys and ids stand once, totals are of supported actor values
-- and went through the clamp.
abbrev pub HasSoundParts : LoadEnv → KeptParts → Type 0
HasSoundParts env s =
    (Distinct s.registered × (NoRepeat s.blocked × NoRepeat s.notified))
    × (IsClampedMap env (is_supported_reward_actor_value env.actor_values) s.rewards
        × IsClampedMap env (is_supported_build_effect_actor_value env.actor_values) s.effects)

abbrev pub IsSound : LoadEnv → Snapshot → Type 0
IsSound env s = HasSoundParts env (kept_parts s) × IsBoundedHistory env s.undo_history

module _ (env : LoadEnv) where
  pub load_registered-IsSound :
      (version len : ℕ) (bytes : Bytes) (s : Snapshot)
      → IsSound env s
      → Yields (IsSound env) (load_registered env version len bytes s)
  unfolding load_registered registered_by_version
  load_registered-IsSound version len bytes s w =
      let P = IsSound env in
      Yields-read P (read_count len bytes) _ (λ c.
        Yields-bind Distinct P
          (registered_by_version env version (len - 4) c.0 c.1 s.registered_items) _
          (Yields-if Distinct (version == 1) _ _
            (read_registered_v1-Distinct env (min c.0 ((len - 4) / 4)) c.1 _ w.0.0.0)
            (Yields-if Distinct (version == 2) _ _
              (read_registered_v2-Distinct env (min c.0 ((len - 4) / 8)) c.1 _ w.0.0.0) w.0.0.0))
          (λ items d. (((d, w.0.0.1), w.0.1), w.1)))

  pub load_ids-NoRepeat :
      (len : ℕ) (bytes : Bytes) (ids : List FormId)
      → NoRepeat ids
      → Yields NoRepeat (load_ids env len bytes ids)
  unfolding load_ids
  load_ids-NoRepeat len bytes ids d =
      Yields-read NoRepeat (read_count len bytes) _
        (λ c. read_ids-NoRepeat env (min c.0 ((len - 4) / 4)) c.1 ids d)

  pub load_rewards-IsSound :
      (len : ℕ) (bytes : Bytes) (s : Snapshot)
      → IsSound env s
      → Yields (IsSound env) (load_rewards env len bytes s)
  unfolding load_rewards
  load_rewards-IsSound len bytes s w =
      let P = IsSound env in
      let supported = is_supported_reward_actor_value env.actor_values in
      Yields-read P (read_count len bytes) _ (λ c.
        Yields-bind (IsClampedMap env supported) P
          (read_totals env supported (min (min c.0 ((len - 4) / 8)) 256) c.1 s.reward_totals) _
          (read_totals-IsClampedMap env supported (min (min c.0 ((len - 4) / 8)) 256) c.1
            s.reward_totals w.0.1.0)
          (λ totals t. ((w.0.0, (t, w.0.1.1)), w.1)))

  pub load_applied_effects-IsSound :
      (version len : ℕ) (bytes : Bytes) (s : Snapshot)
      → IsSound env s
      → Yields (IsSound env) (load_build_applied_effects env version len bytes s)
  unfolding load_build_applied_effects
  load_applied_effects-IsSound version len bytes s w =
      let P = IsSound env in
      let supported = is_supported_build_effect_actor_value env.actor_values in
      Yields-if P (version == 1) _ _
        (Yields-read P (read_count len bytes) _ (λ c.
          Yields-bind (IsClampedMap env supported) P
            (read_totals env supported (min c.0 ((len - 4) / 8)) c.1 s.build_applied_effect_totals)
            _
            (read_totals-IsClampedMap env supported (min c.0 ((len - 4) / 8)) c.1
              s.build_applied_effect_totals w.0.1.1)
            (λ totals t. ((w.0.0, (w.0.1.0, t)), w.1))))
        w

  pub load_undo-IsSound :
      (version len : ℕ) (bytes : Bytes) (s : Snapshot)
      → IsSound env s
      → Yields (IsSound env) (load_undo_history env version len bytes s)
  unfolding load_undo_history
  load_undo-IsSound version len bytes s w =
      let P = IsSound env in
      Yields-if P (ltb len 12) _ _ tt (
        Yields-read P (get32 bytes) _ (λ c. Yields-read P (get64 c.1) _ (λ n.
          Yields-bind (IsBoundedHistory env) P (read_undo_entries env version c.0 (len - 12) n.1 [])
            _
            (read_undo_entries-IsBoundedHistory env version c.0 (len - 12) n.1 [] (omega arith, tt))
            (λ history h. (w.0, h)))))

  pub load_scores-IsSound :
      (version len : ℕ) (bytes : Bytes) (s : Snapshot)
      → IsSound env s
      → Yields (IsSound env) (load_build_scores version len bytes s)
  unfolding load_build_scores
  load_scores-IsSound version len bytes s w =
      let P = IsSound env in
      Yields-if P (not (version == 1) && not (version == 2)) _ _ w (
        Yields-if P (ltb len (12 + (if leb 2 version then 12 else 0))) _ _ tt (
          Yields-read P (get32 bytes) _ (λ a. Yields-read P (get32 a.1) _ (λ b.
            Yields-read P (get32 b.1) _ (λ c.
              Yields-if P (leb 2 version) _ _
                (Yields-read P (get32 c.1) _
                  (λ d. Yields-read P (get32 d.1) _ (λ e. Yields-read P (get32 e.1) _ (λ f. w))))
                w)))))

  pub load_slots-IsSound :
      (version len : ℕ) (bytes : Bytes) (s : Snapshot)
      → IsSound env s
      → Yields (IsSound env) (load_build_slots env version len bytes s)
  unfolding load_build_slots
  load_slots-IsSound version len bytes s w =
      let P = IsSound env in
      Yields-if P (not (version == 1)) _ _ w (
        Yields-read P (read_count len bytes) _
          (λ c. Yields-read P (read_slots env.codec c.0 0 (len - 4) c.1 _) _ (λ slots. w)))

  pub load_migration-IsSound :
      (version len : ℕ) (bytes : Bytes) (s : Snapshot)
      → IsSound env s
      → Yields (IsSound env) (load_build_migration version len bytes s)
  unfolding load_build_migration
  load_migration-IsSound version len bytes s w =
      let P = IsSound env in
      Yields-if P (not (version == 1)) _ _ w (
        Yields-if P (ltb len 14) _ _ tt (
          Yields-read P (get32 bytes) _ (λ a. Yields-read P (get32 a.1) _ (λ b.
            Yields-read P (get8 b.1) _
              (λ c. Yields-read P (get8 c.1) _ (λ d. Yields-read P (get32 d.1) _ (λ e. w)))))))

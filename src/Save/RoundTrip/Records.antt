-- ===== src/Save/RoundTrip/Records.antt =====
-- src/SerializationLoad.cpp: the records that are lists, each read back as a whole.
use mathlib.Core.List.{reverse_aux, append-nil}
use codex_of_power_ng.Base.{
  ℕ, ◌-◌, ◌/◌, ◌≡◌, ◌≤◌, min, some, List, [], ◌∷◌, ◌++◌, length, refl, arith, ap, sym, subst, ◌∙◌,
  All,
}
use codex_of_power_ng.Base.Word.{IsU32}
use codex_of_power_ng.Base.Keyed.{Distinct}
use codex_of_power_ng.State.{FormId, ActorValue, Float32}
use codex_of_power_ng.State.Snapshot.{Snapshot}
use codex_of_power_ng.Save.Bytes.{Bytes, put32}
use codex_of_power_ng.Save.Format.{LoadEnv, max_serialized_reward_entries}
use codex_of_power_ng.Save.Writer.{
  size32, pair_chunks, id_chunks, registered_chunks, rewards_chunks, build_applied_effects_chunks,
}
use codex_of_power_ng.Save.Loader.Entries.{
  read_count, registered_by_version, read_registered_v2, load_registered, load_ids, read_ids,
  read_totals, load_rewards, load_build_applied_effects, is_supported_reward_actor_value,
  is_supported_build_effect_actor_value,
}
use codex_of_power_ng.Save.RoundTrip.Chunks.{payload}
use codex_of_power_ng.Base.Keyed.{NoRepeat}
use codex_of_power_ng.Save.RoundTrip.Entries.{
  IsWordPair, IsKept, length-pair_chunks, length-id_chunks, read-count, read-registered, read-ids,
  read-totals,
}

-- How many entries the bytes behind a count are read as.
pub pairs_read :
    (xs : List (ℕ × ℕ))
    → min (length xs) ((length (put32 (length xs) ++ payload (pair_chunks xs)) - 4) / 8) ≡ length xs
pairs_read xs = ground (arith, length-pair_chunks xs)

ids_read :
    (xs : List ℕ)
    → min (length xs) ((length (put32 (length xs) ++ payload (id_chunks xs)) - 4) / 4) ≡ length xs
ids_read xs = ground (arith, length-id_chunks xs)

registered-by_parts :
    (env : LoadEnv) (bytes rest : Bytes) (n : ℕ) (t : Snapshot) (items : List (FormId × ℕ))
    → read_count (length bytes) bytes ≡ some (n, rest)
    → min n ((length bytes - 4) / 8) ≡ n
    → read_registered_v2 env n rest t.registered_items ≡ some items
    → load_registered env 2 (length bytes) bytes t ≡ some (record t { registered_items = items })
unfolding load_registered registered_by_version
registered-by_parts env bytes rest n t items c m r = rw (c, m, r) refl

ids-by_parts :
    (env : LoadEnv) (bytes rest : Bytes) (n : ℕ) (before ids : List FormId)
    → read_count (length bytes) bytes ≡ some (n, rest)
    → min n ((length bytes - 4) / 4) ≡ n
    → read_ids env n rest before ≡ some ids
    → load_ids env (length bytes) bytes before ≡ some ids
unfolding load_ids
ids-by_parts env bytes rest n before ids c m r = rw (c, m) r

rewards-by_parts :
    (env : LoadEnv) (bytes rest : Bytes) (n : ℕ) (t : Snapshot)
    (totals : List (ActorValue × Float32))
    → read_count (length bytes) bytes ≡ some (n, rest)
    → min (min n ((length bytes - 4) / 8)) max_serialized_reward_entries ≡ n
    → read_totals env (is_supported_reward_actor_value env.actor_values) n rest t.reward_totals
      ≡ some totals
    → load_rewards env (length bytes) bytes t ≡ some (record t { reward_totals = totals })
unfolding load_rewards
rewards-by_parts env bytes rest n t totals c m r = rw (c, m, r) refl

pub applied_effects-by_parts :
    (env : LoadEnv) (bytes rest : Bytes) (n : ℕ) (t : Snapshot)
    (totals : List (ActorValue × Float32))
    → read_count (length bytes) bytes ≡ some (n, rest)
    → min n ((length bytes - 4) / 8) ≡ n
    → read_totals env
        (is_supported_build_effect_actor_value env.actor_values)
        n
        rest
        t.build_applied_effect_totals
      ≡ some totals
    → load_build_applied_effects env 1 (length bytes) bytes t
      ≡ some (record t { build_applied_effect_totals = totals })
unfolding load_build_applied_effects
applied_effects-by_parts env bytes rest n t totals c m r = rw (c, m, r) refl

-- The count as the writer casts it.
size32-whole : {A : Type 0} → (xs : List A) → IsU32 (length xs) → size32 xs ≡ length xs
size32-whole xs h = omega (arith, h)

pub counted :
    {A : Type 0}
    → (xs : List A) (body : Bytes) → IsU32 (length xs)
    → put32 (size32 xs) ++ body ≡ put32 (length xs) ++ body
counted xs body h = ap (λ n. put32 n ++ body) (size32-whole xs h)

module _ (env : LoadEnv) where
  pub load-rewards :
      (s t : Snapshot)
      → length s.reward_totals ≤ max_serialized_reward_entries
      → All (IsKept env (is_supported_reward_actor_value env.actor_values)) s.reward_totals
      → Distinct (t.reward_totals ++ s.reward_totals)
      → load_rewards env (length (payload (rewards_chunks s))) (payload (rewards_chunks s)) t
        ≡ some (record t { reward_totals = t.reward_totals ++ s.reward_totals })
  load-rewards s t n w d =
      let totals = s.reward_totals in
      let body = payload (pair_chunks totals) in
      let bytes = put32 (length totals) ++ body in
      let supported = is_supported_reward_actor_value env.actor_values in
      let all = read-totals env supported totals t.reward_totals [] w d in
      subst
        (λ b.
          load_rewards env (length b) b t
          ≡ some (record t { reward_totals = t.reward_totals ++ totals }))
        (sym (counted totals body (omega (arith, n))))
        (rewards-by_parts env bytes body (length totals) t _
          (read-count (length bytes) (length totals) body (ground arith) (omega (arith, n)))
          (ap (λ k. min k max_serialized_reward_entries) (pairs_read totals) ∙ ground (arith, n))
          (subst
            (λ b.
              read_totals env supported (length totals) b t.reward_totals
              ≡ some (t.reward_totals ++ totals))
            (append-nil body) all))

  pub load-applied_effects :
      (s t : Snapshot)
      → IsU32 (length s.build_applied_effect_totals)
      → All
          (IsKept env (is_supported_build_effect_actor_value env.actor_values))
          s.build_applied_effect_totals
      → Distinct (t.build_applied_effect_totals ++ s.build_applied_effect_totals)
      → load_build_applied_effects env 1
          (length (payload (build_applied_effects_chunks s)))
          (payload (build_applied_effects_chunks s))
          t
        ≡ some (record t {
          build_applied_effect_totals =
              t.build_applied_effect_totals ++ s.build_applied_effect_totals;
        })
  load-applied_effects s t n w d =
      let totals = s.build_applied_effect_totals in
      let before = t.build_applied_effect_totals in
      let body = payload (pair_chunks totals) in
      let bytes = put32 (length totals) ++ body in
      let supported = is_supported_build_effect_actor_value env.actor_values in
      let all = read-totals env supported totals before [] w d in
      subst
        (λ b.
          load_build_applied_effects env 1 (length b) b t
          ≡ some (record t { build_applied_effect_totals = before ++ totals }))
        (sym (counted totals body n))
        (applied_effects-by_parts env bytes body (length totals) t _
          (read-count (length bytes) (length totals) body (ground arith) n) (pairs_read totals)
          (subst (λ b. read_totals env supported (length totals) b before ≡ some (before ++ totals))
            (append-nil body) all))

module _ (env : LoadEnv) (same : (id : FormId) → env.resolve_form_id id ≡ some id) where
  pub load-registered :
      (s t : Snapshot)
      → IsU32 (length s.registered_items)
      → All IsWordPair s.registered_items
      → Distinct (reverse_aux s.registered_items t.registered_items)
      → load_registered env 2
          (length (payload (registered_chunks s)))
          (payload (registered_chunks s))
          t
        ≡ some (record t { registered_items = reverse_aux s.registered_items t.registered_items })
  load-registered s t n w d =
      let items = s.registered_items in
      let body = payload (pair_chunks items) in
      let bytes = put32 (length items) ++ body in
      let filled = reverse_aux items t.registered_items in
      subst
        (λ b. load_registered env 2 (length b) b t ≡ some (record t { registered_items = filled }))
        (sym (counted items body n))
        (registered-by_parts env bytes body (length items) t filled
          (read-count (length bytes) (length items) body (ground arith) n) (pairs_read items)
          (subst (λ b. read_registered_v2 env (length items) b t.registered_items ≡ some filled)
            (append-nil body) (read-registered env same items t.registered_items [] w d)))

  pub load-ids :
      (ids before : List FormId)
      → IsU32 (length ids)
      → All IsU32 ids
      → NoRepeat (reverse_aux ids before)
      → let bytes = payload (put32 (size32 ids) ∷ id_chunks ids) in
        load_ids env (length bytes) bytes before ≡ some (reverse_aux ids before)
  load-ids ids before n w d =
      let body = payload (id_chunks ids) in
      let bytes = put32 (length ids) ++ body in
      subst (λ b. load_ids env (length b) b before ≡ some (reverse_aux ids before))
        (sym (counted ids body n))
        (ids-by_parts env bytes body (length ids) before _
          (read-count (length bytes) (length ids) body (ground arith) n) (ids_read ids)
          (subst (λ b. read_ids env (length ids) b before ≡ some (reverse_aux ids before))
            (append-nil body) (read-ids env same ids before [] w d)))

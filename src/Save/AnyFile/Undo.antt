-- ===== src/Save/AnyFile/Undo.antt =====
-- src/SerializationLoad.cpp: the undo history, read from any bytes.
use codex_of_power_ng.Base.{
  ℕ, zero, suc, ◌+◌, ◌-◌, ◌/◌, ◌≡◌, ◌≤◌, ◌<◌, min, true, Option, none, some, List, [], ◌∷◌, ◌++◌,
  length, length-append, ltb, leb, arith, All, Bool-cases, inl, inr,
}
use codex_of_power_ng.Registration.Store.{trim}
use codex_of_power_ng.State.{FormId, UndoRecord, RewardDelta, undo_history_limit}
use codex_of_power_ng.Save.Bytes.{Bytes, get32, get64}
use codex_of_power_ng.Save.Format.{LoadEnv, max_serialized_undo_reward_deltas}
use codex_of_power_ng.Save.Loader.Entries.{is_supported_reward_actor_value}
use codex_of_power_ng.Save.Loader.Undo.{
  read_contribution, keep_delta, read_deltas, read_undo_entry, read_undo_entries, push_resolved,
  undo_header_size,
}
use codex_of_power_ng.Save.AnyFile.Yields.{Yields, Yields-read, Yields-bind, Yields-if, All-snoc}

-- The deltas of an entry: at most 64, each of a supported actor value.
abbrev pub IsBoundedDeltas : LoadEnv → List RewardDelta → Type 0
IsBoundedDeltas env ds =
    (length ds ≤ max_serialized_undo_reward_deltas)
    × All (λ d. is_supported_reward_actor_value env.actor_values d.av ≡ true) ds

abbrev pub IsBoundedHistory : LoadEnv → List UndoRecord → Type 0
IsBoundedHistory env rs =
    (length rs ≤ undo_history_limit) × All (λ r. IsBoundedDeltas env r.reward_deltas) rs

module _ (env : LoadEnv) where
  -- As many deltas as were read, at most.
  abbrev IsBoundedBy : ℕ → List RewardDelta → Type 0
  IsBoundedBy j ds = (length ds ≤ j) × IsBoundedDeltas env ds

  keep_delta-IsBoundedBy :
      (j av delta : ℕ) (ds : List RewardDelta)
      → IsBoundedBy j ds
      → IsBoundedBy (j + 1) (keep_delta env j av delta ds)
  keep_delta-IsBoundedBy j av delta ds w =
      let d : RewardDelta = record { av = av; delta = delta } in
      elim (Bool-cases (leb max_serialized_undo_reward_deltas j)) [
        | inl t ↦ rw t (omega (arith, w.0), w.1)
        | inr f ↦ elim (Bool-cases (is_supported_reward_actor_value env.actor_values av)) [
          | inl s ↦
              let grown = length-append ds (d ∷ []) in
              rw (f, s)
                (
                  omega (arith, w.0, grown),
                  (
                    let room : j < max_serialized_undo_reward_deltas = ground arith in
                        (omega (arith, w.0, grown, room)),
                    All-snoc (λ e. is_supported_reward_actor_value env.actor_values e.av ≡ true) ds
                        d w.1.1 s,
                  ),
                )
          | inr s ↦ rw (f, s) (omega (arith, w.0), w.1)
        ]
      ]

  read_deltas-IsBoundedDeltas :
      (n j : ℕ) (bytes : Bytes) (ds : List RewardDelta)
      → IsBoundedBy j ds
      → Yields (λ x. IsBoundedDeltas env x.0) (read_deltas env n j bytes ds)
  unfolding read_deltas
  read_deltas-IsBoundedDeltas zero j bytes ds w = w.1
  read_deltas-IsBoundedDeltas (suc n) j bytes ds w = Yields-read _ (get32 bytes) _ (λ x.
      Yields-read _ (get32 x.1) _
        (λ y. read_deltas-IsBoundedDeltas n (j + 1) y.1 _ (keep_delta-IsBoundedBy j x.0 y.0 ds w)))

  read_undo_entry-IsBoundedDeltas :
      (version remaining : ℕ) (bytes : Bytes)
      → Yields
          (λ x. IsBoundedDeltas env x.0.reward_deltas)
          (read_undo_entry env version remaining bytes)
  unfolding read_undo_entry
  read_undo_entry-IsBoundedDeltas version remaining bytes =
      let P : UndoRecord × (ℕ × Bytes) → Type 0 = λ x. IsBoundedDeltas env x.0.reward_deltas in
      let left = remaining - undo_header_size version in
      Yields-read P (get64 bytes) _ (λ a. Yields-read P (get32 a.1) _ (λ b.
        Yields-read P (get32 b.1) _ (λ c. Yields-read P (get32 c.1) _ (λ d.
          Yields-read P (read_contribution version d.1) _ (λ e. Yields-read P (get32 e.1) _ (λ f.
            Yields-bind (λ x. IsBoundedDeltas env x.0) P
              (read_deltas env (min f.0 (left / 8)) 0 f.1 []) _
              (read_deltas-IsBoundedDeltas (min f.0 (left / 8)) 0 f.1 []
                (omega arith, (omega arith, tt)))
              (λ g w. w)))))))

  trim-IsBoundedHistory :
      (rs : List UndoRecord)
      → All (λ r. IsBoundedDeltas env r.reward_deltas) rs
      → IsBoundedHistory env (trim rs)
  unfolding trim
  trim-IsBoundedHistory [] w = (omega arith, tt)
  trim-IsBoundedHistory (r ∷ rs) w = elim (Bool-cases (ltb undo_history_limit (length (r ∷ rs)))) [
    | inl t ↦ rw t (trim-IsBoundedHistory rs w.1)
    | inr f ↦ rw f (ground arith, w)
  ]

  push_resolved-IsBoundedHistory :
      (r : UndoRecord) (key id : Option FormId) (rs : List UndoRecord)
      → IsBoundedDeltas env r.reward_deltas
      → IsBoundedHistory env rs
      → IsBoundedHistory env (push_resolved r key id rs)
  push_resolved-IsBoundedHistory r none none rs b w = w
  push_resolved-IsBoundedHistory r none (some id) rs b w = w
  push_resolved-IsBoundedHistory r (some key) none rs b w = w
  push_resolved-IsBoundedHistory r (some key) (some id) rs b w =
      trim-IsBoundedHistory (rs ++ (record r { reg_key = key; form_id = id } ∷ [])) (
        All-snoc (λ r. IsBoundedDeltas env r.reward_deltas) rs
          (record r { reg_key = key; form_id = id }) w.1 b)

  pub read_undo_entries-IsBoundedHistory :
      (version n remaining : ℕ) (bytes : Bytes) (rs : List UndoRecord)
      → IsBoundedHistory env rs
      → Yields (IsBoundedHistory env) (read_undo_entries env version n remaining bytes rs)
  unfolding read_undo_entries
  read_undo_entries-IsBoundedHistory version zero remaining bytes rs w = w
  read_undo_entries-IsBoundedHistory version (suc n) remaining bytes rs w =
      Yields-if (IsBoundedHistory env) (ltb remaining (undo_header_size version)) _ _ w (
        Yields-bind (λ x. IsBoundedDeltas env x.0.reward_deltas) (IsBoundedHistory env)
          (read_undo_entry env version remaining bytes) _
          (read_undo_entry-IsBoundedDeltas version remaining bytes)
          (λ x b. read_undo_entries-IsBoundedHistory version n x.1.0 x.1.1 _ (
            push_resolved-IsBoundedHistory x.0 (env.resolve_form_id x.0.reg_key)
              (env.resolve_form_id x.0.form_id) rs b w)))

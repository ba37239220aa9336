-- ===== src/Save/AnyFile/Lists.antt =====
-- src/SerializationLoad.cpp: the records that are lists, read from any bytes.
use codex_of_power_ng.Base.{
  ℕ, zero, suc, ◌≡◌, Bool, true, false, Option, none, some, List, [], ◌∷◌, ◌==◌, refl, arith, All,
  Bool-cases, inl, inr, subst, ap, sym, ==_iff,
}
use codex_of_power_ng.Base.Keyed.{assign, Distinct, emplace-Distinct, assign-Distinct}
use codex_of_power_ng.Rewards.Caps.{clamp_reward_total}
use codex_of_power_ng.State.{FormId, ActorValue, Float32}
use codex_of_power_ng.Save.Bytes.{Bytes, get32}
use codex_of_power_ng.Save.Format.{LoadEnv, group_unknown}
use codex_of_power_ng.Save.Loader.Entries.{
  emplace_resolved, insert_resolved, assign_supported, read_registered_v1, read_registered_v2,
  read_ids, read_totals,
}
use codex_of_power_ng.Base.Keyed.{NoRepeat}
use codex_of_power_ng.Save.AnyFile.Yields.{Yields, Yields-read}

emplace_resolved-Distinct :
    (id : Option FormId) (group : ℕ) (items : List (FormId × ℕ))
    → Distinct items
    → Distinct (emplace_resolved id group items)
emplace_resolved-Distinct none group items d = d
emplace_resolved-Distinct (some id) group items d = emplace-Distinct id group items d

insert_resolved-NoRepeat :
    (id : Option FormId) (ids : List FormId) → NoRepeat ids → NoRepeat (insert_resolved id ids)
insert_resolved-NoRepeat none ids d = d
insert_resolved-NoRepeat (some id) ids d = ground arith

-- A total that went through the clamp to its cap, of a supported actor value.
abbrev pub IsClamped : LoadEnv → (ActorValue → Bool) → ActorValue × Float32 → Type 0
IsClamped env supported (av, total) =
    (supported av ≡ true)
    × ((raw : Float32) × (total ≡ clamp_reward_total env.actor_values env.float_ops av raw))

abbrev pub IsClampedMap : LoadEnv → (ActorValue → Bool) → List (ActorValue × Float32) → Type 0
IsClampedMap env supported totals = Distinct totals × All (IsClamped env supported) totals

assign-IsClamped :
    (env : LoadEnv) (supported : ActorValue → Bool) (av raw : ℕ)
    (totals : List (ActorValue × Float32))
    → supported av ≡ true
    → All (IsClamped env supported) totals
    → All
        (IsClamped env supported)
        (assign av (clamp_reward_total env.actor_values env.float_ops av raw) totals)
assign-IsClamped env supported av raw [] h w = ((h, (raw, refl)), tt)
assign-IsClamped env supported av raw ((j, v) ∷ totals) h w = elim (Bool-cases (j == av)) [
  | inl t ↦
      let e : av ≡ j = sym ((==_iff j av).0 t) in
      rw t (
        (
          subst (λ k. supported k ≡ true) e h,
          (raw, ap (λ k. clamp_reward_total env.actor_values env.float_ops k raw) e),
        ),
        w.1,
      )
  | inr f ↦ rw f (w.0, assign-IsClamped env supported av raw totals h w.1)
]

assign_supported-IsClampedMap :
    (env : LoadEnv) (supported : ActorValue → Bool) (av raw : ℕ)
    (totals : List (ActorValue × Float32)) (b : Bool)
    → supported av ≡ b
    → IsClampedMap env supported totals
    → IsClampedMap env supported (assign_supported env b av raw totals)
assign_supported-IsClampedMap env supported av raw totals true h w = (
  assign-Distinct av (clamp_reward_total env.actor_values env.float_ops av raw) totals w.0,
  assign-IsClamped env supported av raw totals h w.1,
)
assign_supported-IsClampedMap env supported av raw totals false h w = w

module _ (env : LoadEnv) where
  pub read_registered_v1-Distinct :
      (n : ℕ) (bytes : Bytes) (items : List (FormId × ℕ))
      → Distinct items
      → Yields Distinct (read_registered_v1 env n bytes items)
  unfolding read_registered_v1
  read_registered_v1-Distinct zero bytes items d = d
  read_registered_v1-Distinct (suc n) bytes items d = Yields-read Distinct (get32 bytes) _ (λ x.
      read_registered_v1-Distinct n x.1 _
        (emplace_resolved-Distinct (env.resolve_form_id x.0) group_unknown items d))

  pub read_registered_v2-Distinct :
      (n : ℕ) (bytes : Bytes) (items : List (FormId × ℕ))
      → Distinct items
      → Yields Distinct (read_registered_v2 env n bytes items)
  unfolding read_registered_v2
  read_registered_v2-Distinct zero bytes items d = d
  read_registered_v2-Distinct (suc n) bytes items d = Yields-read Distinct (get32 bytes) _ (λ x.
      Yields-read Distinct (get32 x.1) _ (λ y.
        read_registered_v2-Distinct n y.1 _
          (emplace_resolved-Distinct (env.resolve_form_id x.0) y.0 items d)))

  pub read_ids-NoRepeat :
      (n : ℕ) (bytes : Bytes) (ids : List FormId)
      → NoRepeat ids
      → Yields NoRepeat (read_ids env n bytes ids)
  unfolding read_ids
  read_ids-NoRepeat zero bytes ids d = d
  read_ids-NoRepeat (suc n) bytes ids d =
      Yields-read NoRepeat (get32 bytes) _
        (λ x. read_ids-NoRepeat n x.1 _ (insert_resolved-NoRepeat (env.resolve_form_id x.0) ids d))

  pub read_totals-IsClampedMap :
      (supported : ActorValue → Bool) (n : ℕ) (bytes : Bytes) (totals : List (ActorValue × Float32))
      → IsClampedMap env supported totals
      → Yields (IsClampedMap env supported) (read_totals env supported n bytes totals)
  unfolding read_totals
  read_totals-IsClampedMap supported zero bytes totals w = w
  read_totals-IsClampedMap supported (suc n) bytes totals w =
      let P = IsClampedMap env supported in
      Yields-read P (get32 bytes) _ (λ x. Yields-read P (get32 x.1) _ (λ y.
        read_totals-IsClampedMap supported n y.1 _
          (assign_supported-IsClampedMap env supported x.0 y.0 totals (supported x.0) refl w)))

-- ===== src/Save/RoundTrip/Dropped.antt =====
-- src/SerializationLoad.cpp: which of the saved totals of applied effects a load takes over.
use codex_of_power_ng.Base.{ℕ, ◌≡◌, Bool, none, List, [], ◌∷◌, if◌then◌else◌, All}
use codex_of_power_ng.Base.Keyed.{lookup}
use codex_of_power_ng.Rewards.Caps.{clamp_reward_total}
use codex_of_power_ng.State.{ActorValue, Float32}
use codex_of_power_ng.State.Snapshot.{Snapshot}
use codex_of_power_ng.Save.Bytes.{Bytes}
use codex_of_power_ng.Save.Format.{LoadEnv}

abbrev AreFresh : List (ℕ × ℕ) → List (ℕ × ℕ) → Type 0
AreFresh acc = All (λ x. lookup x.0 acc ≡ none)

module _ (env : LoadEnv) (supported : ActorValue → Bool) where
  -- The supported totals, each clamped to its cap.
  abbrev pub taken_over : List (ActorValue × Float32) → List (ActorValue × Float32)
  taken_over [] = []
  taken_over ((av, total) ∷ rest) =
      let tail = taken_over rest in
      if supported av
      then (av, clamp_reward_total env.actor_values env.float_ops av total) ∷ tail
      else tail

-- ===== src/Registration/Keys/Canonical.antt =====
-- src/RegistrationInternalMaps.cpp: register keys are canonical if the variant map has no long chains.
use codex_of_power_ng.Base.{ℕ, ◌≡◌, ◌≤◌, ◌<◌, some, List}
use codex_of_power_ng.Base.Keyed.{lookup}
use codex_of_power_ng.State.{FormId}
use codex_of_power_ng.Registration.Game.{Game}
use codex_of_power_ng.Registration.Keys.{variant_steps}

module _ (game : Game) (variant_base : List (FormId × FormId)) where
  -- Every mapping lowers the rank, and eight steps are enough for each form.
  abbrev pub IsRanked : (FormId → ℕ) → Type 0
  IsRanked rank =
      ((k b : FormId) → lookup k variant_base ≡ some b → rank b < rank k)
      × ((k : FormId) → rank k ≤ variant_steps)

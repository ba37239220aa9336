-- ===== src/Build/Magnitude.antt =====
-- src/BuildOptionCatalog.cpp: the magnitude of an option at a total of build points, and the parts
-- of its effect.
use text.Mathlib.Text.{◌==◌ as str_eq}
use codex_of_power_ng.Base.{ℕ, List, [], ◌∷◌, String, if◌then◌else◌}
use codex_of_power_ng.Base.Int.{pos, ◌+ℤ◌, scale}
use codex_of_power_ng.Build.Tiers.{get_build_points_tier, get_next_build_points_threshold_centi}
use codex_of_power_ng.Build.Types.{
  BuildEffectType, BuildMagnitude, Literal, BuildOptionDef, float, int32,
}
use codex_of_power_ng.Game.{FloatOps}
use codex_of_power_ng.State.{Float32}

-- `BuildResolvedEffectPart`; a bundle of one or two parts is a list.
pub record EffectPart : Type 0 where
  pub effect_type : BuildEffectType
  pub effect_key : String
  pub magnitude : BuildMagnitude Float32

module _ (fl : FloatOps) where
  abbrev scaled_float : Literal → Literal → ℕ → Float32
  scaled_float base per_tier tier =
      fl.fadd (fl.of_thousandths base) (fl.fmul (fl.of_thousandths per_tier) (fl.of_uint32 tier))

  unfoldable pub scale_float_magnitude : Literal → Literal → ℕ → Float32
  unfolding get_build_points_tier
  scale_float_magnitude base per_tier points_centi =
      scaled_float base per_tier (get_build_points_tier points_centi)

  abbrev compiled : BuildMagnitude Literal → BuildMagnitude Float32
  compiled (float l) = float (fl.of_thousandths l)
  compiled (int32 i) = int32 i

  -- A variant of floats or of integers; where the two kinds differ the tier does not count.
  abbrev scaled : BuildMagnitude Literal → BuildMagnitude Literal → ℕ → BuildMagnitude Float32
  scaled (float base) (float per_tier) tier = float (scaled_float base per_tier tier)
  scaled (int32 base) (int32 per_tier) tier = int32 (base +ℤ scale tier per_tier)
  scaled base _ tier = compiled base

  unfoldable pub get_scaled_build_magnitude : BuildOptionDef → ℕ → BuildMagnitude Float32
  unfolding get_build_points_tier
  get_scaled_build_magnitude option points_centi =
      scaled option.magnitude option.magnitude_per_tier (get_build_points_tier points_centi)

  unfoldable pub get_next_tier_build_magnitude : BuildOptionDef → ℕ → BuildMagnitude Float32
  unfolding get_scaled_build_magnitude get_next_build_points_threshold_centi
  get_next_tier_build_magnitude option points_centi =
      get_scaled_build_magnitude option (get_next_build_points_threshold_centi points_centi)

  abbrev value_part : String → BuildMagnitude Float32 → EffectPart
  value_part key magnitude = record {
    effect_type = BuildEffectType.actor_value;
    effect_key = key;
    magnitude = magnitude;
  }

  unfoldable pub get_resolved_build_effect_bundle : BuildOptionDef → ℕ → List EffectPart
  unfolding get_scaled_build_magnitude scale_float_magnitude
  get_resolved_build_effect_bundle option points_centi =
      let primary = get_scaled_build_magnitude option points_centi in
      if str_eq option.effect_key "reserve_bundle"
      then value_part "stamina" primary
        ∷ value_part "stamina_rate" (float (scale_float_magnitude (pos 40) (pos 20) points_centi))
        ∷ []
      else if str_eq option.effect_key "magicka_well_bundle"
      then value_part "magicka" primary
        ∷ value_part "magicka_rate" (float (scale_float_magnitude (pos 20) (pos 10) points_centi))
        ∷ []
      else if str_eq option.effect_key "meditation_bundle"
      then value_part "magicka_rate" primary
        ∷ value_part "magicka" (float (scale_float_magnitude (pos 2000) (pos 1000) points_centi))
        ∷ []
      else if str_eq option.effect_key "hauler_bundle"
      then value_part "stamina" primary
        ∷ record {
          effect_type = BuildEffectType.carry_weight;
          effect_key = "carry_weight";
          magnitude = float (scale_float_magnitude (pos 4000) (pos 1000) points_centi);
        }
        ∷ []
      else record {
        effect_type = option.effect_type;
        effect_key = option.effect_key;
        magnitude = primary;
      }
        ∷ []

  unfoldable pub get_next_tier_resolved_build_effect_bundle : BuildOptionDef → ℕ → List EffectPart
  unfolding get_resolved_build_effect_bundle get_next_build_points_threshold_centi
  get_next_tier_resolved_build_effect_bundle option points_centi =
      get_resolved_build_effect_bundle option (get_next_build_points_threshold_centi points_centi)

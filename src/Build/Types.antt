-- ===== src/Build/Types.antt =====
-- include/CodexOfPowerNG/BuildTypes.h: disciplines, slots, points and the record of an option.
use codex_of_power_ng.Base.{ℕ, ◌/◌, Bool, true, false, String, ltb, ◌==◌, if◌then◌else◌}
use codex_of_power_ng.Base.Int.{ℤ}
use codex_of_power_ng.Base.Word.{mul32}

-- `other` is a value outside the enumerators, which a cast from a saved number can give.
pub data BuildDiscipline : Type 0 where
  attack defense utility : BuildDiscipline
  other : ℕ → BuildDiscipline

pub data BuildSlotKind : Type 0 where
  attack defense utility wildcard : BuildSlotKind

pub data BuildLayer : Type 0 where
  baseline slotted : BuildLayer

pub data BuildSlotId : Type 0 where
  attack1 attack2 defense1 utility1 utility2 wildcard1 : BuildSlotId

pub data BuildSlotCompatibility : Type 0 where
  same_discipline_only wildcard_only same_or_wildcard : BuildSlotCompatibility

pub data BuildEffectType : Type 0 where
  actor_value carry_weight economy utility_flag : BuildEffectType

pub data BuildStackRule : Type 0 where
  once_only : BuildStackRule

-- `other` as for `BuildDiscipline`.
pub data BuildMigrationState : Type 0 where
  not_started pending_cleanup complete : BuildMigrationState
  other : ℕ → BuildMigrationState

pub record BuildMigrationNoticeSnapshot : Type 0 where
  pub needs_notice : Bool
  pub legacy_rewards_migrated : Bool
  pub unresolved_historical_registrations : ℕ

-- `BuildMigrationNoticeSnapshot{}`
abbrev pub empty_notice : BuildMigrationNoticeSnapshot
empty_notice = record {
  needs_notice = false;
  legacy_rewards_migrated = false;
  unresolved_historical_registrations = 0;
}

-- `std::variant<float, std::int32_t>`, over a representation of floats.
pub data BuildMagnitude (F : Type 0) : Type 0 where
  float : F → BuildMagnitude F
  int32 : ℤ → BuildMagnitude F

-- A float constant of the source is its decimal literal, in thousandths.
abbrev pub Literal : Type 0
Literal = ℤ

abbrev pub build_point_scale : ℕ
build_point_scale = 100

abbrev pub build_points_per_tier_centi : ℕ
build_points_per_tier_centi = 800

unfoldable pub to_build_point_centi : ℕ → ℕ
to_build_point_centi whole_points = mul32 whole_points build_point_scale

unfoldable pub normalize_legacy_unlock : ℕ → ℕ
unfolding to_build_point_centi
normalize_legacy_unlock value =
    if ltb value build_point_scale then mul32 (value / 5) (to_build_point_centi 4) else value

pub record BuildOptionDef : Type 0 where
  pub id : String
  pub discipline : BuildDiscipline
  pub theme_id : String
  pub theme_title_key : String
  pub hierarchy : String
  pub layer : BuildLayer
  pub unlock_points_centi : ℕ
  pub slot_compatibility : BuildSlotCompatibility
  pub effect_type : BuildEffectType
  pub effect_key : String
  pub magnitude : BuildMagnitude Literal
  pub magnitude_per_tier : BuildMagnitude Literal
  pub exclusivity_group : String
  pub stack_rule : BuildStackRule
  pub title_key : String
  pub description_key : String

-- The constructor, which turns the legacy unlock value into points.
unfoldable pub build_option_def :
    String
    → BuildDiscipline
    → String
    → String
    → String
    → BuildLayer
    → ℕ
    → BuildSlotCompatibility
    → BuildEffectType
    → String
    → BuildMagnitude Literal
    → BuildMagnitude Literal
    → String
    → BuildStackRule
    → String
    → String
    → BuildOptionDef
unfolding normalize_legacy_unlock
build_option_def i d t tk h l u c e k m mt x r ti de = record {
  id = i;
  discipline = d;
  theme_id = t;
  theme_title_key = tk;
  hierarchy = h;
  layer = l;
  unlock_points_centi = normalize_legacy_unlock u;
  slot_compatibility = c;
  effect_type = e;
  effect_key = k;
  magnitude = m;
  magnitude_per_tier = mt;
  exclusivity_group = x;
  stack_rule = r;
  title_key = ti;
  description_key = de;
}

abbrev pub discipline_eq : BuildDiscipline → BuildDiscipline → Bool
discipline_eq BuildDiscipline.attack BuildDiscipline.attack = true
discipline_eq BuildDiscipline.defense BuildDiscipline.defense = true
discipline_eq BuildDiscipline.utility BuildDiscipline.utility = true
discipline_eq (BuildDiscipline.other a) (BuildDiscipline.other b) = a == b
discipline_eq _ _ = false

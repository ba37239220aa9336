-- ===== src/Registration/Keys.antt =====
-- src/RegistrationInternalMaps.cpp and RegistrationRules.cpp: the key under which an item is
-- registered. The loop over the variant map takes at most eight steps in the source, so the fuel
-- is the source's own bound.
pub mod Canonical
use codex_of_power_ng.Base.{
  ℕ, zero, suc, ◌≡◌, ◌≤◌, ◌<◌, Bool, true, false, not, ◌&&◌, ◌||◌, Option, none, some, List, ◌==◌,
  if◌then◌else◌, refl, arith, Option-cases, inl, inr, ap, sym, ◌∙◌,
}
use codex_of_power_ng.Base.Keyed.{lookup}
use codex_of_power_ng.State.{FormId}
use codex_of_power_ng.Registration.Game.{Game}

abbrev pub is_valid_variant_step : FormId → FormId → Bool
is_valid_variant_step current_id next_id = not (next_id == 0) && not (next_id == current_id)

-- The number of steps of the loop `for (int safety = 0; safety < 8; ++safety)`.
abbrev pub variant_steps : ℕ
variant_steps = 8

-- One turn of the loop on what `g_variantBase.find` gives; none where it breaks.
abbrev pub follow : Game → FormId → Option FormId → Option FormId
follow game reg_key none = none
follow game reg_key (some base_id) =
    if not (is_valid_variant_step reg_key base_id)
    then none
    else if not (game.is_form base_id) || base_id == reg_key
    then none
    else some base_id

unfoldable pub variant_step : Game → List (FormId × FormId) → FormId → Option FormId
variant_step game variant_base reg_key = follow game reg_key (lookup reg_key variant_base)

abbrev pub or_stop : Option FormId → (FormId → FormId) → FormId → FormId
or_stop none go reg_key = reg_key
or_stop (some base) go reg_key = go base

unfoldable pub walk_variants : ℕ → Game → List (FormId × FormId) → FormId → FormId
walk_variants zero game variant_base reg_key = reg_key
walk_variants (suc safety) game variant_base reg_key =
    or_stop (variant_step game variant_base reg_key) (walk_variants safety game variant_base)
      reg_key

abbrev pub template_or_self : Option FormId → FormId → FormId
template_or_self none item = item
template_or_self (some template) item = template

-- `GetRegisterKey` of a form that is not null; the result then is not null either.
unfoldable pub get_register_key : Bool → Game → List (FormId × FormId) → FormId → FormId
get_register_key normalize_registration game variant_base item =
    if not normalize_registration
    then item
    else walk_variants variant_steps game variant_base
        (template_or_self (game.template_weapon item) item)

-- ===== src/Registration/Exclusion.antt =====
-- src/RegistrationInternalMaps.cpp and RegistrationRules.cpp: the forms that cannot be registered.
-- The map of excluded forms is a value here, as it is read once and never written again.
use text.Mathlib.Text.{find?}
use codex_of_power_ng.Base.{
  Bool, true, false, not, ◌&&◌, ◌||◌, List, String, ◌==◌, is_some, is_empty, if◌then◌else◌,
}
use codex_of_power_ng.Base.Keyed.{member}
use codex_of_power_ng.State.{FormId, RuntimeState}
use codex_of_power_ng.Registration.Game.{Game}
use codex_of_power_ng.Registration.Store.{is_blocked}

-- The claw's name in English, in both spellings, and in Korean.
unfoldable pub is_dragon_claw_name : String → Bool
is_dragon_claw_name name =
    if is_empty name
    then false
    else if is_some (find? name "Dragon Claw") || is_some (find? name "dragon claw")
    then true
    else is_some (find? name "용발톱")

unfoldable pub is_intrinsic_excluded : Game → FormId → Bool
unfolding is_dragon_claw_name
is_intrinsic_excluded game item =
    if game.is_key item || (game.is_lockpick item || game.is_gold item)
    then true
    else is_dragon_claw_name (game.form_name item)

unfoldable pub is_excluded_by_map : List FormId → FormId → Bool
is_excluded_by_map excluded form_id = if form_id == 0 then true else member form_id excluded

unfoldable pub is_excluded_form : Game → List FormId → RuntimeState → FormId → Bool
unfolding is_intrinsic_excluded
is_excluded_form game excluded state item =
    if member item excluded
    then true
    else if is_blocked item state
    then true
    else is_intrinsic_excluded game item

unfoldable pub is_excluded_or_blocked : Game → List FormId → RuntimeState → FormId → FormId → Bool
unfolding is_excluded_form
is_excluded_or_blocked game excluded state item reg_key =
    if is_excluded_form game excluded state item
    then true
    else if not (reg_key == item) && is_excluded_form game excluded state reg_key
    then true
    else false

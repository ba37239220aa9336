-- ===== src/Registration/Game.antt =====
-- The game's forms, as the plugin reads them: RE::TESForm of CommonLibSSE, which is not part of the
-- repository. A pointer to a form is the form's id, so two pointers are equal exactly if the ids
-- are, and `GetFormID()` is the id itself.
use codex_of_power_ng.Base.{Bool, Option, String}
use codex_of_power_ng.State.{FormId}
use codex_of_power_ng.Build.Progression.FormTypes.{FormType}

pub record Game : Type 0 where
  -- `TESForm::LookupByID(id) != nullptr`
  pub is_form : FormId → Bool
  pub form_type : FormId → FormType
  -- `GetName()`, empty for a null pointer
  pub form_name : FormId → String
  pub is_key : FormId → Bool
  pub is_lockpick : FormId → Bool
  pub is_gold : FormId → Bool
  -- `As<TESObjectWEAP>()->templateWeapon`, none if the form is no weapon
  pub template_weapon : FormId → Option FormId

-- ===== src/Registration/TccGate.antt =====
-- include/CodexOfPowerNG/RegistrationTccGate.h and src/RegistrationInternalTcc.cpp: whether the
-- museum's lists let an item be registered.
pub mod FailClosed
use codex_of_power_ng.Base.{
  ◌≡◌, ◌↔◌, Bool, true, false, not, ◌&&◌, ◌||◌, Option, none, some, ◌==◌, is_some, if◌then◌else◌,
  arith,
}
use codex_of_power_ng.State.{FormId}

pub data TccGateDecision : Type 0 where
  allow block_not_displayed block_unavailable : TccGateDecision

unfoldable pub decide_tcc_gate : Bool → Bool → Bool → Bool → Bool → TccGateDecision
decide_tcc_gate require_tcc_displayed has_master_list has_displayed_list tracked_by_lotd
      is_displayed =
    if not require_tcc_displayed
    then allow
    else if not has_master_list || not has_displayed_list
    then block_unavailable
    else if not tracked_by_lotd
    then allow
    else if is_displayed
    then allow
    else block_not_displayed

-- A form list of the game, `HasForm` of it, and null if it was not found.
pub record TccLists : Type 0 where
  pub master : Option (FormId → Bool)
  pub displayed : Option (FormId → Bool)

-- The forms are not null where the gate is evaluated.
unfoldable pub list_has_either_form : Option (FormId → Bool) → FormId → FormId → Bool
list_has_either_form none first second = false
list_has_either_form (some has_form) first second =
    if has_form first then true else not (second == first) && has_form second

unfoldable pub evaluate_tcc_gate : Bool → TccLists → FormId → FormId → TccGateDecision
unfolding decide_tcc_gate list_has_either_form
evaluate_tcc_gate require_tcc_displayed lists item reg_key =
    decide_tcc_gate require_tcc_displayed (is_some lists.master) (is_some lists.displayed)
      (list_has_either_form lists.master reg_key item)
      (list_has_either_form lists.displayed reg_key item)

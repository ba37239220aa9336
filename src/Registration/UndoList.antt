-- ===== src/Registration/UndoList.antt =====
-- src/RegistrationUndo.cpp: the list of the recent registrations, of which the newest can be undone.
pub mod Newest
use codex_of_power_ng.Base.{
  ℕ, Bool, true, false, not, ◌||◌, Option, none, some, List, [], ◌∷◌, String, min, is_some,
  is_empty, if◌then◌else◌,
}
use codex_of_power_ng.State.{FormId, UndoRecord, RuntimeState, undo_history_limit}
use codex_of_power_ng.Registration.Game.{Game}
use codex_of_power_ng.Registration.Store.{snapshot_undo_records}
use codex_of_power_ng.Registration.QuickList.Builder.{best_item_name}

pub record UndoListItem : Type 0 where
  pub action_id : ℕ
  pub form_id : FormId
  pub reg_key : FormId
  pub group : ℕ
  pub can_undo : Bool
  pub has_reward_delta : Bool
  pub name : String

abbrev is_none : {A : Type 0} → List A → Bool
is_none [] = true
is_none (x ∷ xs) = false

-- The text for an item without a name is an argument.
unfoldable pub resolve_undo_item_name : Game → String → UndoRecord → String
resolve_undo_item_name game unnamed r =
    let name = best_item_name game r.form_id r.reg_key in if is_empty name then unnamed else name

unfoldable pub undo_item : Game → String → Bool → UndoRecord → UndoListItem
unfolding resolve_undo_item_name
undo_item game unnamed can_undo r = record {
  action_id = r.action_id;
  form_id = r.form_id;
  reg_key = r.reg_key;
  group = r.group;
  can_undo = can_undo;
  has_reward_delta = is_some r.build_contribution || not (is_none r.reward_deltas);
  name = resolve_undo_item_name game unnamed r;
}

-- The loop over the records; `first` is `i == 0`.
unfoldable pub undo_items : Game → String → Bool → List UndoRecord → List UndoListItem
unfolding undo_item
undo_items game unnamed first [] = []
undo_items game unnamed first (r ∷ rs) =
    undo_item game unnamed first r ∷ undo_items game unnamed false rs

unfoldable pub build_recent_undo_list : Game → String → ℕ → RuntimeState → List UndoListItem
unfolding undo_items
build_recent_undo_list game unnamed limit state =
    undo_items game unnamed true (snapshot_undo_records (min limit undo_history_limit) state)

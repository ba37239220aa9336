-- ===== src/Flows/Input.antt =====
-- What the flows read of the game and of the settings. The answers that a call can change are
-- functions of the calls made so far.
use codex_of_power_ng.Base.{Bool, Option, List}
use codex_of_power_ng.Base.Int.{ℤ}
use codex_of_power_ng.Effects.Sync.{PlayerValues}
use codex_of_power_ng.Game.{FloatOps, ActorValues, GameCall}
use codex_of_power_ng.Registration.Game.{Game}
use codex_of_power_ng.Registration.QuickList.{QuickListState}
use codex_of_power_ng.Registration.QuickList.Builder.{InventoryEntry, Settings}
use codex_of_power_ng.Registration.TccGate.{TccLists}
use codex_of_power_ng.State.{FormId, ActorValue, Float32, RuntimeState}

-- `is_bound` is `LookupByID<TESBoundObject>(id) != nullptr`; a null entry of the inventory is none.
-- A quest protection is asked for before and after the search of the inventory.
pub record FlowInput : Type 0 where
  pub game : Game
  pub is_bound : FormId → Bool
  pub excluded : List FormId
  pub variant_base : List (FormId × FormId)
  pub settings : Settings
  pub tcc_lists : TccLists
  pub quest_protected : FormId → Bool
  pub quest_protected_later : FormId → Bool
  pub has_player : Bool
  pub inventory : List (Option InventoryEntry)
  pub item_count : List GameCall → FormId → ℤ
  pub player_values : PlayerValues
  pub float_ops : FloatOps
  pub actor_values : ActorValues
  pub sort_totals : List (ActorValue × Float32) → List (ActorValue × Float32)
  pub order_values : List ActorValue → List ActorValue

-- The state that the flows change: the shared state, the calls made to the game, the quick list.
module _ (A : Type 0) where
  pub record FlowState : Type 0 where
    pub runtime : RuntimeState
    pub calls : List GameCall
    pub quick_list : QuickListState A

-- ===== src/Events.antt =====
-- src/Events.cpp with include/CodexOfPowerNG/EventsNotifyGate.h and NotifiedStateStoreOps.h: the
-- notification of a looted item that is not registered. One event is handled as a whole.
pub mod Once
use codex_of_power_ng.Base.{
  ℕ, ◌+◌, Bool, true, false, not, ◌&&◌, ◌||◌, Option, none, some, List, ltb, leb, ◌==◌,
  if◌then◌else◌,
}
use codex_of_power_ng.Base.Int.{ℤ, pos, leb_ℤ}
use codex_of_power_ng.Base.Word.{add64}
use codex_of_power_ng.Base.Keyed.{member, insert}
use codex_of_power_ng.Build.Progression.FormTypes.{group_from_form_type, unknown_group}
use codex_of_power_ng.State.{FormId, RuntimeState}
use codex_of_power_ng.Registration.Game.{Game}
use codex_of_power_ng.Registration.Keys.{get_register_key}
use codex_of_power_ng.Registration.Exclusion.{is_excluded_form, is_excluded_or_blocked}
use codex_of_power_ng.Registration.Store.{is_registered_either}

pub data LootNotifyDecision : Type 0 where
  skip_already_notified skip_throttle notify : LootNotifyDecision

unfoldable pub decide_loot_notify : Bool → ℕ → ℕ → ℕ → LootNotifyDecision
decide_loot_notify already_notified now_ms last_notify_ms throttle_ms =
    if already_notified
    then skip_already_notified
    else if ltb 0 last_notify_ms && ltb now_ms (add64 last_notify_ms throttle_ms)
    then skip_throttle
    else notify

unfoldable pub contains_any : List FormId → FormId → FormId → Bool
contains_any notified primary_id secondary_id =
    member primary_id notified || member secondary_id notified

abbrev pub insert_valid : FormId → List FormId → List FormId
insert_valid id ids = if not (id == 0) then insert id ids else ids

unfoldable pub mark_pair : List FormId → FormId → FormId → List FormId
mark_pair notified primary_id secondary_id =
    insert_valid secondary_id (insert_valid primary_id notified)

abbrev pub debounce_ms : ℕ
debounce_ms = 5000

abbrev pub notify_throttle_ms : ℕ
notify_throttle_ms = 750

-- What one event reads besides the state: the game, the maps, the settings, the clock, whether the
-- game runs (`main && main->gameActive`), and the player's form id, if there is a player.
pub record World : Type 0 where
  pub game : Game
  pub excluded : List FormId
  pub variant_base : List (FormId × FormId)
  pub normalize_registration : Bool
  pub enable_loot_notify : Bool
  pub now_ms : ℕ
  pub game_active : Bool
  pub player : Option FormId

pub record ContainerEvent : Type 0 where
  pub item_count : ℤ
  pub new_container : FormId
  pub base_obj : FormId

pub record EventState : Type 0 where
  pub game_ready : Bool
  pub ignore_until_ms : ℕ
  pub last_notify_ms : ℕ
  pub runtime : RuntimeState

abbrev pub key_of : World → FormId → FormId
key_of w form_id = get_register_key w.normalize_registration w.game w.variant_base form_id

-- `GetDiscoveryGroup` of a form that is not null.
unfoldable pub get_discovery_group : World → RuntimeState → FormId → ℕ
get_discovery_group w state form =
    if is_excluded_form w.game w.excluded state form
    then unknown_group
    else group_from_form_type (w.game.form_type form)

unfoldable pub is_discoverable : World → RuntimeState → FormId → Bool
unfolding get_discovery_group
is_discoverable w state form_id =
    if not (w.game.is_form form_id)
    then false
    else if is_excluded_or_blocked w.game w.excluded state form_id (key_of w form_id)
    then false
    else leb (get_discovery_group w state (key_of w form_id)) 5

-- `Registration::IsRegistered`, of a form that need not exist.
unfoldable pub is_form_registered : World → RuntimeState → FormId → Bool
is_form_registered w state form_id =
    if not (w.game.is_form form_id)
    then false
    else is_registered_either (key_of w form_id) form_id state

unfoldable pub get_register_key_id : World → FormId → FormId
get_register_key_id w form_id = if not (w.game.is_form form_id) then 0 else key_of w form_id

abbrev pub is_notify : LootNotifyDecision → Bool
is_notify notify = true
is_notify _ = false

abbrev pub is_player : Option FormId → FormId → Bool
is_player none container = false
is_player (some id) container = container == id

-- The end of the handler, for an item of the player; the flag tells that a message is shown.
unfoldable pub notify_item : World → FormId → EventState → EventState × Bool
unfolding is_discoverable is_form_registered get_register_key_id contains_any decide_loot_notify
    mark_pair
notify_item w base_id s =
    if not (is_discoverable w s.runtime base_id)
    then (s, false)
    else if is_form_registered w s.runtime base_id
    then (s, false)
    else let reg_key_id = get_register_key_id w base_id in
      if reg_key_id == 0
      then (s, false)
      else let notified = s.runtime.notified_items in
        if not (
          is_notify (
            decide_loot_notify (contains_any notified reg_key_id base_id) w.now_ms s.last_notify_ms
              notify_throttle_ms))
        then (s, false)
        else (
          record s {
            last_notify_ms = w.now_ms;
            runtime = record s.runtime { notified_items = mark_pair notified reg_key_id base_id };
          },
          true,
        )

unfoldable pub process_event : World → ContainerEvent → EventState → EventState × Bool
unfolding notify_item
process_event w event s =
    if not w.enable_loot_notify
    then (s, false)
    else if not s.game_ready
    then (s, false)
    else if not w.game_active
    then (record s { ignore_until_ms = add64 w.now_ms debounce_ms }, false)
    else if ltb 0 s.ignore_until_ms && ltb w.now_ms s.ignore_until_ms
    then (s, false)
    else if leb_ℤ event.item_count (pos 0)
    then (s, false)
    else if not (is_player w.player event.new_container)
    then (s, false)
    else notify_item w event.base_obj s

-- ===== src/Tests/Events.antt =====
-- A looted axe that is not registered.
use codex_of_power_ng.Base.{◌+◌, ◌≤◌, ◌≡◌, true, false, not, ◌==◌, some, none, [], ◌∷◌, refl, arith}
use codex_of_power_ng.Base.Int.{pos}
use codex_of_power_ng.Build.Progression.FormTypes.{weapon, group_from_form_type}
use codex_of_power_ng.State.{initial_state}
use codex_of_power_ng.Registration.Game.{Game}
use codex_of_power_ng.Registration.Exclusion.{is_excluded_or_blocked}
use codex_of_power_ng.Registration.Keys.{get_register_key, walk_variants, variant_step}
use codex_of_power_ng.Registration.Store.{is_blocked, is_registered_either}
use codex_of_power_ng.Events.{World, ContainerEvent, EventState, process_event}
use codex_of_power_ng.Events.Once.{run_events, announced_once, announced_apart}

-- Every number but zero is a weapon.
abbrev axes : Game
axes = record {
  is_form = λ id. not (id == 0);
  form_type = λ id. weapon;
  form_name = λ id. "axe";
  is_key = λ id. false;
  is_lockpick = λ id. false;
  is_gold = λ id. false;
  template_weapon = λ id. none;
}

abbrev at_second : World
at_second = record {
  game = axes;
  excluded = [];
  variant_base = [];
  normalize_registration = true;
  enable_loot_notify = true;
  now_ms = 9000;
  game_active = true;
  player = some 20;
}

abbrev looted : ContainerEvent
looted = record { item_count = pos 1; new_container = 20; base_obj = 77 }

abbrev ready : EventState
ready = record {
  game_ready = true;
  ignore_until_ms = 0;
  last_notify_ms = 8000;
  runtime = initial_state;
}

looted_announced : (process_event at_second looted ready).1 ≡ true
unfolding process_event is_excluded_or_blocked is_blocked get_register_key walk_variants
    variant_step group_from_form_type is_registered_either
looted_announced = refl

announced_once_example :
    (process_event at_second looted
      (run_events ((at_second, looted) ∷ []) ((process_event at_second looted ready).0))).1
    ≡ false
announced_once_example =
    announced_once at_second at_second looted looted ((at_second, looted) ∷ []) ready refl refl
      looted_announced

-- The next event, 800 ms later, is that of another axe, and it is announced too.
abbrev next_second : World
next_second = record at_second { now_ms = 9800 }

abbrev other_axe : ContainerEvent
other_axe = record { item_count = pos 1; new_container = 20; base_obj = 78 }

second_announced :
    (process_event next_second other_axe
      (run_events ((at_second, looted) ∷ []) ((process_event at_second looted ready).0))).1
    ≡ true
unfolding run_events process_event is_excluded_or_blocked is_blocked get_register_key walk_variants
    variant_step group_from_form_type is_registered_either
second_announced = refl

announced_apart_example : at_second.now_ms + 750 ≤ next_second.now_ms
announced_apart_example =
    announced_apart at_second next_second looted other_axe ((at_second, looted) ∷ []) ready
      (omega arith) (omega arith) ((omega arith, omega arith), tt) looted_announced second_announced

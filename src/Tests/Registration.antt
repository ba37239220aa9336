-- ===== src/Tests/Registration.antt =====
-- The registration store at concrete inputs.
use codex_of_power_ng.Base.{All, ◌↔◌, is_some, ◌≡◌, true, false, none, some, [], ◌∷◌, refl, arith}
use codex_of_power_ng.Build.Progression.FormTypes.{misc}
use codex_of_power_ng.Registration.Game.{Game}
use codex_of_power_ng.Registration.UndoList.{build_recent_undo_list}
use codex_of_power_ng.Registration.UndoList.Newest.{build_recent_undo_list_correct}
use codex_of_power_ng.State.{UndoRecord, RuntimeState, initial_state}
use codex_of_power_ng.Registration.Store.{
  push_undo_record, pop_latest_undo_record, restore_undo_record, snapshot_undo_records, pop_back,
}
use codex_of_power_ng.Registration.Store.History.{IsHistory}
use codex_of_power_ng.Registration.Store.History.Undo.{push-pop, pop-restore, pop-snapshot}
use codex_of_power_ng.Registration.Store.History.Steps.{undone, here, then_step, Reaches-IsHistory}

-- A game in which no form has a name.
abbrev unnamed_game : Game
unnamed_game = record {
  is_form = λ id. true;
  form_type = λ id. misc;
  form_name = λ id. "";
  is_key = λ id. false;
  is_lockpick = λ id. false;
  is_gold = λ id. false;
  template_weapon = λ id. none;
}

abbrev sword : UndoRecord
sword = record {
  action_id = 0;
  form_id = 0x12eb7;
  reg_key = 0x12eb7;
  group = 0;
  build_contribution = none;
  reward_deltas = [];
}

-- The history of a player who has registered two items.
abbrev two_records : RuntimeState
two_records = record initial_state {
  undo_history = record sword { action_id = 1 } ∷ record sword { action_id = 2 } ∷ [];
  undo_next_action_id = 3;
}

two_records-IsHistory : IsHistory two_records
two_records-IsHistory = ground arith

push-pop_example :
    pop_latest_undo_record 3 ((push_undo_record sword two_records).0)
    ≡ (record two_records { undo_next_action_id = 4 }, some (record sword { action_id = 3 }))
unfolding push_undo_record pop_back
push-pop_example = (push-pop sword two_records two_records-IsHistory (omega arith)).1.1

pop-two_records : pop_latest_undo_record 2 two_records ≡ (
  record two_records { undo_history = record sword { action_id = 1 } ∷ [] },
  some (record sword { action_id = 2 }),
)
unfolding pop_latest_undo_record pop_back
pop-two_records = refl

pop-restore_example :
    restore_undo_record
      (record sword { action_id = 2 })
      (record two_records { undo_history = record sword { action_id = 1 } ∷ [] })
    ≡ two_records
pop-restore_example =
    (pop-restore 2 two_records _ (record sword { action_id = 2 }) two_records-IsHistory
      pop-two_records).1.1

pop-snapshot_example :
    (pop_latest_undo_record 2 two_records).1 ≡ some (record sword { action_id = 2 })
unfolding snapshot_undo_records
pop-snapshot_example = pop-snapshot 2 9 two_records

Reaches-IsHistory_example :
    IsHistory (record two_records { undo_history = record sword { action_id = 1 } ∷ [] })
Reaches-IsHistory_example =
    Reaches-IsHistory two_records-IsHistory
      (then_step here (undone 2 _ (record sword { action_id = 2 }) pop-two_records))

build_recent_undo_list_correct_example :
    All
      (λ item.
        (item.can_undo ≡ true)
        ↔ (is_some ((pop_latest_undo_record item.action_id two_records).1) ≡ true))
      (build_recent_undo_list unnamed_game "(unnamed)" 10 two_records)
build_recent_undo_list_correct_example =
    build_recent_undo_list_correct unnamed_game "(unnamed)" 9 two_records two_records-IsHistory

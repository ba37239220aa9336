-- ===== src/Registration/Store.antt =====
-- src/RegistrationStateStore.cpp: the registered and blocked items and the undo history. Each
-- operation runs under the state's mutex, so it is one function of the state.
pub mod History
use mathlib.Core.List.{reverse}
use codex_of_power_ng.Base.{
  ℕ, ◌+◌, Bool, true, false, ◌||◌, not, Option, none, some, List, [], ◌∷◌, ◌++◌, map, max, min,
  length, take, ltb, ◌==◌, if◌then◌else◌,
}
use codex_of_power_ng.Base.Word.{add64}
use codex_of_power_ng.Base.Keyed.{contains, emplace, erase, member, insert}
use codex_of_power_ng.State.{FormId, UndoRecord, RuntimeState, undo_history_limit}

unfoldable pub is_blocked : FormId → RuntimeState → Bool
is_blocked form_id state = member form_id state.blocked_items

unfoldable pub is_registered : FormId → RuntimeState → Bool
is_registered form_id state = contains form_id state.registered_items

unfoldable pub is_registered_either : FormId → FormId → RuntimeState → Bool
is_registered_either reg_key_id legacy_id state =
    if contains reg_key_id state.registered_items
    then true
    else if not (legacy_id == reg_key_id)
    then contains legacy_id state.registered_items
    else false

insert_if : Bool → FormId → List FormId → List FormId
insert_if true id ids = insert id ids
insert_if false id ids = ids

unfoldable pub block_pair : FormId → FormId → RuntimeState → RuntimeState
unfolding insert_if
block_pair reg_key_id item_id state =
    let first = insert_if (not (reg_key_id == 0)) reg_key_id state.blocked_items in
    record state {
      blocked_items =
          insert_if (if not (item_id == 0) then not (item_id == reg_key_id) else false) item_id
            first;
    }

-- The new count of registered items comes with the state.
unfoldable pub insert_registered : FormId → ℕ → RuntimeState → RuntimeState × ℕ
insert_registered reg_key_id group state =
    let items = emplace reg_key_id group state.registered_items in
    (record state { registered_items = items }, length items)

-- `erase(key) > 0`
unfoldable pub remove_registered : FormId → RuntimeState → RuntimeState × Bool
remove_registered reg_key_id state = (
  record state { registered_items = erase reg_key_id state.registered_items },
  contains reg_key_id state.registered_items,
)

-- `while (size() > kUndoHistoryLimit) pop_front()`
unfoldable pub trim : List UndoRecord → List UndoRecord
trim [] = []
trim (r ∷ rs) = if ltb undo_history_limit (length (r ∷ rs)) then trim rs else r ∷ rs

-- `pop_back()` with the value of `back()`, if there is one.
unfoldable pub pop_back : List UndoRecord → Option (List UndoRecord × UndoRecord)
pop_back [] = none
pop_back (r ∷ rs) = elim (pop_back rs) [
  | none ↦ some ([], r)
  | some (front, last) ↦ some (r ∷ front, last)
]

abbrev pub id_of_last : Option (List UndoRecord × UndoRecord) → ℕ
id_of_last none = 0
id_of_last (some (front, last)) = last.action_id

unfoldable pub last_action_id : List UndoRecord → ℕ
last_action_id rs = id_of_last (pop_back rs)

unfoldable pub push_undo_record : UndoRecord → RuntimeState → RuntimeState × ℕ
unfolding trim last_action_id
push_undo_record r state =
    let history =
      trim (state.undo_history ++ (record r { action_id = state.undo_next_action_id } ∷ [])) in
    (
      record state {
        undo_history = history;
        undo_next_action_id = add64 state.undo_next_action_id 1;
      },
      last_action_id history,
    )

abbrev pub take_latest :
    ℕ → RuntimeState → Option (List UndoRecord × UndoRecord) → RuntimeState × Option UndoRecord
take_latest action_id state none = (state, none)
take_latest action_id state (some (front, latest)) =
    if not (latest.action_id == action_id)
    then (state, none)
    else (record state { undo_history = front }, some latest)

unfoldable pub pop_latest_undo_record : ℕ → RuntimeState → RuntimeState × Option UndoRecord
pop_latest_undo_record action_id state = take_latest action_id state (pop_back state.undo_history)

unfoldable pub restore_undo_record : UndoRecord → RuntimeState → RuntimeState
unfolding trim
restore_undo_record r state = record state {
  undo_next_action_id = max state.undo_next_action_id (add64 r.action_id 1);
  undo_history = trim (state.undo_history ++ (r ∷ []));
}

-- Newest first.
unfoldable pub snapshot_undo_records : ℕ → RuntimeState → List UndoRecord
snapshot_undo_records limit state =
    take (min limit (length state.undo_history)) (reverse state.undo_history)

unfoldable pub registered_count : RuntimeState → ℕ
registered_count state = length state.registered_items

-- `SnapshotQuickList`: the blocked items and the keys of the registered ones.
unfoldable pub snapshot_quick_list : RuntimeState → List FormId × List FormId
snapshot_quick_list state = (state.blocked_items, map (λ entry. entry.0) state.registered_items)

-- ===== src/Registration/Store/History/Steps.antt =====
-- src/RegistrationStateStore.cpp: the states that the undo history goes through.
use codex_of_power_ng.Base.{ℕ, ◌≡◌, ◌<◌, some, subst, sym}
use codex_of_power_ng.Base.Word.{u64_max}
use codex_of_power_ng.State.{UndoRecord, RuntimeState}
use codex_of_power_ng.Registration.Store.{
  push_undo_record, pop_latest_undo_record, restore_undo_record,
}
use codex_of_power_ng.Registration.Store.History.{IsHistory}
use codex_of_power_ng.Registration.Store.History.Undo.{push-pop, pop-restore}

-- A registration pushes its record; an undo pops one, and puts it back when it fails.
pub data Step (s : RuntimeState) : RuntimeState → Type 0 where
  registered :
      (r : UndoRecord) → s.undo_next_action_id < u64_max → Step s ((push_undo_record r s).0)
  undone :
      (id : ℕ) (t : RuntimeState) (r : UndoRecord)
      → pop_latest_undo_record id s ≡ (t, some r)
      → Step s t
  undo_failed :
      (id : ℕ) (t : RuntimeState) (r : UndoRecord)
      → pop_latest_undo_record id s ≡ (t, some r)
      → Step s (restore_undo_record r t)

pub data Reaches (s : RuntimeState) : RuntimeState → Type 0 where
  here : Reaches s s
  then_step : {t u : RuntimeState} → Reaches s t → Step t u → Reaches s u

Step-IsHistory : {s t : RuntimeState} → IsHistory s → Step s t → IsHistory t
Step-IsHistory h (registered r b) = (push-pop r _ h b).1.0
Step-IsHistory h (undone id t r e) = (pop-restore id _ t r h e).1.0
Step-IsHistory h (undo_failed id t r e) = subst IsHistory (sym (pop-restore id _ t r h e).1.1) h

-- In every state that registrations, undos and failed undos reach from a sound one, the history
-- has at most ten records, with growing action ids that are all below the next one.
pub Reaches-IsHistory : {s t : RuntimeState} → IsHistory s → Reaches s t → IsHistory t
Reaches-IsHistory h here = h
Reaches-IsHistory h (then_step p q) = Step-IsHistory (Reaches-IsHistory h p) q

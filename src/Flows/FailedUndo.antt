-- ===== src/Flows/FailedUndo.antt =====
-- src/RegistrationUndo.cpp: what an undo leaves that fails.
use codex_of_power_ng.Base.{
  ℕ, true, false, ◌≡◌, Option, none, some, List, [], ◌∷◌, ◌==◌, ==_iff, refl, arith, ap, sym, ◌∙◌,
  subst, ◌⊎◌, inl, inr, Bool-cases, Option-cases,
}
use mathlib.Core.Bool.{true≢false}
use codex_of_power_ng.Base.Int.{leb_ℤ}
use codex_of_power_ng.Base.Keyed.{
  lookup, contains, emplace, erase, Distinct, lookup-erase_ne, lookup-erase_self,
}
use codex_of_power_ng.Flows.Input.{FlowInput, FlowState}
use codex_of_power_ng.Flows.Undo.{
  UndoOutcome, try_undo_registration, undo_record, undo_removed, give_back, complete_undo,
  rollback_failed_undo, resolve_undo_item_object,
}
use codex_of_power_ng.Flows.Undone.{is_undone}
use codex_of_power_ng.Game.{add_object}
use codex_of_power_ng.Registration.Store.{
  pop_latest_undo_record, restore_undo_record, remove_registered, insert_registered, take_latest,
  pop_back,
}
use codex_of_power_ng.Registration.Store.History.{IsHistory}
use codex_of_power_ng.Registration.Store.History.Undo.{pop-restore}
use codex_of_power_ng.State.{FormId, RuntimeState, UndoRecord}

take_none :
    (id : ℕ) (s : RuntimeState) (o : Option (List UndoRecord × UndoRecord))
    → (take_latest id s o).1 ≡ none
    → (take_latest id s o).0 ≡ s
take_none id s none e = refl
take_none id s (some (front, latest)) e = ground arith

pop_none :
    (id : ℕ) (s : RuntimeState)
    → (pop_latest_undo_record id s).1 ≡ none
    → (pop_latest_undo_record id s).0 ≡ s
unfolding pop_latest_undo_record
pop_none id s e = take_none id s (pop_back s.undo_history) e

abbrev with_items : List (FormId × ℕ) → RuntimeState → RuntimeState
with_items items s = record s { registered_items = items }

restored_items :
    (r : UndoRecord) (t : RuntimeState) (items : List (FormId × ℕ))
    → restore_undo_record r (with_items items t) ≡ with_items items (restore_undo_record r t)
unfolding restore_undo_record
restored_items r t items = refl

items_restored :
    (r : UndoRecord) (t : RuntimeState)
    → (restore_undo_record r t).registered_items ≡ t.registered_items
unfolding restore_undo_record
items_restored r t = refl

-- An entry that is taken out and put in again.
lookup-put_back :
    (k g j : ℕ) (m : List (ℕ × ℕ))
    → Distinct m
    → lookup k m ≡ some g
    → lookup j (emplace k g (erase k m)) ≡ lookup j m
lookup-put_back k g j m d e =
    let gone : lookup k (erase k m) ≡ none = lookup-erase_self k m d in
    elim (Bool-cases (k == j)) [
      | inl t ↦
          let same : k ≡ j = (==_iff k j).0 t in
          rw (gone, t) (sym (subst (λ i. lookup i m ≡ some g) same e))
      | inr f ↦ rw (gone, f) (lookup-erase_ne k j m (ground arith))
    ]

lookup-erase_absent :
    (k j : ℕ) (m : List (ℕ × ℕ)) → lookup k m ≡ none → lookup j (erase k m) ≡ lookup j m
lookup-erase_absent k j [] e = refl
lookup-erase_absent k j ((i, v) ∷ m) e = ground (arith, lookup-erase_absent k j m)

-- The same state, up to the order of the registered items.
abbrev pub HasSameItems : RuntimeState → RuntimeState → Type 0
HasSameItems after before =
    ((k : FormId) → lookup k after.registered_items ≡ lookup k before.registered_items)
    × (after ≡ record before { registered_items = after.registered_items })

module _ {A : Type 0} (w : FlowInput) (r : UndoRecord) where
  abbrev IsFailed : FlowState A → FlowState A × UndoOutcome → Type 0
  IsFailed s result =
      (is_undone result.1 ≡ true) ⊎ (result.0.runtime ≡ rollback_failed_undo r s.runtime)

  completed_undo : (s : FlowState A) → is_undone ((complete_undo w r s).1) ≡ true
  unfolding complete_undo
  completed_undo s = refl

  give_back_fails : (o : Option FormId) (s : FlowState A) → IsFailed s (give_back w r o s)
  unfolding give_back
  give_back_fails none s = inr refl
  give_back_fails (some item) s =
      let calls = add_object item ∷ s.calls in
      elim (Bool-cases (leb_ℤ (w.item_count calls item) (w.item_count s.calls item))) [
        | inl t ↦ rw t (inr refl)
        | inr f ↦ rw f (inl (completed_undo (record s { calls = calls })))
      ]

  undo_removed_fails : (s : FlowState A) → IsFailed s (undo_removed w r true s)
  unfolding undo_removed
  undo_removed_fails s = elim (Bool-cases w.has_player) [
    | inl t ↦ rw t (give_back_fails (resolve_undo_item_object w r) s)
    | inr f ↦ rw f (inr refl)
  ]

  failed_after_removal :
      (s : FlowState A) (t before : RuntimeState)
      → s.runtime ≡ with_items (erase r.reg_key before.registered_items) t
      → restore_undo_record r t ≡ before
      → Distinct before.registered_items
      → lookup r.reg_key before.registered_items ≡ some r.group
      → is_undone ((undo_removed w r true s).1) ≡ false
      → HasSameItems ((undo_removed w r true s).0.runtime) before
  unfolding rollback_failed_undo insert_registered
  failed_after_removal s t before e back d l f = elim (undo_removed_fails s) [
    | inl u ↦ absurd (true≢false (sym u ∙ f))
    | inr q ↦
        let items = emplace r.reg_key r.group (erase r.reg_key before.registered_items) in
        let put : (undo_removed w r true s).0.runtime ≡ with_items items before =
          q
          ∙ ap (rollback_failed_undo r) e
          ∙ restored_items r t items
          ∙ ap (with_items items) back in
        subst (λ x. HasSameItems x before) (sym put)
          (λ k. lookup-put_back r.reg_key r.group k before.registered_items d l, refl)
  ]

undo_record_fails :
    {A : Type 0}
    → (w : FlowInput) (r : UndoRecord) (s : FlowState A) (before : RuntimeState)
    → restore_undo_record r s.runtime ≡ before
    → Distinct before.registered_items
    → (lookup r.reg_key before.registered_items ≡ none)
      ⊎ (lookup r.reg_key before.registered_items ≡ some r.group)
    → is_undone ((undo_record w (some r) s).1) ≡ false
    → HasSameItems ((undo_record w (some r) s).0.runtime) before
unfolding undo_record remove_registered undo_removed
undo_record_fails w r s before back d (inl absent) f =
    let same : s.runtime.registered_items ≡ before.registered_items =
      sym (items_restored r s.runtime) ∙ ap (λ x. x.registered_items) back in
    let gone : contains r.reg_key s.runtime.registered_items ≡ false =
      ap (contains r.reg_key) same ∙ rw absent refl in
    let items = erase r.reg_key s.runtime.registered_items in
    rw gone (
      subst (λ x. HasSameItems x before)
        (sym (restored_items r s.runtime items ∙ ap (with_items items) back))
        (
          λ k.
              ap (λ m. lookup k (erase r.reg_key m)) same
              ∙ lookup-erase_absent r.reg_key k before.registered_items absent,
          refl,
        ))
undo_record_fails w r s before back d (inr there) f =
    let same : s.runtime.registered_items ≡ before.registered_items =
      sym (items_restored r s.runtime) ∙ ap (λ x. x.registered_items) back in
    let found : contains r.reg_key before.registered_items ≡ true = rw there refl in
    let removed : remove_registered r.reg_key s.runtime
        ≡ (with_items (erase r.reg_key before.registered_items) s.runtime, true) =
      ap (λ m. (with_items (erase r.reg_key m) s.runtime, contains r.reg_key m)) same
      ∙ ap (λ b. (with_items (erase r.reg_key before.registered_items) s.runtime, b)) found in
    let step = ap (λ x. undo_removed w r x.1 (record s { runtime = x.0 })) removed in
    subst (λ x. HasSameItems x.0.runtime before) (sym step)
      (failed_after_removal w r
        (record s { runtime = with_items (erase r.reg_key before.registered_items) s.runtime })
        s.runtime before refl back d there (subst (λ x. is_undone x.1 ≡ false) step f))

-- An undo that does not succeed, whatever the game answers, leaves the shared state as it was, up to
-- the order of the registered items: the record that was popped is back, and so is the item with
-- its group. The state before has a sound history, no item twice, and each record to undo has the
-- group of its item, where that is registered.
pub try_undo_failed :
    {A : Type 0}
    → (w : FlowInput) (id : ℕ) (s : FlowState A) → IsHistory s.runtime
    → Distinct s.runtime.registered_items
    → ((r : UndoRecord)
        → (pop_latest_undo_record id s.runtime).1 ≡ some r
        → (lookup r.reg_key s.runtime.registered_items ≡ none)
          ⊎ (lookup r.reg_key s.runtime.registered_items ≡ some r.group))
    → is_undone ((try_undo_registration w id s).1) ≡ false
    → HasSameItems ((try_undo_registration w id s).0.runtime) s.runtime
unfolding try_undo_registration undo_record
try_undo_failed w id s h d m f =
    let popped = pop_latest_undo_record id s.runtime in
    elim (Option-cases popped.1) [
      | inl e ↦
          subst (λ x. HasSameItems x.0.runtime s.runtime)
            (sym (ap (λ o. undo_record w o (record s { runtime = popped.0 })) e))
            (subst (λ x. HasSameItems x s.runtime) (sym (pop_none id s.runtime e))
              (λ k. refl, refl))
      | inr (r, e) ↦
          let step = ap (λ o. undo_record w o (record s { runtime = popped.0 })) e in
          let whole : popped ≡ (popped.0, some r) = λ i. (popped.0, e i) in
          let back = (pop-restore id s.runtime popped.0 r h whole).1.1 in
          subst (λ x. HasSameItems x.0.runtime s.runtime) (sym step)
            (undo_record_fails w r (record s { runtime = popped.0 }) s.runtime back d (m r e)
              (subst (λ x. is_undone x.1 ≡ false) step f))
    ]

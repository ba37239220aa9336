-- ===== src/Registration/Store/History/Undo.antt =====
-- src/RegistrationStateStore.cpp: pushing, popping and restoring an undo record.
use mathlib.Core.List.{reverse, reverse-append}
use codex_of_power_ng.Base.{
  ℕ, ◌+◌, ◌≡◌, ◌≤◌, ◌<◌, true, Option, none, some, List, [], ◌∷◌, ◌++◌, refl, length, length-append,
  ◌==◌, suc, zero, if◌then◌else◌, arith, max, min, inl, inr, sym, subst, take, ap, ◌∙◌,
  none-ne-some,
}
use codex_of_power_ng.Base.Word.{add64, u64_max}
use codex_of_power_ng.State.{UndoRecord, RuntimeState, undo_history_limit}
use codex_of_power_ng.Registration.Store.{
  last_action_id, push_undo_record, pop_latest_undo_record, restore_undo_record, id_of_last,
  take_latest, snapshot_undo_records,
}
use codex_of_power_ng.Registration.Store.History.{
  Increasing, IsHistory, kept, trim_short, trim-append, pop_back-append, pop_back_cases,
  length-kept, kept-Increasing, Increasing-append, Increasing-front,
}

-- The pushed record: its action id is the next one.
abbrev numbered : UndoRecord → RuntimeState → UndoRecord
numbered r s = record r { action_id = s.undo_next_action_id }

-- The state after a push into a history.
abbrev after_push : UndoRecord → RuntimeState → RuntimeState
after_push r s = record s {
  undo_history = kept s.undo_history ++ (numbered r s ∷ []);
  undo_next_action_id = s.undo_next_action_id + 1;
}

push_computes :
    (r : UndoRecord) (s : RuntimeState)
    → IsHistory s
    → s.undo_next_action_id < u64_max
    → push_undo_record r s ≡ (after_push r s, s.undo_next_action_id)
unfolding push_undo_record last_action_id
push_computes r s h b =
    let n : add64 s.undo_next_action_id 1 ≡ s.undo_next_action_id + 1 = omega (arith, b) in
    simp (
      trim-append s.undo_history (numbered r s) h.0,
      ap id_of_last (pop_back-append (kept s.undo_history) (numbered r s)),
      n,
    )

after_push-IsHistory :
    (r : UndoRecord) (s : RuntimeState)
    → IsHistory s
    → s.undo_next_action_id < u64_max
    → IsHistory (after_push r s)
after_push-IsHistory r s h b = (
  omega (
    arith,
    length-append (kept s.undo_history) (numbered r s ∷ []),
    length-kept s.undo_history h.0,
  ),
  (
    Increasing-append 0 (kept s.undo_history) (numbered r s) (s.undo_next_action_id + 1)
        (kept-Increasing 0 s.undo_history s.undo_next_action_id h.1.0) (omega arith),
    omega (arith, b),
  ),
)

pop_computes :
    (front : List UndoRecord) (r : UndoRecord) (s : RuntimeState)
    → pop_latest_undo_record r.action_id (record s { undo_history = front ++ (r ∷ []) })
      ≡ (record s { undo_history = front }, some r)
unfolding pop_latest_undo_record
pop_computes front r s =
    let q : (r.action_id == r.action_id) ≡ true = ground arith in
    ap (take_latest r.action_id (record s { undo_history = front ++ (r ∷ []) }))
      (pop_back-append front r)
    ∙ rw q

restore_computes :
    (front : List UndoRecord) (r : UndoRecord) (s : RuntimeState)
    → IsHistory s
    → s.undo_history ≡ front ++ (r ∷ [])
    → restore_undo_record r (record s { undo_history = front }) ≡ s
unfolding restore_undo_record
restore_computes front r s h e =
    let b =
      Increasing-front 0 front r s.undo_next_action_id
        (subst (λ l. Increasing 0 l s.undo_next_action_id) e h.1.0) in
    let l = subst (λ l. length l ≤ undo_history_limit) e h.0 in
    let n : max s.undo_next_action_id (add64 r.action_id 1) ≡ s.undo_next_action_id =
      omega (arith, b.1, h.1.1) in
    rw (trim_short (front ++ (r ∷ [])) l, n) (ap (λ l. record s { undo_history = l }) (sym e))

-- A push into a sound history gives the record the next action id and leaves a sound history;
-- popping that id gives the record back and leaves the older records, of which a full history has
-- lost its oldest. The ids must not have run out of 64 bits.
pub push-pop :
    (r : UndoRecord) (s : RuntimeState)
    → IsHistory s
    → s.undo_next_action_id < u64_max
    → let pushed = push_undo_record r s in
      (pushed.1 ≡ s.undo_next_action_id)
      × (IsHistory (pushed.0)
          × (pop_latest_undo_record (pushed.1) (pushed.0) ≡ (
            record s {
              undo_history = kept s.undo_history;
              undo_next_action_id = s.undo_next_action_id + 1;
            },
            some (record r { action_id = s.undo_next_action_id }),
          )))
push-pop r s h b = rw (push_computes r s h b) (
  refl,
  (
    after_push-IsHistory r s h b,
    pop_computes (kept s.undo_history) (numbered r s) (after_push r s),
  ),
)

take_latest_inv :
    (id : ℕ) (s t : RuntimeState) (front : List UndoRecord) (latest r : UndoRecord)
    → take_latest id s (some (front, latest)) ≡ (t, some r)
    → (latest ≡ r) × ((t ≡ record s { undo_history = front }) × (r.action_id ≡ id))
take_latest_inv id s t front latest r e = ground arith

-- What a pop that succeeds has found.
pop_inv :
    (id : ℕ) (s t : RuntimeState) (r : UndoRecord)
    → pop_latest_undo_record id s ≡ (t, some r)
    → (front : List UndoRecord) × ((s.undo_history ≡ front ++ (r ∷ []))
        × ((t ≡ record s { undo_history = front }) × (r.action_id ≡ id)))
unfolding pop_latest_undo_record
pop_inv id s t r e = elim (pop_back_cases s.undo_history) [
  | inl (n, q) ↦ absurd (none-ne-some r (ap (λ x. x.1) (ap (take_latest id s) (sym n) ∙ e)))
  | inr (front, (latest, (p, q))) ↦
      let i = take_latest_inv id s t front latest r (ap (take_latest id s) (sym p) ∙ e) in
      (front, (rw⁻¹ i.0 q, i.1))
]

Increasing-upper :
    (lo : ℕ) (rs : List UndoRecord) (a b : ℕ) → a ≤ b → Increasing lo rs a → Increasing lo rs b
Increasing-upper lo [] a b h i = omega arith
Increasing-upper lo (r ∷ rs) a b h i = (i.0, Increasing-upper (r.action_id + 1) rs a b h i.1)

front-IsHistory :
    (front : List UndoRecord) (r : UndoRecord) (s : RuntimeState)
    → IsHistory s
    → s.undo_history ≡ front ++ (r ∷ [])
    → IsHistory (record s { undo_history = front })
front-IsHistory front r s h e =
    let l = subst (λ l. length l ≤ undo_history_limit) e h.0 in
    let i =
      Increasing-front 0 front r s.undo_next_action_id
        (subst (λ l. Increasing 0 l s.undo_next_action_id) e h.1.0) in
    (
      omega (arith, l, length-append front (r ∷ [])),
      (Increasing-upper 0 front r.action_id s.undo_next_action_id (omega (arith, i.1)) i.0, h.1.1),
    )

-- A record that was popped from a sound history has the requested id and leaves a sound history,
-- and restoring it gives back the whole state from which it was popped.
pub pop-restore :
    (id : ℕ) (s t : RuntimeState) (r : UndoRecord)
    → IsHistory s
    → pop_latest_undo_record id s ≡ (t, some r)
    → (r.action_id ≡ id) × (IsHistory t × (restore_undo_record r t ≡ s))
pop-restore id s t r h e =
    let i = pop_inv id s t r e in
    (i.1.1.1, rw (i.1.1.0) (front-IsHistory i.0 r s h i.1.0, restore_computes i.0 r s h i.1.0))

-- The record that a snapshot shows first, if it has the id.
abbrev pub newest_with : ℕ → List UndoRecord → Option UndoRecord
newest_with id [] = none
newest_with id (r ∷ rs) = if r.action_id == id then some r else none

-- The last record of a history is the first one that a snapshot of any positive size shows.
newest_of_append :
    (id limit : ℕ) (front : List UndoRecord) (r : UndoRecord)
    → let rs : List UndoRecord = front ++ (r ∷ []) in
      newest_with id (take (min (limit + 1) (length rs)) (reverse rs))
      ≡ (if r.action_id == id then some r else none)
newest_of_append id limit front r =
    let n : min (limit + 1) (length front + 1) ≡ suc (min limit (length front)) = omega arith in
    simp (length-append front (r ∷ []), reverse-append front (r ∷ []), n)

newest_of_none : (id n : ℕ) → newest_with id (take n []) ≡ none
newest_of_none id zero = refl
newest_of_none id (suc n) = refl

taken :
    (id : ℕ) (s : RuntimeState) (front : List UndoRecord) (r : UndoRecord)
    → (take_latest id s (some (front, r))).1 ≡ (if r.action_id == id then some r else none)
taken id s front r = ground arith

-- A pop takes a record exactly when its id is that of the record which a snapshot of the history
-- (of any positive size) shows first.
pub pop-snapshot :
    (id limit : ℕ) (s : RuntimeState)
    → (pop_latest_undo_record id s).1 ≡ newest_with id (snapshot_undo_records (limit + 1) s)
unfolding pop_latest_undo_record snapshot_undo_records
pop-snapshot id limit s = elim (pop_back_cases s.undo_history) [
  | inl (n, q) ↦
      ap (λ o. (take_latest id s o).1) n
      ∙ sym (newest_of_none id (min (limit + 1) 0))
      ∙ ap (λ rs. newest_with id (take (min (limit + 1) (length rs)) (reverse rs))) (sym q)
  | inr (front, (r, (p, q))) ↦
      ap (λ o. (take_latest id s o).1) p
      ∙ taken id s front r
      ∙ sym (newest_of_append id limit front r)
      ∙ ap (λ rs. newest_with id (take (min (limit + 1) (length rs)) (reverse rs))) (sym q)
]

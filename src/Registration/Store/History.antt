-- ===== src/Registration/Store/History.antt =====
-- src/RegistrationStateStore.cpp: the undo history as a bounded stack with increasing action ids.
pub mod Undo
pub mod Steps
use mathlib.Core.List.{reverse}
use codex_of_power_ng.Base.{
  ℕ, ◌+◌, ◌≡◌, ◌≤◌, ◌<◌, Bool, true, false, not, Option, none, some, List, [], ◌∷◌, ◌++◌, refl,
  length, length-append, ltb, leb, ◌==◌, if◌then◌else◌, arith, max, min, Option-cases, ◌⊎◌, inl,
  inr, sym, subst,
}
use codex_of_power_ng.Base.Word.{add64, u64_max}
use codex_of_power_ng.State.{UndoRecord, RuntimeState, undo_history_limit}
use codex_of_power_ng.Registration.Store.{
  trim, pop_back, last_action_id, push_undo_record, pop_latest_undo_record, restore_undo_record,
  snapshot_undo_records,
}

-- The action ids grow from `lo` on and stay below `next`.
abbrev pub Increasing : ℕ → List UndoRecord → ℕ → Type 0
Increasing lo [] next = lo ≤ next
Increasing lo (r ∷ rs) next = (lo ≤ r.action_id) × Increasing (r.action_id + 1) rs next

abbrev pub IsHistory : RuntimeState → Type 0
IsHistory state =
    (length state.undo_history ≤ undo_history_limit)
    × (Increasing 0 state.undo_history state.undo_next_action_id
        × (state.undo_next_action_id ≤ u64_max))

pub Increasing-lower :
    (a b : ℕ) (rs : List UndoRecord) (next : ℕ)
    → a ≤ b
    → Increasing b rs next
    → Increasing a rs next
Increasing-lower a b [] next h i = omega arith
Increasing-lower a b (r ∷ rs) next h i = (omega (arith, i.0), i.1)

pub Increasing-bound :
    (lo : ℕ) (rs : List UndoRecord) (next : ℕ) → Increasing lo rs next → lo ≤ next
Increasing-bound lo [] next i = i
Increasing-bound lo (r ∷ rs) next i =
    omega (arith, i.0, Increasing-bound (r.action_id + 1) rs next i.1)

pub Increasing-append :
    (lo : ℕ) (rs : List UndoRecord) (r : UndoRecord) (next : ℕ)
    → Increasing lo rs r.action_id
    → r.action_id < next
    → Increasing lo (rs ++ (r ∷ [])) next
Increasing-append lo [] r next i h = (i, omega (arith, h))
Increasing-append lo (x ∷ rs) r next i h =
    (i.0, Increasing-append (x.action_id + 1) rs r next i.1 h)

-- What is before the last record is increasing below the last record's id.
pub Increasing-front :
    (lo : ℕ) (rs : List UndoRecord) (r : UndoRecord) (next : ℕ)
    → Increasing lo (rs ++ (r ∷ [])) next
    → Increasing lo rs r.action_id × (r.action_id < next)
Increasing-front lo [] r next i = (i.0, omega (arith, i.1))
Increasing-front lo (x ∷ rs) r next i =
    let rest = Increasing-front (x.action_id + 1) rs r next i.1 in ((i.0, rest.0), rest.1)

pub trim_short : (rs : List UndoRecord) → length rs ≤ undo_history_limit → trim rs ≡ rs
unfolding trim
trim_short [] h = refl
trim_short (r ∷ rs) h = ground arith

pub trim_full :
    (r : UndoRecord) (rs : List UndoRecord) → length rs ≡ undo_history_limit → trim (r ∷ rs) ≡ rs
unfolding trim
trim_full r rs h = ground (arith, trim_short rs)

pub pop_back-append :
    (rs : List UndoRecord) (r : UndoRecord) → pop_back (rs ++ (r ∷ [])) ≡ some (rs, r)
unfolding pop_back
pop_back-append [] r = refl
pop_back-append (x ∷ rs) r = let ih = pop_back-append rs r in rw ih

-- A history is empty or ends in the record that `pop_back` takes.
pub pop_back_cases :
    (rs : List UndoRecord)
    → ((pop_back rs ≡ none) × (rs ≡ []))
      ⊎ ((front : List UndoRecord) × ((r : UndoRecord) × ((pop_back rs ≡ some (front, r))
              × (rs ≡ front ++ (r ∷ [])))))
unfolding pop_back
pop_back_cases [] = inl (refl, refl)
pop_back_cases (x ∷ rs) = elim (pop_back_cases rs) [
  | inl (e, n) ↦ inr ([], (x, (rw e, rw n)))
  | inr (front, (r, (e, q))) ↦ inr (x ∷ front, (r, (rw e, rw q)))
]

-- The records that stay when one more is pushed: the oldest one of a full history goes.
abbrev pub kept : List UndoRecord → List UndoRecord
kept [] = []
kept (r ∷ rs) = if ltb (length rs + 1) undo_history_limit then r ∷ rs else rs

pub trim-append :
    (rs : List UndoRecord) (r : UndoRecord)
    → length rs ≤ undo_history_limit
    → trim (rs ++ (r ∷ [])) ≡ kept rs ++ (r ∷ [])
trim-append [] r h = trim_short (r ∷ []) (omega arith)
trim-append (x ∷ rs) r h = ground (
  arith,
  trim_short (x ∷ (rs ++ (r ∷ []))),
  trim_full x (rs ++ (r ∷ [])),
  length-append rs (r ∷ []),
)

pub length-kept :
    (rs : List UndoRecord)
    → length rs ≤ undo_history_limit
    → length (kept rs) + 1 ≤ undo_history_limit
length-kept [] h = omega arith
length-kept (r ∷ rs) h = ground arith

pub kept-Increasing :
    (lo : ℕ) (rs : List UndoRecord) (next : ℕ)
    → Increasing lo rs next
    → Increasing lo (kept rs) next
kept-Increasing lo [] next i = i
kept-Increasing lo (r ∷ rs) next i =
    ground (arith, Increasing-lower lo (r.action_id + 1) rs next, i)

-- A full history loses one record to the new one, a shorter one none.
pub kept_short : (rs : List UndoRecord) → length rs < undo_history_limit → kept rs ≡ rs
kept_short [] h = refl
kept_short (r ∷ rs) h = ground arith

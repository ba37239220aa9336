-- ===== src/Registration/UndoList/Newest.antt =====
-- src/RegistrationUndo.cpp: what the list offers to undo is what can be undone.
use mathlib.Core.List.{reverse, reverse_aux, reverse-append}
use codex_of_power_ng.Base.{
  ℕ, zero, suc, ◌+◌, ◌≡◌, ◌↔◌, ◌==◌, true, false, List, [], ◌∷◌, ◌++◌, String, min, length, take,
  is_some, arith, sym, subst, inl, inr, All, All-map,
}
use codex_of_power_ng.State.{UndoRecord, RuntimeState, undo_history_limit}
use codex_of_power_ng.Registration.Game.{Game}
use codex_of_power_ng.Registration.Store.{snapshot_undo_records, pop_latest_undo_record}
use codex_of_power_ng.Registration.Store.History.{
  IsHistory, Increasing, Increasing-front, pop_back_cases, Increasing-bound,
}
use codex_of_power_ng.Registration.Store.History.Undo.{newest_with, pop-snapshot}
use codex_of_power_ng.Registration.UndoList.{
  UndoListItem, undo_item, undo_items, build_recent_undo_list,
}

module _ {A : Type 0} (P : A → Type 0) where
  reverse_aux-All : (xs ys : List A) → All P xs → All P ys → All P (reverse_aux xs ys)
  reverse_aux-All [] ys h g = g
  reverse_aux-All (x ∷ xs) ys h g = reverse_aux-All xs (x ∷ ys) h.1 (h.0, g)

  take-All : (n : ℕ) (xs : List A) → All P xs → All P (take n xs)
  take-All zero xs h = tt
  take-All (suc n) [] h = tt
  take-All (suc n) (x ∷ xs) h = (h.0, take-All n xs h.1)

-- The ids of the other records differ from the first one's.
abbrev HeadDiffers : List UndoRecord → Type 0
HeadDiffers [] = Unit
HeadDiffers (r ∷ rs) = All (λ x. (r.action_id == x.action_id) ≡ false) rs

Increasing-below :
    (lo : ℕ) (rs : List UndoRecord) (id : ℕ)
    → Increasing lo rs id
    → All (λ x. (id == x.action_id) ≡ false) rs
Increasing-below lo [] id i = tt
Increasing-below lo (r ∷ rs) id i =
    let b = Increasing-bound (r.action_id + 1) rs id i.1 in
    (ground arith, Increasing-below (r.action_id + 1) rs id i.1)

taken-HeadDiffers :
    (n : ℕ) (front : List UndoRecord) (r : UndoRecord)
    → Increasing 0 front r.action_id
    → HeadDiffers (take n (reverse (front ++ (r ∷ []))))
taken-HeadDiffers zero front r i = tt
taken-HeadDiffers (suc n) front r i =
    let Differs = λ (x : UndoRecord). (r.action_id == x.action_id) ≡ false in
    rw (reverse-append front (r ∷ [])) (
      take-All Differs n (reverse front)
        (reverse_aux-All Differs front [] (Increasing-below 0 front r.action_id i) tt))

take-nil : (n : ℕ) → HeadDiffers (take n [])
take-nil zero = tt
take-nil (suc n) = tt

snapshot-HeadDiffers :
    (limit : ℕ) (s : RuntimeState) → IsHistory s → HeadDiffers (snapshot_undo_records limit s)
unfolding snapshot_undo_records
snapshot-HeadDiffers limit s h = elim (pop_back_cases s.undo_history) [
  | inl (n, q) ↦
      subst (λ rs. HeadDiffers (take (min limit (length rs)) (reverse rs))) (sym q)
        (take-nil (min limit 0))
  | inr (front, (r, (p, q))) ↦
      subst (λ rs. HeadDiffers (take (min limit (length rs)) (reverse rs))) (sym q)
        (taken-HeadDiffers (min limit (length (front ++ (r ∷ [])))) front r (
          (Increasing-front 0 front r s.undo_next_action_id
            (subst (λ l. Increasing 0 l s.undo_next_action_id) q h.1.0)).0))
]

-- An item offers to be undone exactly if its id is the newest record's.
abbrev Offers : List UndoRecord → UndoListItem → Type 0
Offers rs item = (item.can_undo ≡ true) ↔ (is_some (newest_with item.action_id rs) ≡ true)

later_undo_items-Offers :
    (game : Game) (unnamed : String) (r : UndoRecord) (rs xs : List UndoRecord)
    → All (λ x. (r.action_id == x.action_id) ≡ false) xs
    → All (Offers (r ∷ rs)) (undo_items game unnamed false xs)
unfolding undo_items undo_item
later_undo_items-Offers game unnamed r rs [] h = tt
later_undo_items-Offers game unnamed r rs (x ∷ xs) h =
    (ground arith, later_undo_items-Offers game unnamed r rs xs h.1)

undo_items-Offers :
    (game : Game) (unnamed : String) (rs : List UndoRecord)
    → HeadDiffers rs
    → All (Offers rs) (undo_items game unnamed true rs)
unfolding undo_items undo_item
undo_items-Offers game unnamed [] h = tt
undo_items-Offers game unnamed (r ∷ rs) h =
    (ground arith, later_undo_items-Offers game unnamed r rs rs h)

-- In the list of recent registrations, of any positive length, from a sound history, an item is
-- marked as one that can be undone exactly if popping its action id gives a record.
pub build_recent_undo_list_correct :
    (game : Game) (unnamed : String) (limit : ℕ) (s : RuntimeState)
    → IsHistory s
    → All
        (λ item.
          (item.can_undo ≡ true) ↔ (is_some ((pop_latest_undo_record item.action_id s).1) ≡ true))
        (build_recent_undo_list game unnamed (limit + 1) s)
unfolding build_recent_undo_list
build_recent_undo_list_correct game unnamed limit s h =
    let n : min (limit + 1) undo_history_limit ≡ min limit 9 + 1 = omega arith in
    let shown = snapshot_undo_records (min limit 9 + 1) s in
    rw n (
      All-map (Offers shown)
        (λ item.
          (item.can_undo ≡ true) ↔ (is_some ((pop_latest_undo_record item.action_id s).1) ≡ true))
        (undo_items game unnamed true shown)
        (λ item o. rw (pop-snapshot item.action_id (min limit 9) s) o)
        (undo_items-Offers game unnamed shown (snapshot-HeadDiffers (min limit 9 + 1) s h)))

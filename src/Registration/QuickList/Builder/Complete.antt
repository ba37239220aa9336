-- ===== src/Registration/QuickList/Builder/Complete.antt =====
-- src/RegistrationQuickListBuilder.cpp: what the quick list does not leave out.
use codex_of_power_ng.Base.{
  ◌≡◌, inl, inr, Bool, true, false, ◌||◌, Option, none, some, List, [], ◌∷◌, ◌++◌, ◌==◌, arith,
  Option-cases,
}
use mathlib.Core.Bool.{false≢true as false-ne-true}
use codex_of_power_ng.Base.Int.{pos, leb_ℤ}
use codex_of_power_ng.Base.Keyed.{member}
use codex_of_power_ng.State.{FormId}
use codex_of_power_ng.Registration.QuickList.Builder.{
  ListItem, QuickListInput, InventoryEntry, get_discovery_group_fast, make_list_item, append_keyed,
  append_eligible_item, collect_eligible_items,
}
use codex_of_power_ng.Registration.QuickList.Builder.Listed.{IsEligible, HasEntry, key_in}

abbrev pub has_key : FormId → List ListItem → Bool
has_key k [] = false
has_key k (item ∷ items) = (item.reg_key == k) || has_key k items

-- The player holds some of each object with a key.
abbrev pub IsHeld : QuickListInput → FormId → Type 0
IsHeld input k =
    (obj : FormId) → key_in input obj ≡ k → leb_ℤ (input.item_count obj) (pos 0) ≡ false

has_key-append :
    (k : FormId) (all : List ListItem) (item : ListItem)
    → has_key k (all ++ (item ∷ [])) ≡ (has_key k all || item.reg_key == k)
has_key-append k [] item = ground arith
has_key-append k (x ∷ all) item = ground (arith, has_key-append k all item)

-- A key that was seen is the key of a collected item.
abbrev IsShown : FormId → List FormId × List ListItem → Type 0
IsShown k acc = member k acc.0 ≡ true → has_key k acc.1 ≡ true

append_keyed-IsShown :
    (input : QuickListInput) (entry : InventoryEntry) (obj kk k : FormId) (seen : List FormId)
    (all : List ListItem)
    → (kk ≡ k → leb_ℤ (input.item_count obj) (pos 0) ≡ false)
    → IsShown k (seen, all)
    → IsShown k (append_keyed input entry obj kk (seen, all))
unfolding append_keyed make_list_item
append_keyed-IsShown input entry obj kk k seen all held h =
    let item = make_list_item input entry obj kk (get_discovery_group_fast input kk) in
    ground (arith, has_key-append k all item)

append_keyed-seen :
    (input : QuickListInput) (entry : InventoryEntry) (obj kk k : FormId) (seen : List FormId)
    (all : List ListItem)
    → member k seen ≡ true
    → member k ((append_keyed input entry obj kk (seen, all)).0) ≡ true
unfolding append_keyed
append_keyed-seen input entry obj kk k seen all h = ground arith

append_keyed-sees :
    (input : QuickListInput) (entry : InventoryEntry) (obj k : FormId) (seen : List FormId)
    (all : List ListItem)
    → IsEligible input obj k (get_discovery_group_fast input k)
    → member k ((append_keyed input entry obj k (seen, all)).0) ≡ true
unfolding append_keyed
append_keyed-sees input entry obj k seen all h = ground arith

module _ (input : QuickListInput) where
  append_eligible_item-IsShown :
      (entry : Option InventoryEntry) (k : FormId) (acc : List FormId × List ListItem)
      → IsHeld input k
      → IsShown k acc
      → IsShown k (append_eligible_item input entry acc)
  unfolding append_eligible_item
  append_eligible_item-IsShown none k acc held h = h
  append_eligible_item-IsShown (some entry) k (seen, all) held h =
      elim (Option-cases entry.object) [
        | inl e ↦ rw e h
        | inr (obj, e) ↦
            rw e (append_keyed-IsShown input entry obj (key_in input obj) k seen all (held obj) h)
      ]

  append_eligible_item-seen :
      (entry : Option InventoryEntry) (k : FormId) (acc : List FormId × List ListItem)
      → member k acc.0 ≡ true
      → member k ((append_eligible_item input entry acc).0) ≡ true
  unfolding append_eligible_item
  append_eligible_item-seen none k acc h = h
  append_eligible_item-seen (some entry) k (seen, all) h = elim (Option-cases entry.object) [
    | inl e ↦ rw e h
    | inr (obj, e) ↦ rw e (append_keyed-seen input entry obj (key_in input obj) k seen all h)
  ]

  collect-seen :
      (entries : List (Option InventoryEntry)) (k : FormId) (acc : List FormId × List ListItem)
      → member k acc.0 ≡ true
      → member k ((collect_eligible_items input entries acc).0) ≡ true
  unfolding collect_eligible_items
  collect-seen [] k acc h = h
  collect-seen (entry ∷ rest) k acc h =
      collect-seen rest k (append_eligible_item input entry acc)
        (append_eligible_item-seen entry k acc h)

  collect-IsShown :
      (entries : List (Option InventoryEntry)) (k : FormId) (acc : List FormId × List ListItem)
      → IsHeld input k
      → IsShown k acc
      → IsShown k (collect_eligible_items input entries acc)
  unfolding collect_eligible_items
  collect-IsShown [] k acc held h = h
  collect-IsShown (entry ∷ rest) k acc held h =
      collect-IsShown rest k (append_eligible_item input entry acc) held
        (append_eligible_item-IsShown entry k acc held h)

  append_eligible_item-sees :
      (entry : InventoryEntry) (obj : FormId) (acc : List FormId × List ListItem)
      → entry.object ≡ some obj
      → let k = key_in input obj in
        IsEligible input obj k (get_discovery_group_fast input k)
        → member k ((append_eligible_item input (some entry) acc).0) ≡ true
  unfolding append_eligible_item
  append_eligible_item-sees entry obj (seen, all) e h =
      rw e (append_keyed-sees input entry obj (key_in input obj) seen all h)

  collect-sees :
      (entries : List (Option InventoryEntry)) (entry : InventoryEntry) (obj : FormId)
      (acc : List FormId × List ListItem)
      → HasEntry entries entry
      → entry.object ≡ some obj
      → let k = key_in input obj in
        IsEligible input obj k (get_discovery_group_fast input k)
        → member k ((collect_eligible_items input entries acc).0) ≡ true
  unfolding collect_eligible_items
  collect-sees [] entry obj acc m e h = absurd m
  collect-sees (x ∷ rest) entry obj acc (inl same) e h =
      collect-seen rest (key_in input obj) (append_eligible_item input x acc)
        (rw same (append_eligible_item-sees entry obj acc e h))
  collect-sees (x ∷ rest) entry obj acc (inr later) e h =
      collect-sees rest entry obj (append_eligible_item input x acc) later e h

  -- An entry with an eligible object, of whose key the player holds some of every object, is shown.
  pub collect_complete :
      (entries : List (Option InventoryEntry)) (entry : InventoryEntry) (obj : FormId)
      → HasEntry entries entry
      → entry.object ≡ some obj
      → let k = key_in input obj in
        IsEligible input obj k (get_discovery_group_fast input k)
        → IsHeld input k
        → has_key k ((collect_eligible_items input entries ([], [])).1) ≡ true
  collect_complete entries entry obj m e h held =
      collect-IsShown entries (key_in input obj) ([], []) held (λ s. absurd (false-ne-true s))
        (collect-sees entries entry obj ([], []) m e h)

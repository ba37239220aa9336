-- ===== src/Inventory.antt =====
-- src/Inventory.cpp: which of a player's items of one kind may be taken away.
pub mod Safe
use codex_of_power_ng.Base.{
  ℕ, ◌+◌, ◌-◌, Bool, true, false, ◌&&◌, ◌||◌, Option, none, some, List, [], ◌∷◌, ltb, if◌then◌else◌,
}
use codex_of_power_ng.Base.Int.{ℤ, pos, pos_part, leb_ℤ}

-- What the game tells of an `ExtraDataList`: `GetCount()` and the three `HasType` tests. A pointer
-- to one is the list itself here.
pub record ExtraList : Type 0 where
  pub count : ℤ
  pub worn : Bool
  pub worn_left : Bool
  pub hotkey : Bool

-- The counts are never negative here: only counts above zero are added to them.
pub record RemoveSelection : Type 0 where
  pub extra_list : Option ExtraList
  pub safe_count : ℕ
  pub base_count : ℕ
  pub blocked_by_worn : Bool
  pub blocked_by_favorite : Bool

abbrev pub no_selection : RemoveSelection
no_selection = record {
  extra_list = none;
  safe_count = 0;
  base_count = 0;
  blocked_by_worn = false;
  blocked_by_favorite = false;
}

-- `if (!out.extraList) out.extraList = xList`
abbrev pub keep_first : Option ExtraList → ExtraList → Option ExtraList
keep_first none x = some x
keep_first (some y) x = some y

-- One round of the loop, with the count of all items that have extra data.
unfoldable pub visit_extra : Bool → Option ExtraList → RemoveSelection × ℕ → RemoveSelection × ℕ
visit_extra protect_favorites none acc = acc
visit_extra protect_favorites (some x) (out, total) =
    let count = pos_part x.count in
    let worn = x.worn || x.worn_left in
    let hotkey = protect_favorites && x.hotkey in
    let blocked = record out {
      blocked_by_worn = out.blocked_by_worn || worn;
      blocked_by_favorite = out.blocked_by_favorite || hotkey;
    } in
    if worn || hotkey
    then (blocked, total + count)
    else if ltb 0 count
    then (
      record blocked {
        extra_list = keep_first blocked.extra_list x;
        safe_count = blocked.safe_count + count;
      },
      total + count,
    )
    else (blocked, total + count)

unfoldable pub visit_extras :
    Bool → List (Option ExtraList) → RemoveSelection × ℕ → RemoveSelection × ℕ
visit_extras protect_favorites [] acc = acc
visit_extras protect_favorites (x ∷ xs) acc =
    visit_extras protect_favorites xs (visit_extra protect_favorites x acc)

-- The items without extra data.
unfoldable pub add_base : ℕ → RemoveSelection × ℕ → RemoveSelection
add_base total_count (out, extra_count_total) =
    let base_count = total_count - extra_count_total in
    if ltb 0 base_count
    then record out { base_count = base_count; safe_count = out.safe_count + base_count }
    else out

-- `entry->extraLists`, empty for a null pointer; none stands for an entry that is null.
unfoldable pub select_safe_removal : Option (List (Option ExtraList)) → ℤ → Bool → RemoveSelection
unfolding visit_extras visit_extra add_base
select_safe_removal none total_count protect_favorites = no_selection
select_safe_removal (some extra_lists) total_count protect_favorites =
    if leb_ℤ total_count (pos 0)
    then no_selection
    else add_base (pos_part total_count)
        (visit_extras protect_favorites extra_lists (no_selection, 0))

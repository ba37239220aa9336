-- ===== src/Tests/Inventory.antt =====
-- The safe removal at concrete inputs.
use codex_of_power_ng.Base.{◌+◌, ◌≡◌, true, false, Option, none, some, List, [], ◌∷◌, arith}
use codex_of_power_ng.Base.Int.{pos}
use codex_of_power_ng.Inventory.{ExtraList, select_safe_removal}
use codex_of_power_ng.Inventory.Safe.{select_safe_removal_correct, sum_of, protected_size}

-- One worn sword, and two of four that are enchanted.
abbrev swords : List (Option ExtraList)
swords =
    some (record { count = pos 1; worn = true; worn_left = false; hotkey = false })
    ∷ none
    ∷ some (record { count = pos 2; worn = false; worn_left = false; hotkey = false })
    ∷ []

select_safe_removal_correct_example :
    (select_safe_removal (some swords) (pos 4) true).safe_count
      + sum_of (protected_size true) swords
    ≡ 4
select_safe_removal_correct_example =
    (select_safe_removal_correct true swords 4 (omega arith) (omega arith)).0

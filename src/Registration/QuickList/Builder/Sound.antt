-- ===== src/Registration/QuickList/Builder/Sound.antt =====
-- src/RegistrationQuickListBuilder.cpp: the items of the quick list, from which entries of the
-- inventory they come, and which of them are enabled.
use codex_of_power_ng.Base.{◌≡◌, true, false, List, [], ◌∷◌, ◌==◌, All}
use codex_of_power_ng.Base.Keyed.{member}
use codex_of_power_ng.State.{FormId}
use codex_of_power_ng.Registration.QuickList.Builder.{ListItem, QuickListInput, InventoryEntry}
use codex_of_power_ng.Registration.QuickList.Builder.Listed.{IsListed}

abbrev pub NoRepeat : List ListItem → Type 0
NoRepeat [] = Unit
NoRepeat (x ∷ xs) = All (λ y. (x.reg_key == y.reg_key) ≡ false) xs × NoRepeat xs

abbrev Inv : QuickListInput → (InventoryEntry → Type 0) → List FormId × List ListItem → Type 0
Inv input From (seen, all) =
    All (λ item. IsListed input From item × (member item.reg_key seen ≡ true)) all × NoRepeat all

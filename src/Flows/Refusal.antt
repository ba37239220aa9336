-- ===== src/Flows/Refusal.antt =====
-- src/RegistrationQuickRegister.cpp: what a registration leaves that fails.
use codex_of_power_ng.Base.{true, ◌≡◌, Option, ◌∷◌, ◌⊎◌}
use codex_of_power_ng.Base.Int.{leb_ℤ}
use codex_of_power_ng.Flows.Input.{FlowInput, FlowState}
use codex_of_power_ng.Flows.Register.{RegisterOutcome, unnamed_item, cannot_destroy, key_of}
use codex_of_power_ng.Flows.Runtime.{is_success}
use codex_of_power_ng.Game.{remove_item}
use codex_of_power_ng.Inventory.{ExtraList}
use codex_of_power_ng.Registration.Store.{block_pair}
use codex_of_power_ng.State.{FormId}

module _ {A : Type 0} (w : FlowInput) (item : FormId) where
  -- The three ways to fail: nothing is changed; the pair is blocked, since the item has no name; or it
  -- is blocked after one call to remove the item, which did not make them fewer.
  abbrev pub IsRefused : FlowState A → FlowState A × RegisterOutcome → Type 0
  IsRefused s (after, outcome) =
      (after ≡ s)
      ⊎ (((outcome ≡ unnamed_item)
            × (after ≡ record s { runtime = block_pair (key_of w item) item s.runtime }))
          ⊎ ((outcome ≡ cannot_destroy)
              × ((extra : Option ExtraList) × ((after ≡ record s {
                runtime = block_pair (key_of w item) item s.runtime;
                calls = remove_item item extra ∷ s.calls;
              })
                    × (leb_ℤ (w.item_count s.calls item) (w.item_count after.calls item) ≡ true)))))

  abbrev EndsWell : FlowState A → FlowState A × RegisterOutcome → Type 0
  EndsWell s result = (is_success result.1 ≡ true) ⊎ IsRefused s result

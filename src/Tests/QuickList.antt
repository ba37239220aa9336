-- ===== src/Tests/QuickList.antt =====
-- Register keys, the museum gate and the quick register list at concrete inputs.
use codex_of_power_ng.Base.{
  ℕ, ◌≡◌, ◌==◌, true, false, none, some, List, [], ◌∷◌, inr, refl, arith, if◌then◌else◌,
}
use mathlib.Core.Bool.{false≢true as false-ne-true}
use codex_of_power_ng.Build.Progression.FormTypes.{weapon}
use codex_of_power_ng.State.{FormId}
use codex_of_power_ng.Registration.Game.{Game}
use codex_of_power_ng.Registration.TccGate.{block_unavailable, evaluate_tcc_gate}
use codex_of_power_ng.Registration.TccGate.FailClosed.{evaluate_tcc_gate_correct}
use codex_of_power_ng.Registration.QuickList.{update_quick_list_cache, empty_cache, bump_generation}
use codex_of_power_ng.Registration.QuickList.Cache.{RunningBuild, Builders}
use codex_of_power_ng.Registration.QuickList.Pages.{read_pages, read_pages_correct}

-- A game in which every number is a weapon without a template.
abbrev plain_game : Game
plain_game = record {
  is_form = λ id. true;
  form_type = λ id. weapon;
  form_name = λ id. "sword";
  is_key = λ id. false;
  is_lockpick = λ id. false;
  is_gold = λ id. false;
  template_weapon = λ id. none;
}

-- The variant 12 of the variant 11 of 10.
abbrev chain : List (FormId × FormId)
chain = (12, 11) ∷ (11, 10) ∷ []

abbrev chain_rank : FormId → ℕ
chain_rank id = if id == 12 then 2 else if id == 11 then 1 else 0

evaluate_tcc_gate_correct_example :
    evaluate_tcc_gate true (record { master = some (λ id. true); displayed = none }) 3 4
    ≡ block_unavailable
evaluate_tcc_gate_correct_example =
    (evaluate_tcc_gate_correct (λ id. true) (λ id. true)
        (record { master = some (λ id. true); displayed = none }) 3 4).1.1
      (inr refl)

read_pages_correct_example : read_pages {A = ℕ} 4 0 2 (7 ∷ 8 ∷ 9 ∷ []) ≡ 7 ∷ 8 ∷ 9 ∷ []
read_pages_correct_example = read_pages_correct 3 2 (7 ∷ 8 ∷ 9 ∷ []) (omega arith) (omega arith)

-- After the invalidation every build finds the item 2 alone.
abbrev Found : ℕ → List ℕ → Type 0
Found m all = all ≡ 2 ∷ []

-- A build begins, and the invalidation bumps the generation; the build still stores what it found
-- before, the item 1, and another one begins and stores its list.
abbrev old_build : RunningBuild
old_build = record { settings_mask = 4; generation = 1; after = false }

abbrev new_build : RunningBuild
new_build = record { settings_mask = 4; generation = 2; after = true }

abbrev building : Builders ℕ
building = record {
  list = record { cache = empty_cache; current_generation = 1 };
  running = old_build ∷ [];
}

abbrev invalidated : Builders ℕ
invalidated = record building { list = bump_generation building.list }

abbrev stored_late : Builders ℕ
stored_late = record invalidated { list = update_quick_list_cache (1 ∷ []) 1 4 90 invalidated.list }

abbrev stored : Builders ℕ
stored = record {
  list = update_quick_list_cache (2 ∷ []) 2 4 100 stored_late.list;
  running = new_build ∷ old_build ∷ [];
}

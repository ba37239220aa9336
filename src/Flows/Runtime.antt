-- ===== src/Flows/Runtime.antt =====
-- What the parts of the flows do to the shared state.
use codex_of_power_ng.Base.{
  ℕ, Bool, true, false, not, ◌≡◌, ◌||◌, Option, none, some, List, ◌∷◌, ltb, ◌==◌, if◌then◌else◌,
  refl, arith, subst, Bool-cases, ◌⊎◌, inl, inr, is_empty,
}
use codex_of_power_ng.Base.Int.{leb_ℤ}
use codex_of_power_ng.Build.Types.{BuildDiscipline}
use codex_of_power_ng.Build.Progression.Contribution.{
  shift, saturating_add, is_rejected, apply_registration_contribution,
}
use codex_of_power_ng.Effects.Sync.{PlayerValues, sync_current_build_effects_to_player}
use codex_of_power_ng.Flows.Input.{FlowInput, FlowState}
use codex_of_power_ng.Flows.Register.{
  RegisterOutcome, registered, excluded_item, quest_item, already_registered, refusal, key_of,
  try_register_item, register_unless, register_entry, remove_and_complete, complete_registration,
  find_entry, get_discovery_group, is_protected, gate_outcome,
}
use codex_of_power_ng.Game.{FloatOps, ActorValues, GameCall, remove_item}
use codex_of_power_ng.Registration.Exclusion.{is_excluded_or_blocked}
use codex_of_power_ng.Registration.TccGate.{
  TccGateDecision, allow, block_not_displayed, block_unavailable, evaluate_tcc_gate,
}
use codex_of_power_ng.Inventory.{select_safe_removal}
use codex_of_power_ng.Registration.QuickList.Builder.{InventoryEntry, best_item_name}
use codex_of_power_ng.Registration.Store.{is_registered_either}
use codex_of_power_ng.State.{
  FormId, ActorValue, Float32, RuntimeState, UndoRecord, BuildScoreContribution,
}

-- The parts of the state that a contribution neither reads nor changes.
abbrev pub with_rest :
    List (FormId × ℕ)
    → List UndoRecord
    → ℕ
    → List (ActorValue × Float32)
    → RuntimeState
    → RuntimeState
with_rest items history next totals s = record s {
  registered_items = items;
  undo_history = history;
  undo_next_action_id = next;
  build_applied_effect_totals = totals;
}

shift_frame :
    (d : BuildDiscipline) (c : BuildScoreContribution) (items : List (FormId × ℕ))
    (history : List UndoRecord) (next : ℕ) (totals : List (ActorValue × Float32)) (s : RuntimeState)
    → shift saturating_add (record c { discipline = d }) (with_rest items history next totals s)
      ≡ with_rest items history next totals (shift saturating_add (record c { discipline = d }) s)
unfolding shift
shift_frame BuildDiscipline.attack c items history next totals s = refl
shift_frame BuildDiscipline.defense c items history next totals s = refl
shift_frame BuildDiscipline.utility c items history next totals s = refl
shift_frame (BuildDiscipline.other n) c items history next totals s = refl

pub apply_contribution_frame :
    (c : BuildScoreContribution) (items : List (FormId × ℕ)) (history : List UndoRecord) (next : ℕ)
    (totals : List (ActorValue × Float32)) (s : RuntimeState)
    → (apply_registration_contribution c (with_rest items history next totals s)).0
      ≡ with_rest items history next totals ((apply_registration_contribution c s).0)
unfolding apply_registration_contribution
apply_contribution_frame c items history next totals s = elim (Bool-cases (is_rejected c)) [
  | inl t ↦ rw t refl
  | inr f ↦ rw f (shift_frame c.discipline c items history next totals s)
]

pub sync-runtime :
    (fl : FloatOps) (avs : ActorValues)
    (sort : List (ActorValue × Float32) → List (ActorValue × Float32))
    (order : List ActorValue → List ActorValue) (player : PlayerValues) (state : RuntimeState)
    (calls : List GameCall)
    → let after = sync_current_build_effects_to_player fl avs sort order player (state, calls) in
      after.0 ≡ record state { build_applied_effect_totals = after.0.build_applied_effect_totals }
unfolding sync_current_build_effects_to_player
sync-runtime fl avs sort order player state calls = elim (Bool-cases player.has_owner) [
  | inl t ↦ rw t refl
  | inr f ↦ rw f refl
]

guard_passed :
    {B : Type 0}
    → (b : Bool) (x : B) (rest : Option B) → (if b then some x else rest) ≡ none
    → (b ≡ false) × (rest ≡ none)
guard_passed b x rest e = ground arith

-- An item that no guard refuses is not registered yet.
pub unrefused :
    (w : FlowInput) (state : RuntimeState) (item : FormId)
    → refusal w state item ≡ none
    → is_registered_either (key_of w item) item state ≡ false
unfolding refusal
unrefused w state item e =
    let e1 = (guard_passed (not w.has_player) _ _ e).1 in
    let e2 = (guard_passed (not (w.is_bound item)) _ _ e1).1 in
    let e3 =
      (guard_passed (is_excluded_or_blocked w.game w.excluded state item (key_of w item))
        excluded_item _ e2).1 in
    let e4 =
      (guard_passed (is_protected w.quest_protected item (key_of w item)) quest_item _ e3).1 in
    (guard_passed (is_registered_either (key_of w item) item state) already_registered _ e4).0

abbrev pub is_success : RegisterOutcome → Bool
is_success (registered key group total) = true
is_success _ = false

abbrev pub Fails : Option RegisterOutcome → Type 0
Fails none = Unit
Fails (some outcome) = is_success outcome ≡ false

guard-Fails :
    (b : Bool) (x : RegisterOutcome) (rest : Option RegisterOutcome)
    → is_success x ≡ false
    → Fails rest
    → Fails (if b then some x else rest)
guard-Fails true x rest e f = e
guard-Fails false x rest e f = f

gate-Fails : (d : TccGateDecision) → Fails (gate_outcome d)
gate-Fails allow = tt
gate-Fails block_not_displayed = refl
gate-Fails block_unavailable = refl

pub refusal-Fails :
    (w : FlowInput) (state : RuntimeState) (item : FormId) → Fails (refusal w state item)
unfolding refusal
refusal-Fails w state item = guard-Fails (not w.has_player) _ _ refl (
    guard-Fails (not (w.is_bound item)) _ _ refl (
      guard-Fails (is_excluded_or_blocked w.game w.excluded state item (key_of w item)) _ _ refl (
        guard-Fails (is_protected w.quest_protected item (key_of w item)) _ _ refl (
          guard-Fails (is_registered_either (key_of w item) item state) _ _ refl (
            guard-Fails (ltb 5 (get_discovery_group w state (key_of w item))) _ _ refl (
              gate-Fails (
                evaluate_tcc_gate w.settings.require_tcc_displayed w.tcc_lists item
                  (key_of w item))))))))

module _ {A : Type 0} (w : FlowInput) (item : FormId) where
  -- A registration that does not fail is the completion, after some more calls.
  abbrev pub IsCompleted : FlowState A → FlowState A × RegisterOutcome → Type 0
  IsCompleted s result =
      (is_success result.1 ≡ false)
      ⊎ ((calls : List GameCall) × (result
            ≡ complete_registration w item (record s { calls = calls })))

  remove_and_complete_cases :
      (entry : InventoryEntry) (s : FlowState A)
      → IsCompleted s (remove_and_complete w item entry s)
  unfolding remove_and_complete
  remove_and_complete_cases entry s =
      let removal =
        select_safe_removal (some entry.extra_lists) (w.item_count s.calls item)
          w.settings.protect_favorites in
      let calls = remove_item item removal.extra_list ∷ s.calls in
      elim (Bool-cases (is_empty (best_item_name w.game (key_of w item) item))) [
        | inl a ↦ rw a (inl refl)
        | inr a ↦ elim (Bool-cases (removal.safe_count == 0)) [
          | inl b ↦ rw (a, b) (inl refl)
          | inr b ↦
              elim (Bool-cases (leb_ℤ (w.item_count s.calls item) (w.item_count calls item))) [
                | inl c ↦ rw (a, b, c) (inl refl)
                | inr c ↦ rw (a, b, c) (inr (calls, refl))
              ]
        ]
      ]

  register_entry_cases :
      (entry : Option InventoryEntry) (s : FlowState A)
      → IsCompleted s (register_entry w item entry s)
  unfolding register_entry
  register_entry_cases none s = inl refl
  register_entry_cases (some entry) s =
      elim (Bool-cases
        (entry.is_quest_object || is_protected w.quest_protected_later item (key_of w item))) [
          | inl a ↦ rw a (inl refl)
          | inr a ↦ rw a (remove_and_complete_cases entry s)
        ]

  unless_cases :
      (o : Option RegisterOutcome) (s : FlowState A)
      → refusal w s.runtime item ≡ o
      → (is_success ((register_unless w item o s).1) ≡ false)
        ⊎ ((refusal w s.runtime item ≡ none) × IsCompleted s (register_unless w item o s))
  unfolding register_unless
  unless_cases none s e = inr (e, register_entry_cases (find_entry item w.inventory) s)
  unless_cases (some outcome) s e = inl (subst Fails e (refusal-Fails w s.runtime item))

  -- A registration either fails or is the completion, after some more calls, of an item that was not
  -- registered.
  pub try_register_cases :
      (s : FlowState A)
      → (is_success ((try_register_item w item s).1) ≡ false)
        ⊎ ((is_registered_either (key_of w item) item s.runtime ≡ false)
            × ((calls : List GameCall) × (try_register_item w item s
                  ≡ complete_registration w item (record s { calls = calls }))))
  unfolding try_register_item
  try_register_cases s = elim (unless_cases (refusal w s.runtime item) s refl) [
    | inl f ↦ inl f
    | inr (e, inl f) ↦ inl f
    | inr (e, inr (calls, q)) ↦ inr (unrefused w s.runtime item e, (calls, q))
  ]

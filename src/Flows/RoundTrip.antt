-- ===== src/Flows/RoundTrip.antt =====
-- A registration of an item, and the undo of that registration.
use codex_of_power_ng.Base.{◌+◌, true, false, ◌≡◌, ◌<◌, some, refl, ap, sym, subst, ◌∙◌, inl, inr}
use mathlib.Core.Bool.{true≢false}
use codex_of_power_ng.Base.Word.{u64_max}
use codex_of_power_ng.Build.Progression.Contribution.{is_rejected}
use codex_of_power_ng.Build.Progression.RoundTrip.{
  NoOverflow, make_registration_contribution_correct,
}
use codex_of_power_ng.Build.StateStore.Validity.{IsValidBuild}
use codex_of_power_ng.Flows.Input.{FlowInput, FlowState}
use codex_of_power_ng.Flows.Register.{
  key_of, get_discovery_group, try_register_item, complete_registration,
}
use codex_of_power_ng.Flows.Runtime.{with_rest, try_register_cases, is_success}
use codex_of_power_ng.Flows.Undo.{try_undo_registration, undo_record, undo_removed}
use codex_of_power_ng.Registration.Store.{insert_registered, is_registered_either}
use codex_of_power_ng.Registration.Store.History.{IsHistory, kept}
use codex_of_power_ng.State.{FormId, UndoRecord, BuildScoreContribution}
use codex_of_power_ng.Flows.Undone.{contributed, contributed_frame, is_undone, undone-runtime}
use codex_of_power_ng.Flows.Registered.{
  contribution, record_of, applied, pop_registered, remove_registered_again, valid_frame,
  room_frame,
}

undo_of_completed :
    {A : Type 0}
    → (w w' : FlowInput) (item : FormId) (s : FlowState A) → IsHistory s.runtime
    → s.runtime.undo_next_action_id < u64_max
    → IsValidBuild s.runtime
    → ((c : BuildScoreContribution)
        → contribution w item s.runtime ≡ some c
        → NoOverflow c s.runtime)
    → is_registered_either (key_of w item) item s.runtime ≡ false
    → let undo =
        try_undo_registration w' s.runtime.undo_next_action_id
          ((complete_registration w item s).0) in
      is_undone undo.1 ≡ true
      → undo.0.runtime
        ≡ with_rest s.runtime.registered_items
            (kept s.runtime.undo_history)
            (s.runtime.undo_next_action_id + 1)
            undo.0.runtime.build_applied_effect_totals
            s.runtime
unfolding try_undo_registration undo_record complete_registration insert_registered
undo_of_completed w w' item s h n v room fresh done =
    let b = s.runtime in
    let o = contribution w item b in
    let t = (complete_registration w item s).0 in
    let next = b.undo_next_action_id in
    let totals = (applied w item b s.calls).0.build_applied_effect_totals in
    let r : UndoRecord = record (record_of w item b) { action_id = next } in
    let base = with_rest b.registered_items (kept b.undo_history) (next + 1) totals b in
    let last : FlowState _ = record t {
      runtime =
          with_rest b.registered_items (kept b.undo_history) (next + 1) totals (contributed o b);
    } in
    let chain : try_undo_registration w' next t ≡ undo_removed w' r true last =
      ap (λ x. undo_record w' x.1 (record t { runtime = x.0 }))
        (pop_registered w item b s.calls h n)
      ∙ ap (λ x. undo_removed w' r x.1 (record t { runtime = x.0 }))
          (remove_registered_again w item b s.calls (kept b.undo_history) (next + 1) totals
            fresh) in
    let accepted : (c : BuildScoreContribution)
        → o ≡ some c
        → (is_rejected c ≡ false) × NoOverflow c base =
      λ c e. (
        ((make_registration_contribution_correct (w.game.form_type (key_of w item))
              (get_discovery_group w b (key_of w item))).2
            c e).0,
        room_frame c b (kept b.undo_history) (next + 1) totals (room c e),
      ) in
    let frame = contributed_frame o b.registered_items (kept b.undo_history) (next + 1) totals b in
    let after =
      undone-runtime w' r o base last refl refl accepted (valid_frame _ _ _ _ b v) (sym frame)
        (subst (λ x. is_undone x.1 ≡ true) chain done) in
    subst
      (λ x.
        x.0.runtime
        ≡ with_rest b.registered_items (kept b.undo_history) (next + 1)
            x.0.runtime.build_applied_effect_totals b)
      (sym chain) after

-- An item registered and at once undone, whatever the game answers in either flow and even if it
-- answers differently in the second: where neither fails, the shared state is the one before, but
-- for the totals of the applied effects, the next action id, which is one higher, and the oldest
-- undo record of a full history, which is gone. The state before has a sound history, a valid
-- build, room in its totals for the item's contribution, and an action id to spare.
pub register-undo :
    {A : Type 0}
    → (w w' : FlowInput) (item : FormId) (s : FlowState A) → IsHistory s.runtime
    → s.runtime.undo_next_action_id < u64_max
    → IsValidBuild s.runtime
    → ((c : BuildScoreContribution)
        → contribution w item s.runtime ≡ some c
        → NoOverflow c s.runtime)
    → is_success ((try_register_item w item s).1) ≡ true
    → is_undone (
        (try_undo_registration w' s.runtime.undo_next_action_id ((try_register_item w item s).0)).1)
      ≡ true
    → let after =
        (try_undo_registration w' s.runtime.undo_next_action_id
          ((try_register_item w item s).0)).0.runtime in
      after ≡ record (s.runtime) {
        undo_history = kept s.runtime.undo_history;
        undo_next_action_id = s.runtime.undo_next_action_id + 1;
        build_applied_effect_totals = after.build_applied_effect_totals;
      }
unfolding try_undo_registration undo_record complete_registration insert_registered
register-undo w w' item s h n v room ok done = elim (try_register_cases w item s) [
  | inl f ↦ absurd (true≢false (sym ok ∙ f))
  | inr (fresh, (calls, q)) ↦
      subst
        (λ x.
          (try_undo_registration w' s.runtime.undo_next_action_id x.0).0.runtime
          ≡ with_rest s.runtime.registered_items (kept s.runtime.undo_history)
              (s.runtime.undo_next_action_id + 1)
              (try_undo_registration w' s.runtime.undo_next_action_id
                x.0).0.runtime.build_applied_effect_totals
              s.runtime)
        (sym q)
        (undo_of_completed w w' item (record s { calls = calls }) h n v room fresh
          (subst
            (λ x. is_undone ((try_undo_registration w' s.runtime.undo_next_action_id x.0).1) ≡ true)
            q done))
]

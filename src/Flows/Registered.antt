-- ===== src/Flows/Registered.antt =====
-- The state that a registration leaves, and the first steps of its undo.
use codex_of_power_ng.Base.{
  ℕ, ◌+◌, true, false, ◌≡◌, ◌<◌, Option, some, List, [], refl, arith, ap, sym, subst, ◌∙◌,
}
use codex_of_power_ng.Base.Word.{u64_max}
use codex_of_power_ng.Base.Keyed.{contains, erase, emplace, erase-emplace}
use codex_of_power_ng.Build.Progression.Contribution.{make_registration_contribution}
use codex_of_power_ng.Build.Progression.RoundTrip.{NoOverflow}
use codex_of_power_ng.Build.StateStore.Validity.{IsValidBuild, IsValidSlot}
use codex_of_power_ng.Build.StateStore.{build_points_for_discipline, score_for_discipline}
use codex_of_power_ng.Build.Types.{BuildDiscipline, BuildSlotId}
use codex_of_power_ng.Flows.Input.{FlowInput}
use codex_of_power_ng.Flows.Register.{key_of, get_discovery_group, apply_contribution}
use codex_of_power_ng.Flows.Runtime.{with_rest}
use codex_of_power_ng.Game.{GameCall}
use codex_of_power_ng.Registration.Store.{
  remove_registered, is_registered_either, push_undo_record, pop_latest_undo_record,
}
use codex_of_power_ng.Registration.Store.History.{IsHistory, kept}
use codex_of_power_ng.Registration.Store.History.Undo.{push-pop}
use codex_of_power_ng.State.{
  FormId, ActorValue, Float32, RuntimeState, UndoRecord, BuildScoreContribution,
}
use codex_of_power_ng.Flows.Undone.{
  contributed, contributed_frame, apply_contribution-runtime, with_totals,
}

-- The state after a registration of an item that was not registered: the popped record, and what the
-- pop leaves.
module _ (w : FlowInput) (item : FormId) (s : RuntimeState) where
  abbrev pub contribution : Option BuildScoreContribution
  contribution =
      make_registration_contribution (get_discovery_group w s (key_of w item))
        (w.game.form_type (key_of w item))

  abbrev pub record_of : UndoRecord
  record_of = record {
    action_id = 0;
    form_id = item;
    reg_key = key_of w item;
    group = get_discovery_group w s (key_of w item);
    build_contribution = contribution;
    reward_deltas = [];
  }

  abbrev pub items_after : List (FormId × ℕ)
  items_after = emplace (key_of w item) (get_discovery_group w s (key_of w item)) s.registered_items

module _ (w : FlowInput) (item : FormId) (s : RuntimeState) (calls : List GameCall) where
  abbrev pub applied : RuntimeState × List GameCall
  applied =
      apply_contribution w (contribution w item s)
        (record s { registered_items = (items_after w item s) }, calls)

  applied_parts :
      applied.0
      ≡ with_rest
          (items_after w item s)
          s.undo_history
          s.undo_next_action_id
          applied.0.build_applied_effect_totals
          (contributed (contribution w item s) s)
  applied_parts =
      apply_contribution-runtime w (contribution w item s)
        (record s { registered_items = (items_after w item s) }) calls
      ∙ ap (with_totals applied.0.build_applied_effect_totals) (
          contributed_frame (contribution w item s) (items_after w item s) s.undo_history
            s.undo_next_action_id s.build_applied_effect_totals s)

  -- The record of the registration, popped again.
  pub pop_registered :
      IsHistory s
      → s.undo_next_action_id < u64_max
      → pop_latest_undo_record s.undo_next_action_id
          ((push_undo_record (record_of w item s) applied.0).0)
        ≡ (
          with_rest
              (items_after w item s)
              (kept s.undo_history)
              (s.undo_next_action_id + 1)
              applied.0.build_applied_effect_totals
              (contributed (contribution w item s) s),
          some (record (record_of w item s) { action_id = s.undo_next_action_id }),
        )
  pop_registered h b =
      let p =
        with_rest (items_after w item s) s.undo_history s.undo_next_action_id
          applied.0.build_applied_effect_totals (contributed (contribution w item s) s) in
      let pp = push-pop (record_of w item s) p h b in
      ap
        (λ t.
          pop_latest_undo_record s.undo_next_action_id
            ((push_undo_record (record_of w item s) t).0))
        applied_parts
      ∙ ap (λ id. pop_latest_undo_record id ((push_undo_record (record_of w item s) p).0))
          (sym pp.0)
      ∙ pp.1.1

  pub remove_registered_again :
      (history : List UndoRecord) (next : ℕ) (totals : List (ActorValue × Float32))
      → is_registered_either (key_of w item) item s ≡ false
      → remove_registered (key_of w item) (
          with_rest
            (items_after w item s)
            history
            next
            totals
            (contributed (contribution w item s) s))
        ≡ (
          with_rest s.registered_items history next totals (contributed (contribution w item s) s),
          true,
        )
  unfolding remove_registered is_registered_either
  remove_registered_again history next totals e =
      let k = key_of w item in
      let g = get_discovery_group w s k in
      let fresh : contains k s.registered_items ≡ false = ground arith in
      let there : contains k (items_after w item s) ≡ true = ground arith in
      let removed : erase k (items_after w item s) ≡ s.registered_items =
        erase-emplace k g s.registered_items fresh in
      rw (there, removed) refl

points_frame :
    (items : List (FormId × ℕ)) (history : List UndoRecord) (next : ℕ)
    (totals : List (ActorValue × Float32)) (s : RuntimeState) (d : BuildDiscipline)
    → build_points_for_discipline (with_rest items history next totals s) d
      ≡ build_points_for_discipline s d
unfolding build_points_for_discipline
points_frame items history next totals s BuildDiscipline.attack = refl
points_frame items history next totals s BuildDiscipline.defense = refl
points_frame items history next totals s BuildDiscipline.utility = refl
points_frame items history next totals s (BuildDiscipline.other n) = refl

score_frame :
    (items : List (FormId × ℕ)) (history : List UndoRecord) (next : ℕ)
    (totals : List (ActorValue × Float32)) (s : RuntimeState) (d : BuildDiscipline)
    → score_for_discipline (with_rest items history next totals s) d ≡ score_for_discipline s d
unfolding score_for_discipline
score_frame items history next totals s BuildDiscipline.attack = refl
score_frame items history next totals s BuildDiscipline.defense = refl
score_frame items history next totals s BuildDiscipline.utility = refl
score_frame items history next totals s (BuildDiscipline.other n) = refl

pub valid_frame :
    (items : List (FormId × ℕ)) (history : List UndoRecord) (next : ℕ)
    (totals : List (ActorValue × Float32)) (s : RuntimeState)
    → IsValidBuild s
    → IsValidBuild (with_rest items history next totals s)
valid_frame items history next totals s v =
    let same : build_points_for_discipline (with_rest items history next totals s)
        ≡ build_points_for_discipline s =
      λ i d. points_frame items history next totals s d i in
    subst (λ points. (slot_id : BuildSlotId) → IsValidSlot points s.active_build_slots slot_id)
      (sym same) v

pub room_frame :
    (c : BuildScoreContribution) (s : RuntimeState) (history : List UndoRecord) (next : ℕ)
    (totals : List (ActorValue × Float32))
    → NoOverflow c s
    → NoOverflow c (with_rest s.registered_items history next totals s)
room_frame c s history next totals h =
    rw
      (
        score_frame s.registered_items history next totals s c.discipline,
        points_frame s.registered_items history next totals s c.discipline,
      )
      h

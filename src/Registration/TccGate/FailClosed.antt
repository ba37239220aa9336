-- ===== src/Registration/TccGate/FailClosed.antt =====
-- src/RegistrationInternalTcc.cpp: the gate is closed while the lists are missing.
use codex_of_power_ng.Base.{◌≡◌, ◌↔◌, ◌⊎◌, Bool, true, false, none, some, is_some, arith}
use codex_of_power_ng.State.{FormId}
use codex_of_power_ng.Registration.TccGate.{
  allow, block_unavailable, TccLists, decide_tcc_gate, list_has_either_form, evaluate_tcc_gate,
}

-- Whether a list has one of the two forms.
abbrev ListsOne : (FormId → Bool) → FormId → FormId → Type 0
ListsOne has_form a b = (has_form a ≡ true) ⊎ (has_form b ≡ true)

either_iff :
    (f : FormId → Bool) (a b : FormId) → (list_has_either_form (some f) a b ≡ true) ↔ ListsOne f a b
unfolding list_has_either_form
either_iff f a b = ground arith

passes_iff :
    (tracked shown : Bool)
    → (decide_tcc_gate true true true tracked shown ≡ allow) ↔ ((tracked ≡ true) → (shown ≡ true))
unfolding decide_tcc_gate
passes_iff true true = ground arith
passes_iff true false = ground arith
passes_iff false true = ground arith
passes_iff false false = ground arith

unavailable_iff :
    (lists : TccLists) (tracked shown : Bool)
    → (decide_tcc_gate true (is_some lists.master) (is_some lists.displayed) tracked shown
        ≡ block_unavailable)
      ↔ ((lists.master ≡ none) ⊎ (lists.displayed ≡ none))
unfolding decide_tcc_gate
unavailable_iff lists tracked shown = ground arith

-- With both lists at hand and the gate required, an item passes exactly if the museum does not
-- track it or it is on display, under its own id or its key's; without one of the lists nothing
-- passes, and the two refusals are told apart.
pub evaluate_tcc_gate_correct :
    (master displayed : FormId → Bool) (lists : TccLists) (item reg_key : FormId)
    → let gate = evaluate_tcc_gate true in
      ((gate (record { master = some master; displayed = some displayed }) item reg_key ≡ allow)
        ↔ (ListsOne master reg_key item → ListsOne displayed reg_key item))
      × ((gate lists item reg_key ≡ block_unavailable)
          ↔ ((lists.master ≡ none) ⊎ (lists.displayed ≡ none)))
unfolding evaluate_tcc_gate decide_tcc_gate list_has_either_form
evaluate_tcc_gate_correct master displayed lists item reg_key =
    let m = either_iff master reg_key item in
    let d = either_iff displayed reg_key item in
    let p =
      passes_iff (list_has_either_form (some master) reg_key item)
        (list_has_either_form (some displayed) reg_key item) in
    (
      ((λ e o. d.0 (p.0 e (m.1 o))), λ f. p.1 (λ t. d.1 (f (m.0 t)))),
      unavailable_iff lists (list_has_either_form lists.master reg_key item)
          (list_has_either_form lists.displayed reg_key item),
    )

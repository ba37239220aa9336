-- ===== src/Inventory/Safe.antt =====
-- src/Inventory.cpp: the selected stack is never a protected one, and the safe count is exact.
use codex_of_power_ng.Base.{
  ℕ, ◌+◌, ◌-◌, ◌≡◌, ◌≤◌, ◌<◌, ◌⊎◌, inl, inr, Bool, false, ◌&&◌, ◌||◌, Option, none, some, List, [],
  ◌∷◌, if◌then◌else◌, refl, arith, none-ne-some, sym, ◌∙◌,
}
use codex_of_power_ng.Base.Int.{pos, pos_part, leb_ℤ}
use codex_of_power_ng.Inventory.{
  ExtraList, RemoveSelection, no_selection, visit_extra, visit_extras, add_base,
  select_safe_removal,
}

-- A stack that may be taken: not worn, no protected favourite, and not empty.
abbrev pub IsRemovable : Bool → ExtraList → Type 0
IsRemovable protect x =
    (x.worn ≡ false)
    × ((x.worn_left ≡ false) × (((protect && x.hotkey) ≡ false) × (0 < pos_part x.count)))

abbrev pub Within : List (Option ExtraList) → ExtraList → Type 0
Within [] x = ⊥
Within (o ∷ os) x = (o ≡ some x) ⊎ Within os x

-- The items of a stack, those in stacks that are protected, and all with extra data.
abbrev pub size : Option ExtraList → ℕ
size none = 0
size (some x) = pos_part x.count

abbrev pub protected_size : Bool → Option ExtraList → ℕ
protected_size protect none = 0
protected_size protect (some x) =
    if x.worn || (x.worn_left || (protect && x.hotkey)) then pos_part x.count else 0

abbrev pub sum_of : (Option ExtraList → ℕ) → List (Option ExtraList) → ℕ
sum_of f [] = 0
sum_of f (x ∷ xs) = f x + sum_of f xs

visit_extra-counts :
    (p : Bool) (o : Option ExtraList) (out : RemoveSelection) (total : ℕ)
    → let after = visit_extra p o (out, total) in
      (after.0.safe_count + protected_size p o ≡ out.safe_count + size o)
      × ((after.1 ≡ total + size o) × (after.0.base_count ≡ out.base_count))
unfolding visit_extra
visit_extra-counts p o out total = ground arith

visit_extra-list :
    (p : Bool) (o : Option ExtraList) (out : RemoveSelection) (total : ℕ) (x : ExtraList)
    → (visit_extra p o (out, total)).0.extra_list ≡ some x
    → (out.extra_list ≡ some x) ⊎ ((o ≡ some x) × IsRemovable p x)
unfolding visit_extra
visit_extra-list p o out total x e = ground arith

visit_extra-none :
    (p : Bool) (o : Option ExtraList) (out : RemoveSelection) (total : ℕ)
    → (visit_extra p o (out, total)).0.extra_list ≡ none
    → (out.extra_list ≡ none) × (protected_size p o ≡ size o)
unfolding visit_extra
visit_extra-none p o out total e = ground arith

visit_extras-counts :
    (p : Bool) (xs : List (Option ExtraList)) (out : RemoveSelection) (total : ℕ)
    → let after = visit_extras p xs (out, total) in
      (after.0.safe_count + sum_of (protected_size p) xs ≡ out.safe_count + sum_of size xs)
      × ((after.1 ≡ total + sum_of size xs) × (after.0.base_count ≡ out.base_count))
unfolding visit_extras
visit_extras-counts p [] out total = (refl, (omega arith, refl))
visit_extras-counts p (x ∷ xs) out total =
    let after = visit_extra p x (out, total) in
    ground (arith, visit_extra-counts p x out total, visit_extras-counts p xs (after.0) (after.1))

visit_extras-list :
    (p : Bool) (xs : List (Option ExtraList)) (out : RemoveSelection) (total : ℕ) (x : ExtraList)
    → (visit_extras p xs (out, total)).0.extra_list ≡ some x
    → (out.extra_list ≡ some x) ⊎ (Within xs x × IsRemovable p x)
unfolding visit_extras
visit_extras-list p [] out total x e = inl e
visit_extras-list p (o ∷ os) out total x e =
    let after = visit_extra p o (out, total) in
    elim (visit_extras-list p os (after.0) (after.1) x e) [
      | inl f ↦ elim (visit_extra-list p o out total x f) [
        | inl g ↦ inl g
        | inr g ↦ inr (inl (g.0), g.1)
      ]
      | inr g ↦ inr (inr (g.0), g.1)
    ]

visit_extras-none :
    (p : Bool) (xs : List (Option ExtraList)) (out : RemoveSelection) (total : ℕ)
    → (visit_extras p xs (out, total)).0.extra_list ≡ none
    → (out.extra_list ≡ none) × (sum_of (protected_size p) xs ≡ sum_of size xs)
unfolding visit_extras
visit_extras-none p [] out total e = (e, refl)
visit_extras-none p (o ∷ os) out total e =
    let after = visit_extra p o (out, total) in
    let i = visit_extras-none p os (after.0) (after.1) e in
    let j = visit_extra-none p o out total (i.0) in (j.0, omega (arith, i.1, j.1))

add_base_lem :
    (total_count : ℕ) (out : RemoveSelection) (extra : ℕ)
    → out.base_count ≡ 0
    → let after = add_base total_count (out, extra) in
      (after.safe_count ≡ out.safe_count + (total_count - extra))
      × ((after.base_count ≡ total_count - extra) × (after.extra_list ≡ out.extra_list))
unfolding add_base
add_base_lem total_count out extra h = ground arith

-- For a player who owns at least as many items as stand in stacks with extra data: the safe count
-- and the protected items make up all items; the selected stack is one of the entry's, is not worn,
-- is no protected favourite and is not empty; and if no stack is selected, all safe items are base
-- items, without extra data.
pub select_safe_removal_correct :
    (p : Bool) (xs : List (Option ExtraList)) (total_count : ℕ)
    → 0 < total_count
    → sum_of size xs ≤ total_count
    → let out = select_safe_removal (some xs) (pos total_count) p in
      (out.safe_count + sum_of (protected_size p) xs ≡ total_count)
      × (((x : ExtraList) → out.extra_list ≡ some x → Within xs x × IsRemovable p x)
          × (out.extra_list ≡ none → out.safe_count ≡ out.base_count))
unfolding select_safe_removal
select_safe_removal_correct p xs total_count h l =
    let after = visit_extras p xs (no_selection, 0) in
    let t : leb_ℤ (pos total_count) (pos 0) ≡ false = ground arith in
    let c = visit_extras-counts p xs no_selection 0 in
    let b = add_base_lem total_count (after.0) (after.1) (c.1.1) in
    rw t (
      omega (arith, c.0, c.1.0, b.0, l),
      (
        (λ x e. elim (visit_extras-list p xs no_selection 0 x (sym (b.1.1) ∙ e)) [
          | inl f ↦ absurd (none-ne-some x f)
          | inr g ↦ g
        ]),
        λ e.
            let n = visit_extras-none p xs no_selection 0 (sym (b.1.1) ∙ e) in
            omega (arith, c.0, b.0, b.1.0, n.1),
      ),
    )

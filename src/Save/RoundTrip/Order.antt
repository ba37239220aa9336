-- ===== src/Save/RoundTrip/Order.antt =====
-- Containers filled in the opposite order: the same maps and sets.
use mathlib.Core.List.{reverse, reverse_aux}
use codex_of_power_ng.Base.{
  ℕ, ◌≡◌, false, ◌||◌, Option, none, some, List, [], ◌∷◌, refl, arith, ◌∙◌, All,
}
use codex_of_power_ng.Base.Keyed.{lookup, member, Distinct}
use codex_of_power_ng.Base.Keyed.{NoRepeat}

abbrev Apart : List (ℕ × ℕ) → List (ℕ × ℕ) → Type 0
Apart xs ys = All (λ x. lookup (x.0) ys ≡ none) xs

Apart-cons :
    (k v : ℕ) (xs ys : List (ℕ × ℕ)) → lookup k xs ≡ none → Apart xs ys → Apart xs ((k, v) ∷ ys)
Apart-cons k v [] ys e a = tt
Apart-cons k v ((j, w) ∷ xs) ys e a = (ground arith, Apart-cons k v xs ys (ground arith) a.1)

Distinct-reverse_aux :
    (xs ys : List (ℕ × ℕ)) → Distinct xs → Distinct ys → Apart xs ys → Distinct (reverse_aux xs ys)
Distinct-reverse_aux [] ys d c a = c
Distinct-reverse_aux ((k, v) ∷ xs) ys d c a =
    Distinct-reverse_aux xs ((k, v) ∷ ys) d.1 (a.0, c) (Apart-cons k v xs ys d.0 a.1)

Apart-nil : (xs : List (ℕ × ℕ)) → Apart xs []
Apart-nil [] = tt
Apart-nil (x ∷ xs) = (refl, Apart-nil xs)

pub Distinct-reverse : (xs : List (ℕ × ℕ)) → Distinct xs → Distinct (reverse xs)
Distinct-reverse xs d = Distinct-reverse_aux xs [] d tt (Apart-nil xs)

-- The value found by the one list, else by the other.
abbrev or_else : Option ℕ → Option ℕ → Option ℕ
or_else none o = o
or_else (some v) o = some v

lookup-reverse_aux :
    (k : ℕ) (xs ys : List (ℕ × ℕ))
    → Distinct xs
    → lookup k (reverse_aux xs ys) ≡ or_else (lookup k xs) (lookup k ys)
lookup-reverse_aux k [] ys d = refl
lookup-reverse_aux k ((j, v) ∷ xs) ys d =
    ground (arith, lookup-reverse_aux k xs ((j, v) ∷ ys) d.1, d.0)

or_else-none : (o : Option ℕ) → or_else o none ≡ o
or_else-none none = refl
or_else-none (some v) = refl

pub lookup-reverse : (k : ℕ) (xs : List (ℕ × ℕ)) → Distinct xs → lookup k (reverse xs) ≡ lookup k xs
lookup-reverse k xs d = lookup-reverse_aux k xs [] d ∙ or_else-none (lookup k xs)

abbrev IdsApart : List ℕ → List ℕ → Type 0
IdsApart xs ys = All (λ x. member x ys ≡ false) xs

IdsApart-cons :
    (k : ℕ) (xs ys : List ℕ) → member k xs ≡ false → IdsApart xs ys → IdsApart xs (k ∷ ys)
IdsApart-cons k [] ys e a = tt
IdsApart-cons k (j ∷ xs) ys e a = (ground arith, IdsApart-cons k xs ys (ground arith) a.1)

NoRepeat-reverse_aux :
    (xs ys : List ℕ) → NoRepeat xs → NoRepeat ys → IdsApart xs ys → NoRepeat (reverse_aux xs ys)
NoRepeat-reverse_aux [] ys d c a = c
NoRepeat-reverse_aux (k ∷ xs) ys d c a =
    NoRepeat-reverse_aux xs (k ∷ ys) d.1 (a.0, c) (IdsApart-cons k xs ys d.0 a.1)

IdsApart-nil : (xs : List ℕ) → IdsApart xs []
IdsApart-nil [] = tt
IdsApart-nil (x ∷ xs) = (refl, IdsApart-nil xs)

pub NoRepeat-reverse : (xs : List ℕ) → NoRepeat xs → NoRepeat (reverse xs)
NoRepeat-reverse xs d = NoRepeat-reverse_aux xs [] d tt (IdsApart-nil xs)

member-reverse_aux :
    (k : ℕ) (xs ys : List ℕ) → member k (reverse_aux xs ys) ≡ (member k xs || member k ys)
member-reverse_aux k [] ys = refl
member-reverse_aux k (x ∷ xs) ys = ground (arith, member-reverse_aux k xs (x ∷ ys))

pub member-reverse : (k : ℕ) (xs : List ℕ) → member k (reverse xs) ≡ member k xs
member-reverse k xs = ground (arith, member-reverse_aux k xs [])

-- ===== src/Base/Keyed.antt =====
-- `std::unordered_map` and `std::unordered_set` with number keys, as lists in some order.
use codex_of_power_ng.Base.Tests.{◌==◌, if◌then◌else◌, is_some}
use Prim.Native.Nat.{ℕ}
use mathlib.Core.Path.{◌≡◌, refl}
use mathlib.Core.Logic.{◌≢◌}
use mathlib.Core.Bool.{Bool, false, ◌||◌}
use mathlib.Core.Option.{Option, none, some}
use mathlib.Core.List.{List, [], ◌∷◌}
use native.Mathlib.Omega.{arith}

module _ {V : Type 0} where
  abbrev pub lookup : ℕ → List (ℕ × V) → Option V
  lookup k [] = none
  lookup k ((j, v) ∷ m) = if j == k then some v else lookup k m

  abbrev pub contains : ℕ → List (ℕ × V) → Bool
  contains k m = is_some (lookup k m)

  -- `emplace`: keeps the value of a key that is there.
  abbrev pub emplace : ℕ → V → List (ℕ × V) → List (ℕ × V)
  emplace k v m = if contains k m then m else (k, v) ∷ m

  -- `insert_or_assign`
  abbrev pub assign : ℕ → V → List (ℕ × V) → List (ℕ × V)
  assign k v [] = (k, v) ∷ []
  assign k v ((j, w) ∷ m) = if j == k then (j, v) ∷ m else (j, w) ∷ assign k v m

  abbrev pub erase : ℕ → List (ℕ × V) → List (ℕ × V)
  erase k [] = []
  erase k ((j, v) ∷ m) = if j == k then m else (j, v) ∷ erase k m

  -- No key stands twice: the representation invariant.
  abbrev pub Distinct : List (ℕ × V) → Type 0
  Distinct [] = Unit
  Distinct ((k, v) ∷ m) = (lookup k m ≡ none) × Distinct m

  pub lookup-emplace :
      (k j : ℕ) (v : V) (m : List (ℕ × V))
      → lookup j (emplace k v m)
        ≡ (if contains k m then lookup j m else if k == j then some v else lookup j m)
  lookup-emplace k j v m = ground arith

  -- A key that was not there is taken out again, and leaves the map as it was.
  pub erase-emplace :
      (k : ℕ) (v : V) (m : List (ℕ × V)) → contains k m ≡ false → erase k (emplace k v m) ≡ m
  erase-emplace k v m h = ground arith

  pub lookup-erase_ne : (k j : ℕ) (m : List (ℕ × V)) → k ≢ j → lookup j (erase k m) ≡ lookup j m
  lookup-erase_ne k j [] h = refl
  lookup-erase_ne k j (e ∷ m) h = ground (arith, lookup-erase_ne k j m h)

  pub erase-Distinct : (k : ℕ) (m : List (ℕ × V)) → Distinct m → Distinct (erase k m)
  erase-Distinct k [] d = tt
  erase-Distinct k (e ∷ m) d = ground (arith, erase-Distinct k m d.1, lookup-erase_ne k e.0 m)

  pub lookup-erase_self : (k : ℕ) (m : List (ℕ × V)) → Distinct m → lookup k (erase k m) ≡ none
  lookup-erase_self k [] d = refl
  lookup-erase_self k (e ∷ m) d = ground (arith, lookup-erase_self k m d.1)

  pub emplace-Distinct : (k : ℕ) (v : V) (m : List (ℕ × V)) → Distinct m → Distinct (emplace k v m)
  emplace-Distinct k v m d = ground arith

-- A set of identifiers.
abbrev pub member : ℕ → List ℕ → Bool
member k [] = false
member k (j ∷ s) = j == k || member k s

abbrev pub insert : ℕ → List ℕ → List ℕ
insert k s = if member k s then s else k ∷ s

pub member-insert : (k j : ℕ) (s : List ℕ) → member j (insert k s) ≡ (k == j || member j s)
member-insert k j s = ground arith

pub lookup-assign_ne :
    (k v j : ℕ) (m : List (ℕ × ℕ)) → (k == j) ≡ false → lookup j (assign k v m) ≡ lookup j m
lookup-assign_ne k v j [] h = ground arith
lookup-assign_ne k v j ((i, w) ∷ m) h = ground (arith, lookup-assign_ne k v j m h)

pub assign-Distinct : (k v : ℕ) (m : List (ℕ × ℕ)) → Distinct m → Distinct (assign k v m)
assign-Distinct k v [] d = (refl, tt)
assign-Distinct k v ((j, w) ∷ m) d =
    ground (arith, assign-Distinct k v m d.1, lookup-assign_ne k v j m)

pub lookup-assign_self : (k v : ℕ) (m : List (ℕ × ℕ)) → lookup k (assign k v m) ≡ some v
lookup-assign_self k v [] = ground arith
lookup-assign_self k v ((j, w) ∷ m) = ground (arith, lookup-assign_self k v m)

-- No id stands twice in a set.
abbrev pub NoRepeat : List ℕ → Type 0
NoRepeat [] = Unit
NoRepeat (k ∷ s) = (member k s ≡ false) × NoRepeat s

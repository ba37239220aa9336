-- ===== src/Save/AnyFile/Yields.antt =====
-- What holds of a read's result, if there is one.
use codex_of_power_ng.Base.{
  Bool, true, false, Option, none, some, List, [], ◌∷◌, ◌++◌, ◌>>=◌, if◌then◌else◌, All,
}

abbrev pub Yields {ℓ} : {A : Type 0} → (A → Type ℓ) → Option A → Type ℓ
Yields P none = Unit
Yields P (some a) = P a

module _ {A B : Type 0} where
  -- A step that only reads says nothing of the result.
  pub Yields-read :
      (P : B → Type 0) (o : Option A) (f : A → Option B)
      → ((a : A) → Yields P (f a))
      → Yields P (o >>= f)
  Yields-read P none f k = tt
  Yields-read P (some a) f k = k a

  pub Yields-bind :
      (Q : A → Type 0) (P : B → Type 0) (o : Option A) (f : A → Option B)
      → Yields Q o
      → ((a : A) → Q a → Yields P (f a))
      → Yields P (o >>= f)
  Yields-bind Q P none f q k = tt
  Yields-bind Q P (some a) f q k = k a q

module _ {A : Type 0} where
  pub Yields-if :
      (P : A → Type 0) (b : Bool) (x y : Option A)
      → Yields P x
      → Yields P y
      → Yields P (if b then x else y)
  Yields-if P true x y p q = p
  Yields-if P false x y p q = q

  pub All-snoc : (P : A → Type 0) (xs : List A) (x : A) → All P xs → P x → All P (xs ++ (x ∷ []))
  All-snoc P [] x w p = (p, tt)
  All-snoc P (y ∷ xs) x w p = (w.0, All-snoc P xs x w.1 p)

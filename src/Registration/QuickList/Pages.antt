-- ===== src/Registration/QuickList/Pages.antt =====
-- src/RegistrationQuickRegister.cpp: the pages of a list make up the list.
use codex_of_power_ng.Base.{
  ℕ, zero, suc, ◌+◌, ◌-◌, ◌≡◌, ◌≤◌, Bool, true, false, List, [], ◌∷◌, ◌++◌, ltb, refl, arith,
  length, min, take, drop, sym, ap, Bool-cases, inl, inr, ◌∙◌,
}
use codex_of_power_ng.Registration.QuickList.{fill_quick_list_page}

module _ {A : Type 0} where
  -- A client that asks for one page after the other while there is more.
  abbrev pub read_on : Bool → List A → List A
  read_on true rest = rest
  read_on false rest = []

  pub read_pages : ℕ → ℕ → ℕ → List A → List A
  read_pages zero offset limit all = []
  read_pages (suc fuel) offset limit all =
      let page = fill_quick_list_page all offset limit in
      let rest = read_pages fuel (offset + limit) limit all in
      page.items ++ read_on page.has_more rest

  take-drop : (n : ℕ) (xs : List A) → take n xs ++ drop n xs ≡ xs
  take-drop zero xs = refl
  take-drop (suc n) [] = refl
  take-drop (suc n) (x ∷ xs) = ap (λ l. x ∷ l) (take-drop n xs)

  drop_nil : (n : ℕ) → drop {A = A} n [] ≡ []
  drop_nil zero = refl
  drop_nil (suc n) = refl

  drop-drop : (a b : ℕ) (xs : List A) → drop b (drop a xs) ≡ drop (a + b) xs
  drop-drop zero b xs = let n : b ≡ 0 + b = omega arith in ap (λ n. drop n xs) n
  drop-drop (suc a) b [] = drop_nil b ∙ sym (drop_nil (suc a + b))
  drop-drop (suc a) b (x ∷ xs) =
      let n : suc (a + b) ≡ suc a + b = omega arith in
      drop-drop a b xs ∙ ap (λ n. drop n (x ∷ xs)) n

  drop_all : (n : ℕ) (xs : List A) → length xs ≤ n → drop n xs ≡ []
  drop_all zero [] h = refl
  drop_all zero (x ∷ xs) h = absurd (omega (arith, h))
  drop_all (suc n) [] h = refl
  drop_all (suc n) (x ∷ xs) h = drop_all n xs (omega (arith, h))

  length-drop : (n : ℕ) (xs : List A) → length (drop n xs) ≡ length xs - n
  length-drop zero xs = omega arith
  length-drop (suc n) [] = omega arith
  length-drop (suc n) (x ∷ xs) = omega (arith, length-drop n xs)

  page_inside :
      (offset limit : ℕ) (all : List A)
      → offset ≤ length all
      → let size = min limit (length all - offset) in
        fill_quick_list_page all offset limit ≡ record {
          has_more = ltb (offset + size) (length all);
          total = length all;
          items = take size (drop offset all);
        }
  unfolding fill_quick_list_page
  page_inside offset limit all o =
      let n : min offset (length all) ≡ offset = omega (arith, o) in rw n refl

  -- A page and what comes behind it.
  page-rest :
      (offset limit : ℕ) (all rest : List A)
      → offset ≤ length all
      → (let size = min limit (length all - offset) in
          read_on (ltb (offset + size) (length all)) rest ≡ drop size (drop offset all))
      → (let page = fill_quick_list_page all offset limit in
          page.items ++ read_on page.has_more rest ≡ drop offset all)
  page-rest offset limit all rest o e =
      rw (page_inside offset limit all o, e)
        (take-drop (min limit (length all - offset)) (drop offset all))

  last_page :
      (offset limit : ℕ) (all rest : List A)
      → (let size = min limit (length all - offset) in
          ltb (offset + size) (length all) ≡ false
          → read_on (ltb (offset + size) (length all)) rest ≡ drop size (drop offset all))
  last_page offset limit all rest e =
      let size = min limit (length all - offset) in
      rw e (sym (drop_all size (drop offset all) (ground (arith, length-drop offset all))))

  inner_page :
      (offset limit : ℕ) (all rest : List A)
      → rest ≡ drop (offset + limit) all
      → (let size = min limit (length all - offset) in
          ltb (offset + size) (length all) ≡ true
          → read_on (ltb (offset + size) (length all)) rest ≡ drop size (drop offset all))
  inner_page offset limit all rest r e =
      let n : min limit (length all - offset) ≡ limit = ground arith in
      rw e (r ∙ sym (drop-drop offset limit all) ∙ ap (λ n. drop n (drop offset all)) (sym n))

  read_pages_from :
      (fuel offset limit : ℕ) (all : List A)
      → 1 ≤ limit
      → offset ≤ length all
      → length all ≤ offset + fuel
      → read_pages (suc fuel) offset limit all ≡ drop offset all
  unfolding read_pages
  read_pages_from zero offset limit all h o l =
      let e : ltb (offset + min limit (length all - offset)) (length all) ≡ false = ground arith in
      page-rest offset limit all [] o (last_page offset limit all [] e)
  read_pages_from (suc fuel) offset limit all h o l =
      let rest = read_pages (suc fuel) (offset + limit) limit all in
      page-rest offset limit all rest o
        (elim (Bool-cases (ltb (offset + min limit (length all - offset)) (length all))) [
          | inl e ↦
              inner_page offset limit all rest
                (read_pages_from fuel (offset + limit) limit all h (ground arith) (ground arith)) e
          | inr e ↦ last_page offset limit all rest e
        ])

  -- A client that asks for one page after the other, while the page says that there is more, gets
  -- exactly the whole list, in its order, for any page size of at least one; as many pages as the
  -- list has items, and one, are enough.
  pub read_pages_correct :
      (fuel limit : ℕ) (all : List A)
      → 1 ≤ limit
      → length all ≤ fuel
      → read_pages (suc fuel) 0 limit all ≡ all
  read_pages_correct fuel limit all h l =
      read_pages_from fuel 0 limit all h (omega arith) (omega (arith, l))

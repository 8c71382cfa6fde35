-- ===== src/Storage/Order.antt =====
-- `order by`: a stable sort of the rows by a Boolean order, and `group by` with a sum.
use family_assistant_kernel.Prelude.{
  suc, ◌≡◌, refl, ◌∙◌, ap, Bool, List, [], ◌∷◌, if◌then◌else◌, length, All, any, ◌||◌, arith,
  Bool-cases, inl, inr,
}

module _ {A : Type 0} (before : A → A → Bool) where
  unfoldable pub insert_by : A → List A → List A
  insert_by x [] = x ∷ []
  insert_by x (y ∷ ys) = let rest = insert_by x ys in if before y x then y ∷ rest else x ∷ y ∷ ys

  unfoldable pub sort_by : List A → List A
  unfolding insert_by
  sort_by [] = []
  sort_by (x ∷ xs) = insert_by x (sort_by xs)

  length-insert_by : (x : A) (ys : List A) → length (insert_by x ys) ≡ suc (length ys)
  unfolding insert_by
  length-insert_by x [] = refl
  length-insert_by x (y ∷ ys) = ground (arith, length-insert_by x ys)

  pub length-sort_by : (xs : List A) → length (sort_by xs) ≡ length xs
  unfolding sort_by
  length-sort_by [] = refl
  length-sort_by (x ∷ xs) = length-insert_by x (sort_by xs) ∙ ap suc (length-sort_by xs)

  module _ (p : A → Bool) where
    any-insert_by : (x : A) (ys : List A) → any p (insert_by x ys) ≡ p x || any p ys
    unfolding insert_by
    any-insert_by x [] = refl
    any-insert_by x (y ∷ ys) = ground (arith, any-insert_by x ys)

    pub any-sort_by : (xs : List A) → any p (sort_by xs) ≡ any p xs
    unfolding sort_by
    any-sort_by [] = refl
    any-sort_by (x ∷ xs) =
        any-insert_by x (sort_by xs) ∙ ap (λ (b : Bool). p x || b) (any-sort_by xs)

  module _ (P : A → Type 0) where
    pub All-insert_by : (x : A) (ys : List A) → P x → All P ys → All P (insert_by x ys)
    unfolding insert_by
    All-insert_by x [] px h = (px, tt)
    All-insert_by x (y ∷ ys) px h = elim (Bool-cases (before y x)) [
      | inl first ↦ rw first (h.0, All-insert_by x ys px h.1)
      | inr later ↦ rw later (px, h)
    ]

    pub All-sort_by : (xs : List A) → All P xs → All P (sort_by xs)
    unfolding sort_by
    All-sort_by [] h = tt
    All-sort_by (x ∷ xs) h = All-insert_by x (sort_by xs) h.0 (All-sort_by xs h.1)

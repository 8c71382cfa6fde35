-- ===== src/Storage/Exists.antt =====
-- Which keys a table has.
use family_assistant_kernel.Prelude.{
  ℕ, ◌≡◌, refl, true, false, Option, none, some, List, [], ◌∷◌, ◌++◌, arith, ◌==◌,
}
use family_assistant_kernel.Storage.{Table, find, exists, delete_rows, update_rows, insert}

module _ {ℓ} {A : Type ℓ} where
  some_of_exists :
      (o : Option A) → elim o [ none ↦ false | some a ↦ true ] ≡ true → (a : A) × (o ≡ some a)
  some_of_exists none h = grind arith
  some_of_exists (some a) h = (a, refl)

  pub find_of_exists :
      (k : ℕ) (rows : List (ℕ × A)) → exists k rows ≡ true → (a : A) × (find k rows ≡ some a)
  unfolding exists
  find_of_exists k rows h = some_of_exists (find k rows) h

  pub exists-update_rows :
      (j k : ℕ) (f : A → A) (rows : List (ℕ × A)) → exists j (update_rows k f rows) ≡ exists j rows
  unfolding exists find update_rows
  exists-update_rows j k f [] = refl
  exists-update_rows j k f ((i, a) ∷ rows) = ground (arith, exists-update_rows j k f rows)

  exists-append : (k : ℕ) (a : A) (rows : List (ℕ × A)) → exists k (rows ++ (k, a) ∷ []) ≡ true
  unfolding exists find
  exists-append k a [] = ground arith
  exists-append k a ((i, b) ∷ rows) = ground (arith, exists-append k a rows)

  pub exists-insert : (a : A) (t : Table A) → exists t.next (insert a t).rows ≡ true
  unfolding insert
  exists-insert a t = exists-append t.next a t.rows

  exists_of_some :
      (o : Option A) (a : A) → o ≡ some a → elim o [ none ↦ false | some b ↦ true ] ≡ true
  exists_of_some none a h = cc h
  exists_of_some (some b) a h = refl

  pub exists_of_find :
      (k : ℕ) (a : A) (rows : List (ℕ × A)) → find k rows ≡ some a → exists k rows ≡ true
  unfolding exists
  exists_of_find k a rows h = exists_of_some (find k rows) a h

  pub exists-delete_rows :
      (j k : ℕ) (rows : List (ℕ × A))
      → (k == j) ≡ false
      → exists j (delete_rows k rows) ≡ exists j rows
  unfolding exists find delete_rows
  exists-delete_rows j k [] h = refl
  exists-delete_rows j k ((i, a) ∷ rows) h = ground (arith, h, exists-delete_rows j k rows h)

-- ===== src/Storage.antt =====
-- A database table (src/infrastructure/database/tables.py, `DefaultColumnsMixin`): rows under their
-- primary key, in the order of insertion, and the sequence that gives the next key.
pub mod Laws
pub mod Exists
pub mod Order
use family_assistant_kernel.Prelude.{
  ℕ, suc, ◌<◌, ◌≡◌, Bool, true, false, Option, none, some, List, [], ◌∷◌, ◌++◌, not, ◌==◌,
  if◌then◌else◌, All, select,
}
use family_assistant_kernel.Prelude.Int.{ℤ, pos, ◌+ℤ◌}

pub record Table {ℓ} (A : Type ℓ) : Type ℓ where
  pub rows : List (ℕ × A)
  pub next : ℕ

module _ {ℓ} {A : Type ℓ} where
  -- `select … where id = k`
  unfoldable pub find : ℕ → List (ℕ × A) → Option A
  find k [] = none
  find k ((j, a) ∷ rows) = if k == j then some a else find k rows

  unfoldable pub exists : ℕ → List (ℕ × A) → Bool
  unfolding find
  exists k rows = elim (find k rows) [ none ↦ false | some a ↦ true ]

  -- `update … where id = k`
  unfoldable pub update_rows : ℕ → (A → A) → List (ℕ × A) → List (ℕ × A)
  update_rows k f [] = []
  update_rows k f ((j, a) ∷ rows) = (j, if k == j then f a else a) ∷ update_rows k f rows

  -- `delete … where id = k`
  unfoldable pub delete_rows : ℕ → List (ℕ × A) → List (ℕ × A)
  delete_rows k [] = []
  delete_rows k ((j, a) ∷ rows) =
      let rest = delete_rows k rows in if k == j then rest else (j, a) ∷ rest

  -- `insert`: the row takes the next key of the sequence
  unfoldable pub insert : A → Table A → Table A
  insert a t = record { rows = t.rows ++ (t.next, a) ∷ []; next = suc t.next }

  -- `sum` of a column over the rows
  unfoldable pub sum_by : (A → ℤ) → List (ℕ × A) → ℤ
  sum_by w [] = pos 0
  sum_by w ((j, a) ∷ rows) = w a +ℤ sum_by w rows

  -- no key is used twice
  abbrev pub IsUnique : List (ℕ × A) → Type ℓ
  IsUnique [] = Unit
  IsUnique ((j, a) ∷ rows) = (find j rows ≡ none) × IsUnique rows

  -- every key came from the sequence
  abbrev pub IsBelow : ℕ → List (ℕ × A) → Type 0
  IsBelow n [] = Unit
  IsBelow n ((j, a) ∷ rows) = (j < n) × IsBelow n rows

module _ {ℓ} {A : Type ℓ} where
  pub record IsTable (t : Table A) : Type ℓ where
    pub unique : IsUnique t.rows
    pub below : IsBelow t.next t.rows

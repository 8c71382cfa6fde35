-- ===== src/Storage/Laws.antt =====
-- What the statements do to look-ups, to sums and to the keys of a table.
use family_assistant_kernel.Prelude.{
  ℕ, suc, ◌<◌, ◌≤◌, ◌≡◌, refl, none, some, List, [], ◌∷◌, ◌++◌, arith, ◌==◌, if◌then◌else◌,
}
use family_assistant_kernel.Prelude.Int.{ℤ, ◌+ℤ◌, ◌-ℤ◌, int_laws}
use family_assistant_kernel.Storage.{
  Table, find, update_rows, delete_rows, insert, sum_by, IsUnique, IsBelow, IsTable,
}
use mathlib.Core.Option

module _ {ℓ} {A : Type ℓ} where
  pub find-update_rows :
      (j k : ℕ) (f : A → A) (rows : List (ℕ × A))
      → find j (update_rows k f rows) ≡ (if k == j then Option.map f (find j rows) else find j rows)
  unfolding find update_rows
  find-update_rows j k f [] = ground arith
  find-update_rows j k f ((i, a) ∷ rows) = ground (arith, find-update_rows j k f rows)

  pub find-delete_rows :
      (j k : ℕ) (rows : List (ℕ × A))
      → find j (delete_rows k rows) ≡ (if k == j then none else find j rows)
  unfolding find delete_rows
  find-delete_rows j k [] = ground arith
  find-delete_rows j k ((i, a) ∷ rows) = ground (arith, find-delete_rows j k rows)

  pub find-append :
      (j k : ℕ) (a : A) (rows : List (ℕ × A))
      → find k rows ≡ none
      → find j (rows ++ (k, a) ∷ []) ≡ (if k == j then some a else find j rows)
  unfolding find
  find-append j k a [] h = ground arith
  find-append j k a ((i, b) ∷ rows) h = ground (arith, find-append j k a rows)

  pub find_above : (n : ℕ) (rows : List (ℕ × A)) → IsBelow n rows → find n rows ≡ none
  unfolding find
  find_above n [] h = refl
  find_above n ((j, a) ∷ rows) h = ground (arith, find_above n rows h.1)

  pub sum_by-append :
      (w : A → ℤ) (k : ℕ) (a : A) (rows : List (ℕ × A))
      → sum_by w (rows ++ (k, a) ∷ []) ≡ sum_by w rows +ℤ w a
  unfolding sum_by
  sum_by-append w k a [] = omega int_laws
  sum_by-append w k a ((j, b) ∷ rows) = rw (sum_by-append w k a rows) (omega int_laws)

  update_rows_absent :
      (k : ℕ) (f : A → A) (rows : List (ℕ × A)) → find k rows ≡ none → update_rows k f rows ≡ rows
  unfolding find update_rows
  update_rows_absent k f [] h = refl
  update_rows_absent k f ((j, a) ∷ rows) h = ground (arith, update_rows_absent k f rows)

  pub delete_rows_absent :
      (k : ℕ) (rows : List (ℕ × A)) → find k rows ≡ none → delete_rows k rows ≡ rows
  unfolding find delete_rows
  delete_rows_absent k [] h = refl
  delete_rows_absent k ((j, a) ∷ rows) h = ground (arith, delete_rows_absent k rows)

  pub sum_by-update_rows :
      (w : A → ℤ) (k : ℕ) (f : A → A) (old : A) (rows : List (ℕ × A))
      → IsUnique rows
      → find k rows ≡ some old
      → sum_by w (update_rows k f rows) ≡ sum_by w rows +ℤ (w (f old) -ℤ w old)
  unfolding find update_rows sum_by
  sum_by-update_rows w k f old [] u h = cc
  sum_by-update_rows w k f old ((j, a) ∷ rows) u h =
      grind (int_laws, update_rows_absent k f rows, sum_by-update_rows w k f old rows u.1)

  pub sum_by-delete_rows :
      (w : A → ℤ) (k : ℕ) (old : A) (rows : List (ℕ × A))
      → IsUnique rows
      → find k rows ≡ some old
      → sum_by w (delete_rows k rows) ≡ sum_by w rows -ℤ w old
  unfolding find delete_rows sum_by
  sum_by-delete_rows w k old [] u h = cc
  sum_by-delete_rows w k old ((j, a) ∷ rows) u h =
      grind (int_laws, delete_rows_absent k rows, sum_by-delete_rows w k old rows u.1)

  IsBelow-mono : (n m : ℕ) (rows : List (ℕ × A)) → n ≤ m → IsBelow n rows → IsBelow m rows
  IsBelow-mono n m [] le h = tt
  IsBelow-mono n m ((j, a) ∷ rows) le h = (omega arith, IsBelow-mono n m rows le h.1)

  IsBelow-append :
      (n k : ℕ) (a : A) (rows : List (ℕ × A))
      → k < n
      → IsBelow n rows
      → IsBelow n (rows ++ (k, a) ∷ [])
  IsBelow-append n k a [] lt h = (lt, tt)
  IsBelow-append n k a ((j, b) ∷ rows) lt h = (h.0, IsBelow-append n k a rows lt h.1)

  IsUnique-append :
      (k : ℕ) (a : A) (rows : List (ℕ × A))
      → find k rows ≡ none
      → IsUnique rows
      → IsUnique (rows ++ (k, a) ∷ [])
  unfolding find
  IsUnique-append k a [] h u = (refl, tt)
  IsUnique-append k a ((j, b) ∷ rows) h u =
      (ground (arith, find-append j k a rows), IsUnique-append k a rows (ground arith) u.1)

  IsUnique-update_rows :
      (k : ℕ) (f : A → A) (rows : List (ℕ × A)) → IsUnique rows → IsUnique (update_rows k f rows)
  unfolding update_rows
  IsUnique-update_rows k f [] u = tt
  IsUnique-update_rows k f ((j, a) ∷ rows) u =
      (ground (arith, find-update_rows j k f rows), IsUnique-update_rows k f rows u.1)

  IsBelow-update_rows :
      (n k : ℕ) (f : A → A) (rows : List (ℕ × A))
      → IsBelow n rows
      → IsBelow n (update_rows k f rows)
  unfolding update_rows
  IsBelow-update_rows n k f [] h = tt
  IsBelow-update_rows n k f ((j, a) ∷ rows) h = (h.0, IsBelow-update_rows n k f rows h.1)

  IsUnique-delete_rows :
      (k : ℕ) (rows : List (ℕ × A)) → IsUnique rows → IsUnique (delete_rows k rows)
  unfolding delete_rows
  IsUnique-delete_rows k [] u = tt
  IsUnique-delete_rows k ((j, a) ∷ rows) u =
      ground (arith, find-delete_rows j k rows, IsUnique-delete_rows k rows u.1)

  IsBelow-delete_rows :
      (n k : ℕ) (rows : List (ℕ × A)) → IsBelow n rows → IsBelow n (delete_rows k rows)
  unfolding delete_rows
  IsBelow-delete_rows n k [] h = tt
  IsBelow-delete_rows n k ((j, a) ∷ rows) h = ground (arith, IsBelow-delete_rows n k rows h.1)

module _ {ℓ} {A : Type ℓ} where
  pub insert-IsTable : (a : A) (t : Table A) → IsTable t → IsTable (insert a t)
  unfolding insert
  insert-IsTable a t h = record {
    unique = IsUnique-append t.next a t.rows (find_above t.next t.rows h.below) h.unique;
    below =
        IsBelow-append (suc t.next) t.next a t.rows (omega arith)
          (IsBelow-mono t.next (suc t.next) t.rows (omega arith) h.below);
  }

  pub update_rows-IsTable :
      (k : ℕ) (f : A → A) (t : Table A)
      → IsTable t
      → IsTable (record t { rows = update_rows k f t.rows })
  update_rows-IsTable k f t h = record {
    unique = IsUnique-update_rows k f t.rows h.unique;
    below = IsBelow-update_rows t.next k f t.rows h.below;
  }

  pub delete_rows-IsTable :
      (k : ℕ) (t : Table A) → IsTable t → IsTable (record t { rows = delete_rows k t.rows })
  delete_rows-IsTable k t h = record {
    unique = IsUnique-delete_rows k t.rows h.unique;
    below = IsBelow-delete_rows t.next k t.rows h.below;
  }

  -- the row that was just inserted is found under the key that the sequence gave
  pub find-insert :
      (j : ℕ) (a : A) (t : Table A)
      → IsTable t
      → find j (insert a t).rows ≡ (if t.next == j then some a else find j t.rows)
  unfolding insert
  find-insert j a t h = find-append j t.next a t.rows (find_above t.next t.rows h.below)

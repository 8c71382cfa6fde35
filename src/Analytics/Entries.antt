-- ===== src/Analytics/Entries.antt =====
-- The entries of the dictionary of results that `transactions_basic_analytics` starts with.
use family_assistant_kernel.Prelude.{
  ◌≡◌, refl, sym, ◌∙◌, ap, Bool, true, false, ◌||◌, ◌==◌, List, [], ◌∷◌, map, Bool-cases, inl, inr,
  arith, ℕ,
}
use family_assistant_kernel.Storage.{find, exists}
use family_assistant_kernel.Storage.Order.{insert_by, sort_by}
use family_assistant_kernel.Ledger.Tables.{Currency}
use family_assistant_kernel.Analytics.Totals.{no_analytics}

or_swap : (a b c : Bool) → a || (b || c) ≡ b || (a || c)
or_swap true true c = refl
or_swap true false c = refl
or_swap false true c = refl
or_swap false false c = refl

exists_cons :
    {A : Type 0} (j : ℕ) (r : ℕ × A) (rows : List (ℕ × A))
    → exists j (r ∷ rows) ≡ (j == r.0) || exists j rows
unfolding exists find
exists_cons j (k, a) rows = ground arith

exists-insert_by :
    (before : ℕ × Currency → ℕ × Currency → Bool) (j : ℕ) (r : ℕ × Currency)
    (rows : List (ℕ × Currency))
    → exists j (insert_by before r rows) ≡ (j == r.0) || exists j rows
unfolding insert_by
exists-insert_by before j r [] = exists_cons j r []
exists-insert_by before j r (q ∷ rows) = elim (Bool-cases (before q r)) [
  | inl e ↦ rw e (
      exists_cons j q (insert_by before r rows)
      ∙ rw (exists-insert_by before j r rows, exists_cons j q rows)
          (or_swap (j == q.0) (j == r.0) _))
  | inr e ↦ rw e (exists_cons j r (q ∷ rows))
]

pub exists-sort_by :
    (before : ℕ × Currency → ℕ × Currency → Bool) (j : ℕ) (rows : List (ℕ × Currency))
    → exists j (sort_by before rows) ≡ exists j rows
unfolding sort_by
exists-sort_by before j [] = refl
exists-sort_by before j (r ∷ rows) =
    exists-insert_by before j r (sort_by before rows)
    ∙ ap (λ b. (j == r.0) || b) (exists-sort_by before j rows)
    ∙ sym (exists_cons j r rows)

pub exists-no_results :
    (j : ℕ) (rows : List (ℕ × Currency))
    → exists j (map (λ r. (r.0, no_analytics r.1)) rows) ≡ exists j rows
unfolding exists
exists-no_results j [] = refl
exists-no_results j (r ∷ rows) =
    exists_cons j (r.0, no_analytics r.1) _
    ∙ ap (λ b. (j == r.0) || b) (exists-no_results j rows)
    ∙ sym (exists_cons j r rows)

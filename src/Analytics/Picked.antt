-- ===== src/Analytics/Picked.antt =====
-- What holds of the rows of the tables holds of the values that the queries of
-- `transactions_basic_analytics` pick.
use family_assistant_kernel.Prelude.{
  ℕ, Bool, true, false, String, Option, none, some, List, [], ◌∷◌, if◌then◌else◌, All,
}
use family_assistant_kernel.Prelude.Int.{ℤ}
use family_assistant_kernel.Storage.{find}
use family_assistant_kernel.Ledger.Tables.{Cost, Income, Exchange}
use family_assistant_kernel.Analytics.{Range}
use family_assistant_kernel.Analytics.Totals.{
  CategoryKey, picks, picks_exchange, cost_values, income_values, in_category, category_values,
  source_values, exchanges_of,
}

module _ (matches : String → String → Bool) (pattern : Option String) (range : Range)
    (R : ℕ → Type 0) where
  All-if :
      {X : Type 0} (P : X → Type 0) (b : Bool) (x : X) (xs : List X)
      → P x
      → All P xs
      → All P (if b then x ∷ xs else xs)
  All-if P true x xs p h = (p, h)
  All-if P false x xs p h = h

  pub All-cost_values :
      (P : ℕ × ℤ → Type 0) (rows : List (ℕ × Cost))
      → All (λ r. P (r.1.currency_id, r.1.value)) rows
      → All P (cost_values matches pattern range rows)
  unfolding cost_values
  All-cost_values P [] h = tt
  All-cost_values P ((id, c) ∷ rows) h =
      All-if P (picks matches pattern range c.timestamp c.name) _ _ h.0 (All-cost_values P rows h.1)

  pub All-income_values :
      (rows : List (ℕ × Income))
      → All (λ r. R r.1.currency_id) rows
      → All (λ g. R g.0) (income_values matches pattern range rows)
  unfolding income_values
  All-income_values [] h = tt
  All-income_values ((id, i) ∷ rows) h =
      All-if (λ g. R g.0) (picks matches pattern range i.timestamp i.name) (i.currency_id, i.value)
        _ h.0 (All-income_values rows h.1)

  pub All-source_values :
      (rows : List (ℕ × Income))
      → All (λ r. R r.1.currency_id) rows
      → All (λ g. R g.0.0) (source_values matches pattern range rows)
  unfolding source_values
  All-source_values [] h = tt
  All-source_values ((id, i) ∷ rows) h =
      All-if (λ g. R g.0.0) (picks matches pattern range i.timestamp i.name)
        ((i.currency_id, i.source), i.value) _ h.0 (All-source_values rows h.1)

  pub All-exchanges_of :
      (rows : List (ℕ × Exchange))
      → All (λ r. R r.1.from_currency_id) rows
      → All (λ r. R r.1.to_currency_id) rows
      → All
          (λ y. R y.from_currency_id × R y.to_currency_id)
          (exchanges_of matches pattern range rows)
  unfolding exchanges_of
  All-exchanges_of [] h g = tt
  All-exchanges_of ((id, x) ∷ rows) h g =
      All-if (λ y. R y.from_currency_id × R y.to_currency_id)
        (picks_exchange matches pattern range id x) x _ (h.0, g.0) (All-exchanges_of rows h.1 g.1)

  All-in_category :
      (b : Bool) (o : Option String) (c : Cost) (vs : List (ℕ × ℤ)) (rest : List (CategoryKey × ℤ))
      → All (λ v. R v.0) (if b then (c.currency_id, c.value) ∷ vs else vs)
      → (All (λ v. R v.0) vs → All (λ g. R g.0.0) rest)
      → All (λ g. R g.0.0) (if b then in_category matches pattern range c o rest else rest)
  All-in_category true none c vs rest h f = f h.1
  All-in_category true (some name) c vs rest h f = (h.0, f h.1)
  All-in_category false o c vs rest h f = f h

  -- a category of the answer belongs to a picked cost, whose currency has a total
  pub All-category_values :
      (categories : List (ℕ × String)) (rows : List (ℕ × Cost))
      → All (λ v. R v.0) (cost_values matches pattern range rows)
      → All (λ g. R g.0.0) (category_values matches pattern range categories rows)
  unfolding cost_values category_values
  All-category_values categories [] h = tt
  All-category_values categories ((id, c) ∷ rows) h =
      All-in_category (picks matches pattern range c.timestamp c.name)
        (find c.category_id categories) c _ _ h (All-category_values categories rows)

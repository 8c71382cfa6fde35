-- ===== src/Analytics/Plain.antt =====
-- The plain sums over the tables that the grouped totals of `transactions_basic_analytics` come to.
use family_assistant_kernel.Prelude.{
  ℕ, ◌≡◌, refl, ◌∙◌, ap, Bool, true, false, ◌==◌, String, Option, List, [], ◌∷◌, if◌then◌else◌, All,
  Bool-cases, inl, inr,
}
use family_assistant_kernel.Prelude.Int.{ℤ, pos, ◌+ℤ◌, ◌-ℤ◌, int_laws}
use family_assistant_kernel.Storage.{exists, sum_by}
use family_assistant_kernel.Storage.Exists.{find_of_exists}
use family_assistant_kernel.Storage.Order.{insert_by, sort_by}
use family_assistant_kernel.Ledger.Tables.{Cost, Income, Exchange}
use family_assistant_kernel.Ledger.Opening.{spent_in, earned_in, given_in, received_in}
use family_assistant_kernel.Analytics.{Range}
use family_assistant_kernel.Analytics.Grouping.{plus_if, sum_where}
use family_assistant_kernel.Analytics.Totals.{
  by_timestamp, picks, picks_exchange, cost_values, income_values, category_values, source_values,
  exchanges_of,
}
use family_assistant_kernel.Analytics.Sums.{exchanged, of_category, of_source}

-- a value that a filter picks
abbrev pub if_picked : Bool → ℤ → ℤ
if_picked true v = v
if_picked false v = pos 0

module _ (matches : String → String → Bool) (pattern : Option String) (range : Range) where
  -- what the picked rows spent, earned, brought and gave in a currency
  abbrev pub spent : ℕ → List (ℕ × Cost) → ℤ
  spent j = sum_by (λ c. if_picked (picks matches pattern range c.timestamp c.name) (spent_in j c))

  abbrev pub earned : ℕ → List (ℕ × Income) → ℤ
  earned j =
      sum_by (λ i. if_picked (picks matches pattern range i.timestamp i.name) (earned_in j i))

  unfoldable pub swapped : ℕ → List (ℕ × Exchange) → ℤ
  swapped j [] = pos 0
  swapped j ((id, x) ∷ rows) =
      if_picked (picks_exchange matches pattern range id x) (received_in j x -ℤ given_in j x)
      +ℤ swapped j rows

zero_plus : (v : ℤ) → v ≡ pos 0 +ℤ v
zero_plus v = omega int_laws

swap_sums : (a b rest : ℤ) → a +ℤ (b +ℤ rest) ≡ b +ℤ (a +ℤ rest)
swap_sums a b rest = omega int_laws

plus_if_value : (b : Bool) (v rest : ℤ) → plus_if b v rest ≡ (if b then v else pos 0) +ℤ rest
plus_if_value true v rest = refl
plus_if_value false v rest = zero_plus rest

sum_where_nil : {K : Type 0} (p : K → Bool) → sum_where p [] ≡ pos 0
unfolding sum_where
sum_where_nil p = refl

sum_where-pick :
    {K : Type 0} (p : K → Bool) (a : Bool) (key : K) (v w : ℤ) (vs : List (K × ℤ)) (total : ℤ)
    → (if p key then v else pos 0) ≡ w
    → sum_where p vs ≡ total
    → sum_where p (if a then (key, v) ∷ vs else vs) ≡ if_picked a w +ℤ total
unfolding sum_where
sum_where-pick p false key v w vs total e h = h ∙ zero_plus total
sum_where-pick p true key v w vs total e h =
    plus_if_value (p key) v (sum_where p vs) ∙ rw (e, h) refl

module _ (matches : String → String → Bool) (pattern : Option String) (range : Range) where
  pub sum_where-cost_values :
      (j : ℕ) (rows : List (ℕ × Cost))
      → sum_where (λ k. k == j) (cost_values matches pattern range rows)
        ≡ spent matches pattern range j rows
  unfolding cost_values sum_by
  sum_where-cost_values j [] = sum_where_nil _
  sum_where-cost_values j ((id, c) ∷ rows) =
      sum_where-pick (λ k. k == j) (picks matches pattern range c.timestamp c.name) c.currency_id
        c.value (spent_in j c) (cost_values matches pattern range rows) _ refl
        (sum_where-cost_values j rows)

  pub sum_where-income_values :
      (j : ℕ) (rows : List (ℕ × Income))
      → sum_where (λ k. k == j) (income_values matches pattern range rows)
        ≡ earned matches pattern range j rows
  unfolding income_values sum_by
  sum_where-income_values j [] = sum_where_nil _
  sum_where-income_values j ((id, i) ∷ rows) =
      sum_where-pick (λ k. k == j) (picks matches pattern range i.timestamp i.name) i.currency_id
        i.value (earned_in j i) (income_values matches pattern range rows) _ refl
        (sum_where-income_values j rows)

  pub sum_where-source_values :
      (j : ℕ) (rows : List (ℕ × Income))
      → sum_where (of_source j) (source_values matches pattern range rows)
        ≡ earned matches pattern range j rows
  unfolding source_values sum_by
  sum_where-source_values j [] = sum_where_nil _
  sum_where-source_values j ((id, i) ∷ rows) =
      sum_where-pick (of_source j) (picks matches pattern range i.timestamp i.name)
        (i.currency_id, i.source) i.value (earned_in j i) (source_values matches pattern range rows)
        _ refl (sum_where-source_values j rows)

  pub sum_where-category_values :
      (j : ℕ) (categories : List (ℕ × String)) (rows : List (ℕ × Cost))
      → All (λ r. exists r.1.category_id categories ≡ true) rows
      → sum_where (of_category j) (category_values matches pattern range categories rows)
        ≡ spent matches pattern range j rows
  unfolding category_values sum_by
  sum_where-category_values j categories [] h = sum_where_nil _
  sum_where-category_values j categories ((id, c) ∷ rows) h =
      let (name, e) = find_of_exists c.category_id categories h.0 in
      rw e (
        sum_where-pick (of_category j) (picks matches pattern range c.timestamp c.name)
          (c.currency_id, c.category_id, name) c.value (spent_in j c)
          (category_values matches pattern range categories rows) _ refl
          (sum_where-category_values j categories rows h.1))

  pub exchanged-exchanges_of :
      (j : ℕ) (rows : List (ℕ × Exchange))
      → exchanged j (exchanges_of matches pattern range rows) ≡ swapped matches pattern range j rows
  unfolding exchanged exchanges_of swapped
  exchanged-exchanges_of j [] = refl
  exchanged-exchanges_of j ((id, x) ∷ rows) =
      elim (Bool-cases (picks_exchange matches pattern range id x)) [
        | inl e ↦ rw (e, exchanged-exchanges_of j rows) refl
        | inr e ↦ rw (e, exchanged-exchanges_of j rows) (zero_plus _)
      ]

exchanged-insert_by :
    (j : ℕ) (x : Exchange) (ys : List Exchange)
    → exchanged j (insert_by by_timestamp x ys) ≡ exchanged j (x ∷ ys)
unfolding exchanged insert_by
exchanged-insert_by j x [] = refl
exchanged-insert_by j x (y ∷ ys) = elim (Bool-cases (by_timestamp y x)) [
  | inl e ↦ rw (e, exchanged-insert_by j x ys) (swap_sums _ _ _)
  | inr e ↦ rw e refl
]

pub exchanged-sort_by :
    (j : ℕ) (xs : List Exchange) → exchanged j (sort_by by_timestamp xs) ≡ exchanged j xs
unfolding exchanged sort_by
exchanged-sort_by j [] = refl
exchanged-sort_by j (x ∷ xs) =
    exchanged-insert_by j x (sort_by by_timestamp xs)
    ∙ ap (λ (z : ℤ). received_in j x -ℤ given_in j x +ℤ z) (exchanged-sort_by j xs)

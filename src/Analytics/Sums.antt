-- ===== src/Analytics/Sums.antt =====
-- The totals of `transactions_basic_analytics` against plain sums over the tables.
use family_assistant_kernel.Prelude.{
  ℕ, ◌≡◌, ◌∙◌, ap, Bool, true, false, ◌==◌, String, List, [], ◌∷◌, ◌++◌, if◌then◌else◌,
}
use family_assistant_kernel.Prelude.Int.{ℤ, pos, ◌+ℤ◌, ◌-ℤ◌, int_laws}
use family_assistant_kernel.Ledger.Tables.{IncomeSource, Exchange}
use family_assistant_kernel.Ledger.Opening.{given_in, received_in}
use family_assistant_kernel.Analytics.Grouping.{plus_if, sum_where, assigned}
use family_assistant_kernel.Analytics.Totals.{
  CostsByCategory, IncomesBySource, TransactionsBasicAnalytics, CategoryKey, SourceKey, set_costs,
  set_incomes, add_category, add_source, add_exchanged, take_exchanged,
}

-- the sums of the two lists of an answer
unfoldable pub sum_categories : List CostsByCategory → ℤ
sum_categories [] = pos 0
sum_categories (c ∷ cs) = c.total +ℤ sum_categories cs

unfoldable pub sum_sources : List IncomesBySource → ℤ
sum_sources [] = pos 0
sum_sources (s ∷ ss) = s.total +ℤ sum_sources ss

sum_categories-append :
    (cs : List CostsByCategory) (c : CostsByCategory)
    → sum_categories (cs ++ c ∷ []) ≡ sum_categories cs +ℤ c.total
unfolding sum_categories
sum_categories-append [] c = omega int_laws
sum_categories-append (d ∷ cs) c = rw (sum_categories-append cs c) (omega int_laws)

sum_sources-append :
    (ss : List IncomesBySource) (s : IncomesBySource)
    → sum_sources (ss ++ s ∷ []) ≡ sum_sources ss +ℤ s.total
unfolding sum_sources
sum_sources-append [] s = omega int_laws
sum_sources-append (t ∷ ss) s = rw (sum_sources-append ss s) (omega int_laws)

-- what the exchanges bring a currency
unfoldable pub exchanged : ℕ → List Exchange → ℤ
exchanged j [] = pos 0
exchanged j (x ∷ xs) = received_in j x -ℤ given_in j x +ℤ exchanged j xs

-- the writes that the five loops still have before them
pub record Rest : Type 0 where
  pub cost : List (ℕ × ℤ)
  pub income : List (ℕ × ℤ)
  pub category : List (CategoryKey × ℤ)
  pub source : List (SourceKey × ℤ)
  pub exchange : List Exchange

abbrev pub of_category : ℕ → CategoryKey → Bool
of_category j k = k.0 == j

abbrev pub of_source : ℕ → SourceKey → Bool
of_source j k = k.0 == j

-- What the totals of a currency are to be when the rest is written.
pub record Sums (c k i s x : ℤ) (rest : Rest) (j : ℕ) (a : TransactionsBasicAnalytics)
    : Type 0 where
  pub cost : assigned j rest.cost a.costs.total ≡ c
  pub income : assigned j rest.income a.incomes.total ≡ i
  pub category : sum_categories a.costs.categories +ℤ sum_where (of_category j) rest.category ≡ k
  pub source : sum_sources a.incomes.sources +ℤ sum_where (of_source j) rest.source ≡ s
  pub exchange : a.from_exchanges +ℤ exchanged j rest.exchange ≡ x

regroup : (a b rest : ℤ) → a +ℤ b +ℤ rest ≡ a +ℤ (b +ℤ rest)
regroup a b rest = omega int_laws

moved_out : (f r g rest : ℤ) → f -ℤ g +ℤ rest ≡ f +ℤ (r -ℤ g +ℤ rest) -ℤ r
moved_out f r g rest = omega int_laws

moved_none : (f r rest : ℤ) → f +ℤ rest ≡ f +ℤ (r -ℤ pos 0 +ℤ rest) -ℤ r
moved_none f r rest = omega int_laws

moved_in : (f v rest : ℤ) → f +ℤ v +ℤ rest ≡ f +ℤ rest +ℤ v
moved_in f v rest = omega int_laws

back : (x v : ℤ) → x -ℤ v +ℤ v ≡ x
back x v = omega int_laws

less_zero : (x : ℤ) → x -ℤ pos 0 ≡ x
less_zero x = omega int_laws

module _ (c k i s x : ℤ) (rest : Rest) (j : ℕ) (a : TransactionsBasicAnalytics) where
  pub cost_if :
      (b : Bool) (d : ℕ) (total : ℤ)
      → Sums c k i s x (record rest { cost = (d, total) ∷ rest.cost }) j a
      → assigned j rest.cost (if b then total else a.costs.total) ≡ c
      → Sums c k i s x rest j (if b then set_costs total a else a)
  cost_if true d total h e = record {
    cost = e;
    income = h.income;
    category = h.category;
    source = h.source;
    exchange = h.exchange;
  }
  cost_if false d total h e = record {
    cost = e;
    income = h.income;
    category = h.category;
    source = h.source;
    exchange = h.exchange;
  }

  pub income_if :
      (b : Bool) (d : ℕ) (total : ℤ)
      → Sums c k i s x (record rest { income = (d, total) ∷ rest.income }) j a
      → assigned j rest.income (if b then total else a.incomes.total) ≡ i
      → Sums c k i s x rest j (if b then set_incomes total a else a)
  income_if true d total h e = record {
    cost = h.cost;
    income = e;
    category = h.category;
    source = h.source;
    exchange = h.exchange;
  }
  income_if false d total h e = record {
    cost = h.cost;
    income = e;
    category = h.category;
    source = h.source;
    exchange = h.exchange;
  }

  pub category_if :
      (b : Bool) (key : CategoryKey) (id : ℕ) (name : String) (total : ℤ)
      → Sums c k i s x (record rest { category = (key, total) ∷ rest.category }) j a
      → sum_categories a.costs.categories
          +ℤ plus_if b total (sum_where (of_category j) rest.category)
        ≡ k
      → Sums c k i s x rest j (if b then add_category id name total a else a)
  category_if true key id name total h e = record {
    cost = h.cost;
    income = h.income;
    category = rw (sum_categories-append a.costs.categories _) (regroup _ total _ ∙ e);
    source = h.source;
    exchange = h.exchange;
  }
  category_if false key id name total h e = record {
    cost = h.cost;
    income = h.income;
    category = e;
    source = h.source;
    exchange = h.exchange;
  }

  pub source_if :
      (b : Bool) (key : SourceKey) (source : IncomeSource) (total : ℤ)
      → Sums c k i s x (record rest { source = (key, total) ∷ rest.source }) j a
      → sum_sources a.incomes.sources +ℤ plus_if b total (sum_where (of_source j) rest.source) ≡ s
      → Sums c k i s x rest j (if b then add_source source total a else a)
  source_if true key source total h e = record {
    cost = h.cost;
    income = h.income;
    category = h.category;
    source = rw (sum_sources-append a.incomes.sources _) (regroup _ total _ ∙ e);
    exchange = h.exchange;
  }
  source_if false key source total h e = record {
    cost = h.cost;
    income = h.income;
    category = h.category;
    source = e;
    exchange = h.exchange;
  }

  pub take_if :
      (b : Bool) (y : Exchange) (received : ℤ)
      → Sums c k i s x (record rest { exchange = y ∷ rest.exchange }) j a
      → a.from_exchanges
          +ℤ (received -ℤ (if b then y.from_value else pos 0) +ℤ exchanged j rest.exchange)
        ≡ x
      → Sums c k i s (x -ℤ received) rest j (if b then take_exchanged y.from_value a else a)
  take_if true y received h e = record {
    cost = h.cost;
    income = h.income;
    category = h.category;
    source = h.source;
    exchange = moved_out _ received y.from_value _ ∙ ap (λ (z : ℤ). z -ℤ received) e;
  }
  take_if false y received h e = record {
    cost = h.cost;
    income = h.income;
    category = h.category;
    source = h.source;
    exchange = moved_none _ received _ ∙ ap (λ (z : ℤ). z -ℤ received) e;
  }

  pub add_if :
      (b : Bool) (v : ℤ)
      → Sums c k i s (x -ℤ (if b then v else pos 0)) rest j a
      → Sums c k i s x rest j (if b then add_exchanged v a else a)
  add_if true v h = record {
    cost = h.cost;
    income = h.income;
    category = h.category;
    source = h.source;
    exchange = moved_in _ v _ ∙ ap (λ (z : ℤ). z +ℤ v) h.exchange ∙ back x v;
  }
  add_if false v h = record {
    cost = h.cost;
    income = h.income;
    category = h.category;
    source = h.source;
    exchange = h.exchange ∙ less_zero x;
  }

-- ===== src/Analytics/Totals.antt =====
-- `TransactionsAnalyticsService.transactions_basic_analytics` of
-- src/infrastructure/query_services/analytics.py. The ratio of a category, a float, is left as the two
-- integers that are divided.
use family_assistant_kernel.Prelude.{
  ℕ, Bool, true, ◌&&◌, ◌||◌, ltb, leb, ◌==◌, str_eq, String, Option, none, some, List, [], ◌∷◌,
  ◌++◌, if◌then◌else◌, map,
}
use family_assistant_kernel.Prelude.Int.{ℤ, pos, ◌+ℤ◌, ◌-ℤ◌, eqb_ℤ}
use family_assistant_kernel.Exec.{
  Result, ok, err, database, key_error, zero_division, Exec, ◌>>◌, pure, raise,
}
use family_assistant_kernel.Storage.{find, exists, update_rows}
use family_assistant_kernel.Storage.Order.{sort_by}
use family_assistant_kernel.Ledger.Tables.{
  Currency, Cost, Income, IncomeSource, revenue, gift, debt, other, Exchange, Db,
}
use family_assistant_kernel.Analytics.{Range, in_range}
use family_assistant_kernel.Analytics.Grouping.{group_totals}

pub record CostsByCategory : Type 0 where
  pub id : ℕ
  pub name : String
  pub total : ℤ
  pub of_total : ℤ

pub record CostsAnalytics : Type 0 where
  pub total : ℤ
  pub categories : List CostsByCategory

pub record IncomesBySource : Type 0 where
  pub source : IncomeSource
  pub total : ℤ

pub record IncomesAnalytics : Type 0 where
  pub total : ℤ
  pub sources : List IncomesBySource

pub record TransactionsBasicAnalytics : Type 0 where
  pub currency_name : String
  pub currency_sign : String
  pub costs : CostsAnalytics
  pub incomes : IncomesAnalytics
  pub from_exchanges : ℤ

-- the dictionary `results`, in its order
abbrev pub Results : Type 0
Results = List (ℕ × TransactionsBasicAnalytics)

abbrev pub no_analytics : Currency → TransactionsBasicAnalytics
no_analytics c = record {
  currency_name = c.name;
  currency_sign = c.sign;
  costs = record { total = pos 0; categories = [] };
  incomes = record { total = pos 0; sources = [] };
  from_exchanges = pos 0;
}

-- an empty pattern is falsy
abbrev pub given_pattern : Option String → Option String
given_pattern none = none
given_pattern (some p) = if str_eq p "" then none else some p

abbrev pub both_dates : Option ℕ → Option ℕ → Range
both_dates none e = none
both_dates (some s) none = none
both_dates (some s) (some e) = some (s, e)

-- the position of a source in the order of the texts
abbrev pub rank : IncomeSource → ℕ
rank debt = 0
rank gift = 1
rank other = 2
rank revenue = 3

-- a currency and a category with its name, and a currency and a source
abbrev pub CategoryKey : Type 0
CategoryKey = ℕ × ℕ × String

abbrev pub SourceKey : Type 0
SourceKey = ℕ × IncomeSource

abbrev pub same_category : CategoryKey → CategoryKey → Bool
same_category (c, k, n) (d, j, m) = (c == d) && (k == j)

abbrev pub same_source : SourceKey → SourceKey → Bool
same_source (c, s) (d, t) = (c == d) && (rank s == rank t)

abbrev pub by_currency : ℕ × ℤ → ℕ × ℤ → Bool
by_currency a b = leb a.0 b.0

abbrev pub by_category : CategoryKey × ℤ → CategoryKey × ℤ → Bool
by_category ((c, k, n), v) ((d, j, m), w) = ltb c d || ((c == d) && leb k j)

abbrev pub by_source : SourceKey × ℤ → SourceKey × ℤ → Bool
by_source ((c, s), v) ((d, t), w) = ltb c d || ((c == d) && leb (rank s) (rank t))

-- `order by timestamp`
abbrev pub by_timestamp : Exchange → Exchange → Bool
by_timestamp x y = leb x.timestamp y.timestamp

module _ (matches : String → String → Bool) (pattern : Option String) (range : Range) where
  abbrev pub named : Option String → String → Bool
  named none name = true
  named (some p) name = matches p name

  -- `cost_filters` and `income_filters`
  abbrev pub picks : ℕ → String → Bool
  picks timestamp name = in_range range timestamp && named pattern name

  -- `exchange_filters`: with a pattern only an exchange with the id 0
  abbrev pub no_pattern : Option String → ℕ → Bool
  no_pattern none id = true
  no_pattern (some p) id = id == 0

  abbrev pub picks_exchange : ℕ → Exchange → Bool
  picks_exchange id x = in_range range x.timestamp && no_pattern pattern id

  unfoldable pub cost_values : List (ℕ × Cost) → List (ℕ × ℤ)
  cost_values [] = []
  cost_values ((id, c) ∷ rows) =
      let rest = cost_values rows in
      if picks c.timestamp c.name then (c.currency_id, c.value) ∷ rest else rest

  unfoldable pub income_values : List (ℕ × Income) → List (ℕ × ℤ)
  income_values [] = []
  income_values ((id, i) ∷ rows) =
      let rest = income_values rows in
      if picks i.timestamp i.name then (i.currency_id, i.value) ∷ rest else rest

  -- the join with the categories: a cost without its category is not in the result
  abbrev pub in_category : Cost → Option String → List (CategoryKey × ℤ) → List (CategoryKey × ℤ)
  in_category c none rest = rest
  in_category c (some name) rest = ((c.currency_id, c.category_id, name), c.value) ∷ rest

  unfoldable pub category_values : List (ℕ × String) → List (ℕ × Cost) → List (CategoryKey × ℤ)
  category_values categories [] = []
  category_values categories ((id, c) ∷ rows) =
      let rest = category_values categories rows in
      if picks c.timestamp c.name then in_category c (find c.category_id categories) rest else rest

  unfoldable pub source_values : List (ℕ × Income) → List (SourceKey × ℤ)
  source_values [] = []
  source_values ((id, i) ∷ rows) =
      let rest = source_values rows in
      if picks i.timestamp i.name then ((i.currency_id, i.source), i.value) ∷ rest else rest

  unfoldable pub exchanges_of : List (ℕ × Exchange) → List Exchange
  exchanges_of [] = []
  exchanges_of ((id, x) ∷ rows) =
      let rest = exchanges_of rows in if picks_exchange id x then x ∷ rest else rest

-- `results[currency_id]` on the left of an assignment, a KeyError when it is not there
unfoldable pub assign :
    ℕ → (TransactionsBasicAnalytics → TransactionsBasicAnalytics) → Exec Results Unit
unfolding exists
assign currency_id f rs =
    if exists currency_id rs then (ok tt, update_rows currency_id f rs) else (err key_error, rs)

module _ {X : Type 0} where
  unfoldable pub for_each : List X → (X → Exec Results Unit) → Exec Results Unit
  for_each [] body = pure tt
  for_each (x ∷ xs) body = body x >> for_each xs body

abbrev pub set_costs : ℤ → TransactionsBasicAnalytics → TransactionsBasicAnalytics
set_costs total a = record a { costs = record a.costs { total = total } }

abbrev pub set_incomes : ℤ → TransactionsBasicAnalytics → TransactionsBasicAnalytics
set_incomes total a = record a { incomes = record a.incomes { total = total } }

abbrev pub add_category : ℕ → String → ℤ → TransactionsBasicAnalytics → TransactionsBasicAnalytics
add_category id name total a = record a {
  costs = record a.costs {
    categories =
        a.costs.categories
        ++ record { id = id; name = name; total = total; of_total = a.costs.total } ∷ [];
  };
}

abbrev pub add_source : IncomeSource → ℤ → TransactionsBasicAnalytics → TransactionsBasicAnalytics
add_source source total a = record a {
  incomes = record a.incomes {
    sources = a.incomes.sources ++ record { source = source; total = total } ∷ [];
  };
}

abbrev pub add_exchanged : ℤ → TransactionsBasicAnalytics → TransactionsBasicAnalytics
add_exchanged v a = record a { from_exchanges = a.from_exchanges +ℤ v }

abbrev pub take_exchanged : ℤ → TransactionsBasicAnalytics → TransactionsBasicAnalytics
take_exchanged v a = record a { from_exchanges = a.from_exchanges -ℤ v }

-- the division of the ratio by the costs of the currency
abbrev pub divides : Option TransactionsBasicAnalytics → Exec Results Unit
divides none = raise key_error
divides (some a) = if eqb_ℤ a.costs.total (pos 0) then raise zero_division else pure tt

abbrev pub write_cost_total : ℕ × ℤ → Exec Results Unit
write_cost_total (c, total) = assign c (set_costs total)

abbrev pub write_income_total : ℕ × ℤ → Exec Results Unit
write_income_total (c, total) = assign c (set_incomes total)

abbrev pub write_category : CategoryKey × ℤ → Exec Results Unit
write_category ((c, id, name), total) =
    (λ rs. divides (find c rs) rs) >> assign c (add_category id name total)

abbrev pub write_source : SourceKey × ℤ → Exec Results Unit
write_source ((c, source), total) = assign c (add_source source total)

abbrev pub write_exchange : Exchange → Exec Results Unit
write_exchange x =
    assign x.from_currency_id (take_exchanged x.from_value)
    >> assign x.to_currency_id (add_exchanged x.to_value)

module _ (matches : String → String → Bool) (pattern : Option String) (range : Range)
    (db : Db) where
  abbrev pub cost_totals : List (ℕ × ℤ)
  cost_totals =
      sort_by by_currency
        (group_totals (λ c d. c == d) (cost_values matches pattern range db.costs.rows))

  abbrev pub income_totals : List (ℕ × ℤ)
  income_totals =
      sort_by by_currency
        (group_totals (λ c d. c == d) (income_values matches pattern range db.incomes.rows))

  abbrev pub category_totals : List (CategoryKey × ℤ)
  category_totals = sort_by by_category (
      group_totals same_category
        (category_values matches pattern range db.categories.rows db.costs.rows))

  abbrev pub source_totals : List (SourceKey × ℤ)
  source_totals =
      sort_by by_source
        (group_totals same_source (source_values matches pattern range db.incomes.rows))

  abbrev pub exchanges : List Exchange
  exchanges = sort_by by_timestamp (exchanges_of matches pattern range db.exchanges.rows)

  -- the loops over the answers of the queries
  unfoldable pub fill : Exec Results Unit
  unfolding for_each assign
  fill =
      for_each cost_totals write_cost_total
      >> (for_each income_totals write_income_total
          >> (for_each category_totals write_category
              >> (for_each source_totals write_source >> for_each exchanges write_exchange)))

  -- `select currencies order by id desc`
  abbrev pub no_results : Results
  no_results = map (λ r. (r.0, no_analytics r.1)) (sort_by (λ r s. ltb s.0 r.0) db.currencies.rows)

abbrev pub answer : Result {0} Unit × Results → Result Results
answer (ok tt, rs) = ok rs
answer (err e, rs) = err e

abbrev pub unless_unfiltered : Option String → Range → Result Results → Result Results
unless_unfiltered none none found = err database
unless_unfiltered (some p) none found = found
unless_unfiltered none (some r) found = found
unless_unfiltered (some p) (some r) found = found

unfoldable pub transactions_basic_analytics :
    (String → String → Bool) → Option String → Option ℕ → Option ℕ → Db → Result Results
unfolding fill
transactions_basic_analytics matches pattern start_date end_date db =
    let p = given_pattern pattern in
    let range = both_dates start_date end_date in
    unless_unfiltered p range (answer (fill matches p range db (no_results matches p range db)))

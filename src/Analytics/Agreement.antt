-- ===== src/Analytics/Agreement.antt =====
-- The answer of `transactions_basic_analytics` against the tables and the equity of the currencies.
use family_assistant_kernel.Prelude.{
  ℕ, ◌≡◌, refl, sym, ◌∙◌, Bool, true, ◌==◌, String, Option, none, some, List, [], ◌∷◌, All, All-map,
  map, ltb, arith,
}
use family_assistant_kernel.Prelude.Int.{ℤ, pos, ◌+ℤ◌, int_laws}
use family_assistant_kernel.Exec.{Result, ok, err}
use family_assistant_kernel.Storage.{exists}
use family_assistant_kernel.Storage.Order.{sort_by}
use family_assistant_kernel.Ledger.Tables.{Currency, Db}
use family_assistant_kernel.Analytics.{Range}
use family_assistant_kernel.Analytics.Grouping.{
  sum_where, assigned, sum_where-sort_by, sum_where-group_totals, group_totals-IsDistinct,
  sort_by-IsDistinct, assigned-sum_where,
}
use family_assistant_kernel.Analytics.Totals.{
  TransactionsBasicAnalytics, Results, no_analytics, given_pattern, both_dates, CategoryKey,
  SourceKey, same_category, same_source, by_currency, by_category, by_source, fill, no_results,
  answer, unless_unfiltered, transactions_basic_analytics,
}
use family_assistant_kernel.Analytics.Loops.{Returned}
use family_assistant_kernel.Analytics.Sums.{
  sum_categories, sum_sources, exchanged, Rest, of_category, of_source,
}
use family_assistant_kernel.Analytics.Balance.{Pending, start, done, fill-Returned}
use family_assistant_kernel.Analytics.Plain.{
  spent, earned, swapped, sum_where-cost_values, sum_where-income_values, sum_where-source_values,
  sum_where-category_values, exchanged-exchanges_of, exchanged-sort_by,
}

abbrev pub Answered : (ℕ → TransactionsBasicAnalytics → Type 0) → Result Results → Type 0
Answered P (ok rs) = All (λ r. P r.0 r.1) rs
Answered P (err e) = Unit

-- The totals of a currency are the sums over the rows that the filters pick.
pub record Agrees (matches : String → String → Bool) (pattern : Option String) (range : Range)
    (db : Db) (j : ℕ) (a : TransactionsBasicAnalytics) : Type 0 where
  pub costs : a.costs.total ≡ spent matches pattern range j db.costs.rows
  pub incomes : a.incomes.total ≡ earned matches pattern range j db.incomes.rows
  pub sources : sum_sources a.incomes.sources ≡ earned matches pattern range j db.incomes.rows
  pub exchanges : a.from_exchanges ≡ swapped matches pattern range j db.exchanges.rows

plus_zero : (v : ℤ) → v ≡ v +ℤ pos 0
plus_zero v = omega int_laws

zero_plus : (v : ℤ) → pos 0 +ℤ v ≡ v
zero_plus v = omega int_laws

same_category-of_category :
    (j : ℕ) (k l : CategoryKey) → same_category k l ≡ true → of_category j k ≡ of_category j l
same_category-of_category j k l h = ground (arith, h)

same_source-of_source :
    (j : ℕ) (k l : SourceKey) → same_source k l ≡ true → of_source j k ≡ of_source j l
same_source-of_source j k l h = ground (arith, h)

same_currency : (j k l : ℕ) → (k == l) ≡ true → (k == j) ≡ (l == j)
same_currency j k l h = ground (arith, h)

module _ (matches : String → String → Bool) (pattern : Option String) (range : Range)
    (db : Db) where
  abbrev all_of : Rest
  all_of = start matches pattern range db

  -- what the totals come to when the loops start from nothing
  abbrev Complete : Rest → ℕ → TransactionsBasicAnalytics → Type 0
  Complete =
      Pending (λ j. assigned j all_of.cost (pos 0))
        (λ j. pos 0 +ℤ sum_where (of_category j) all_of.category)
        (λ j. assigned j all_of.income (pos 0))
        (λ j. pos 0 +ℤ sum_where (of_source j) all_of.source)
        (λ j. pos 0 +ℤ exchanged j all_of.exchange)

  no_results-Complete :
      (rows : List (ℕ × Currency))
      → All
          (λ (r : ℕ × TransactionsBasicAnalytics). Complete all_of r.0 r.1)
          (map (λ r. (r.0, no_analytics r.1)) rows)
  unfolding sum_categories sum_sources
  no_results-Complete [] = tt
  no_results-Complete (r ∷ rows) = (
    record { cost = refl; income = refl; category = refl; source = refl; exchange = refl },
    no_results-Complete rows,
  )

  Complete-Agrees :
      (j : ℕ) (a : TransactionsBasicAnalytics)
      → Complete done j a
      → Agrees matches pattern range db j a
  unfolding assigned sum_where exchanged
  Complete-Agrees j a h = record {
    costs =
        h.cost
        ∙ assigned-sum_where j all_of.cost
            (sort_by-IsDistinct by_currency _ (group_totals-IsDistinct _))
        ∙ sum_where-sort_by _ by_currency _
        ∙ sum_where-group_totals _ _ (same_currency j) _
        ∙ sum_where-cost_values matches pattern range j db.costs.rows;
    incomes =
        h.income
        ∙ assigned-sum_where j all_of.income
            (sort_by-IsDistinct by_currency _ (group_totals-IsDistinct _))
        ∙ sum_where-sort_by _ by_currency _
        ∙ sum_where-group_totals _ _ (same_currency j) _
        ∙ sum_where-income_values matches pattern range j db.incomes.rows;
    sources =
        plus_zero _
        ∙ h.source
        ∙ zero_plus _
        ∙ sum_where-sort_by _ by_source _
        ∙ sum_where-group_totals _ _ (same_source-of_source j) _
        ∙ sum_where-source_values matches pattern range j db.incomes.rows;
    exchanges =
        plus_zero _
        ∙ h.exchange
        ∙ zero_plus _
        ∙ exchanged-sort_by j _
        ∙ exchanged-exchanges_of matches pattern range j db.exchanges.rows;
  }

  Complete-categories :
      (j : ℕ) (a : TransactionsBasicAnalytics)
      → All (λ r. exists r.1.category_id db.categories.rows ≡ true) db.costs.rows
      → Complete done j a
      → sum_categories a.costs.categories ≡ a.costs.total
  unfolding sum_where
  Complete-categories j a known h =
      plus_zero _
      ∙ h.category
      ∙ zero_plus _
      ∙ sum_where-sort_by _ by_category _
      ∙ sum_where-group_totals _ _ (same_category-of_category j) _
      ∙ sum_where-category_values matches pattern range j db.categories.rows db.costs.rows known
      ∙ sym (Agrees.costs (Complete-Agrees j a h))

  answer-Answered :
      (P : ℕ → TransactionsBasicAnalytics → Type 0) (p : Result {0} Unit × Results)
      → ((j : ℕ) (a : TransactionsBasicAnalytics) → Complete done j a → P j a)
      → Returned (Complete done) p
      → Answered P (answer p)
  answer-Answered P (ok tt, rs) f h = All-map rs (λ r. f r.0 r.1) h
  answer-Answered P (err e, rs) f h = tt

  fill-Answered :
      (P : ℕ → TransactionsBasicAnalytics → Type 0)
      → ((j : ℕ) (a : TransactionsBasicAnalytics) → Complete done j a → P j a)
      → Answered P (answer (fill matches pattern range db (no_results matches pattern range db)))
  fill-Answered P f = answer-Answered P _ f (
      fill-Returned _ _ _ _ _ matches pattern range db (no_results matches pattern range db)
        (no_results-Complete (sort_by (λ r s. ltb s.0 r.0) db.currencies.rows)))

unless_unfiltered-Answered :
    (P : ℕ → TransactionsBasicAnalytics → Type 0) (p : Option String) (range : Range)
    (found : Result Results)
    → Answered P found
    → Answered P (unless_unfiltered p range found)
unless_unfiltered-Answered P none none found h = tt
unless_unfiltered-Answered P none (some r) found h = h
unless_unfiltered-Answered P (some t) none found h = h
unless_unfiltered-Answered P (some t) (some r) found h = h

module _ (matches : String → String → Bool) (pattern : Option String)
    (start_date end_date : Option ℕ) (db : Db) where
  -- Whenever the analytics answer, the totals of every currency are the plain sums of its costs and
  -- incomes that the filters pick, its sources add up to its incomes, and its balance of exchanges is
  -- what it got less what it gave.
  pub basic_analytics-Agrees :
      Answered
        (Agrees matches (given_pattern pattern) (both_dates start_date end_date) db)
        (transactions_basic_analytics matches pattern start_date end_date db)
  unfolding transactions_basic_analytics
  basic_analytics-Agrees =
      let p = given_pattern pattern in
      let range = both_dates start_date end_date in
      unless_unfiltered-Answered (Agrees matches p range db) p range _
        (fill-Answered matches p range db _ (Complete-Agrees matches p range db))

  -- When every cost has its category, the categories of each currency add up to its costs.
  pub basic_analytics-categories :
      All (λ r. exists r.1.category_id db.categories.rows ≡ true) db.costs.rows
      → Answered
          (λ j a. sum_categories a.costs.categories ≡ a.costs.total)
          (transactions_basic_analytics matches pattern start_date end_date db)
  unfolding transactions_basic_analytics
  basic_analytics-categories known =
      let p = given_pattern pattern in
      let range = both_dates start_date end_date in
      unless_unfiltered-Answered _ p range _ (
        fill-Answered matches p range db _
          (λ j a. Complete-categories matches p range db j a known))

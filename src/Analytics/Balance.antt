-- ===== src/Analytics/Balance.antt =====
-- `transactions_basic_analytics` against plain sums over the tables.
use family_assistant_kernel.Prelude.{
  ℕ, Bool, ◌==◌, String, Option, none, some, List, [], ◌∷◌, All, Bool-cases, inl, inr,
}
use family_assistant_kernel.Prelude.Int.{ℤ, pos, ◌-ℤ◌, eqb_ℤ}
use family_assistant_kernel.Storage.{find}
use family_assistant_kernel.Ledger.Tables.{Exchange, Db}
use family_assistant_kernel.Ledger.Opening.{received_in}
use family_assistant_kernel.Analytics.{Range}
use family_assistant_kernel.Analytics.Grouping.{sum_where, assigned}
use family_assistant_kernel.Analytics.Totals.{
  TransactionsBasicAnalytics, Results, CategoryKey, SourceKey, assign, for_each, set_costs,
  set_incomes, add_category, add_source, add_exchanged, take_exchanged, divides, write_cost_total,
  write_income_total, write_category, write_source, write_exchange, cost_totals, income_totals,
  category_totals, source_totals, exchanges, fill,
}
use family_assistant_kernel.Analytics.Loops.{
  Returned, bind-Returned, assign-Returned, for_each-Returned,
}
use family_assistant_kernel.Analytics.Sums.{
  exchanged, Rest, Sums, cost_if, income_if, category_if, source_if, take_if, add_if,
}

-- what the loops have before them, at the start and at the end
module _ (matches : String → String → Bool) (pattern : Option String) (range : Range)
    (db : Db) where
  abbrev pub start : Rest
  start = record {
    cost = cost_totals matches pattern range db;
    income = income_totals matches pattern range db;
    category = category_totals matches pattern range db;
    source = source_totals matches pattern range db;
    exchange = exchanges matches pattern range db;
  }

abbrev pub done : Rest
done = record { cost = []; income = []; category = []; source = []; exchange = [] }

module _ (c k i s x : ℕ → ℤ) where
  abbrev pub Pending : Rest → ℕ → TransactionsBasicAnalytics → Type 0
  Pending rest j a = Sums (c j) (k j) (i j) (s j) (x j) rest j a

  abbrev pub AllPending : Rest → Results → Type 0
  AllPending rest rs = All (λ r. Pending rest r.0 r.1) rs

  cost_loop :
      (rest : Rest) (groups : List (ℕ × ℤ)) (rs : Results)
      → AllPending (record rest { cost = groups }) rs
      → Returned (Pending (record rest { cost = [] })) (for_each groups write_cost_total rs)
  unfolding assigned
  cost_loop rest =
      for_each-Returned write_cost_total (λ gs. Pending (record rest { cost = gs }))
        (λ g gs rs. assign-Returned _ _ g.0 (set_costs g.1) rs (λ j a h.
          cost_if (c j) (k j) (i j) (s j) (x j) (record rest { cost = gs }) j a (g.0 == j) g.0 g.1 h
            h.cost))

  income_loop :
      (rest : Rest) (groups : List (ℕ × ℤ)) (rs : Results)
      → AllPending (record rest { income = groups }) rs
      → Returned (Pending (record rest { income = [] })) (for_each groups write_income_total rs)
  unfolding assigned
  income_loop rest =
      for_each-Returned write_income_total (λ gs. Pending (record rest { income = gs }))
        (λ g gs rs. assign-Returned _ _ g.0 (set_incomes g.1) rs (λ j a h.
          income_if (c j) (k j) (i j) (s j) (x j) (record rest { income = gs }) j a (g.0 == j) g.0
            g.1 h h.income))

  source_loop :
      (rest : Rest) (groups : List (SourceKey × ℤ)) (rs : Results)
      → AllPending (record rest { source = groups }) rs
      → Returned (Pending (record rest { source = [] })) (for_each groups write_source rs)
  unfolding sum_where
  source_loop rest =
      for_each-Returned write_source (λ gs. Pending (record rest { source = gs }))
        (λ g gs rs. assign-Returned _ _ g.0.0 (add_source g.0.1 g.1) rs (λ j a h.
          source_if (c j) (k j) (i j) (s j) (x j) (record rest { source = gs }) j a (g.0.0 == j) g.0
            g.0.1 g.1 h h.source))

  divides-Returned :
      (R : ℕ → TransactionsBasicAnalytics → Type 0) (o : Option TransactionsBasicAnalytics)
      (rs : Results)
      → All (λ r. R r.0 r.1) rs
      → Returned R (divides o rs)
  divides-Returned R none rs h = tt
  divides-Returned R (some a) rs h = elim (Bool-cases (eqb_ℤ a.costs.total (pos 0))) [
    | inl e ↦ rw e tt
    | inr e ↦ rw e h
  ]

  category_loop :
      (rest : Rest) (groups : List (CategoryKey × ℤ)) (rs : Results)
      → AllPending (record rest { category = groups }) rs
      → Returned (Pending (record rest { category = [] })) (for_each groups write_category rs)
  unfolding sum_where
  category_loop rest =
      for_each-Returned write_category (λ gs. Pending (record rest { category = gs }))
        (λ g gs rs h.
          bind-Returned _ _ (divides (find g.0.0 rs) rs) _
            (divides-Returned (Pending (record rest { category = g ∷ gs })) (find g.0.0 rs) rs h)
            (λ rs'. assign-Returned _ _ g.0.0 (add_category g.0.1 g.0.2 g.1) rs' (λ j a h'.
              category_if (c j) (k j) (i j) (s j) (x j) (record rest { category = gs }) j a
                (g.0.0 == j) g.0 g.0.1 g.0.2 g.1 h' h'.category)))

  exchange_loop :
      (rest : Rest) (ys : List Exchange) (rs : Results)
      → AllPending (record rest { exchange = ys }) rs
      → Returned (Pending (record rest { exchange = [] })) (for_each ys write_exchange rs)
  unfolding exchanged
  exchange_loop rest =
      for_each-Returned write_exchange (λ ys. Pending (record rest { exchange = ys }))
        (λ y ys rs h.
          bind-Returned
            (λ j.
              Sums (c j) (k j) (i j) (s j) (x j -ℤ received_in j y) (record rest { exchange = ys })
                j)
            _ (assign y.from_currency_id (take_exchanged y.from_value) rs) _
            (assign-Returned _ _ y.from_currency_id (take_exchanged y.from_value) rs
              (λ j a h'.
                take_if (c j) (k j) (i j) (s j) (x j) (record rest { exchange = ys }) j a
                  (y.from_currency_id == j) y (received_in j y) h' h'.exchange)
              h)
            (λ rs'. assign-Returned _ _ y.to_currency_id (add_exchanged y.to_value) rs' (λ j a h'.
              add_if (c j) (k j) (i j) (s j) (x j) (record rest { exchange = ys }) j a
                (y.to_currency_id == j) y.to_value h')))

  module _ (matches : String → String → Bool) (pattern : Option String) (range : Range)
      (db : Db) where
    pub fill-Returned :
        (rs : Results)
        → AllPending (start matches pattern range db) rs
        → Returned (Pending done) (fill matches pattern range db rs)
    unfolding fill
    fill-Returned rs h =
        let all = start matches pattern range db in
        bind-Returned _ _ (for_each all.cost write_cost_total rs) _ (cost_loop all all.cost rs h)
          (λ rs1 h1.
            bind-Returned _ _ (for_each all.income write_income_total rs1) _
              (income_loop (record all { cost = [] }) all.income rs1 h1)
              (λ rs2 h2.
                bind-Returned _ _ (for_each all.category write_category rs2) _
                  (category_loop (record all { cost = []; income = [] }) all.category rs2 h2)
                  (λ rs3 h3.
                    bind-Returned _ _ (for_each all.source write_source rs3) _
                      (source_loop (record all { cost = []; income = []; category = [] }) all.source
                        rs3 h3)
                      (exchange_loop (record done { exchange = all.exchange }) all.exchange))))

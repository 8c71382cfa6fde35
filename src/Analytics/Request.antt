-- ===== src/Analytics/Request.antt =====
-- `transactions_basic_analytics` of src/application/analytics.py: the dates of a request and the answer
-- of the query service with the ratio in dollars. The ratio, a float that `compute_total_ratio_usd`
-- answers, is a parameter, none when it raises.
use family_assistant_kernel.Prelude.{
  ℕ, ◌≡◌, refl, Bool, String, Option, none, some, List, true, false,
}
use family_assistant_kernel.Exec.{Result, ok, err, value_error}
use family_assistant_kernel.Ledger.Tables.{Currency, Db}
use family_assistant_kernel.Analytics.{Period, current_month, previous_month, Months}
use family_assistant_kernel.Analytics.Totals.{Results, given_pattern, transactions_basic_analytics}
use family_assistant_kernel.Analytics.Success.{
  IsReferred, HasEntries, IsAnswer, Outcome, basic_analytics-Outcome,
}

abbrev pub of_period : Months → Option Period → Result {0} (ℕ × ℕ)
of_period m none = err value_error
of_period m (some current_month) = ok (m.first_of_current, m.today)
of_period m (some previous_month) = ok (m.first_of_previous, m.last_of_previous)

abbrev pub unless_period : Option Period → ℕ × ℕ → Result {0} (ℕ × ℕ)
unless_period none dates = ok dates
unless_period (some p) dates = err value_error

-- `_start_date` and `_end_date`: both dates, else the current month for a pattern, else the period
unfoldable pub request_dates :
    Months → Option Period → Option ℕ → Option ℕ → Option String → Result {0} (ℕ × ℕ)
request_dates m period (some s) (some e) pattern = unless_period period (s, e)
request_dates m period (some s) none pattern = err value_error
request_dates m period none (some e) pattern = err value_error
request_dates m period none none (some p) = ok (m.first_of_current, m.today)
request_dates m period none none none = of_period m period

-- BasicAnalyticsResult; the ratio is 0.0 when it could not be computed
pub record BasicAnalyticsResult (Ratio : Type 0) : Type 0 where
  pub per_currency : Results
  pub total_ratio : Ratio

module _ {Ratio : Type 0} (zero_ratio : Ratio)
    (compute_total_ratio_usd : ℕ → ℕ → Option String → Option Ratio)
    (matches : String → String → Bool) (m : Months) where
  abbrev pub or_zero : Option Ratio → Ratio
  or_zero none = zero_ratio
  or_zero (some ratio) = ratio

  abbrev pub with_ratio : Ratio → Result Results → Result (BasicAnalyticsResult Ratio)
  with_ratio ratio (err e) = err e
  with_ratio ratio (ok instances) = ok (record { per_currency = instances; total_ratio = ratio })

  abbrev pub on_dates :
      Option String → Db → Result {0} (ℕ × ℕ) → Result (BasicAnalyticsResult Ratio)
  on_dates pattern db (err e) = err e
  on_dates pattern db (ok (s, e)) =
      with_ratio (or_zero (compute_total_ratio_usd s e pattern))
        (transactions_basic_analytics matches pattern (some s) (some e) db)

  unfoldable pub request_basic_analytics :
      Option Period → Option ℕ → Option ℕ → Option String → Db → Result (BasicAnalyticsResult Ratio)
  unfolding request_dates transactions_basic_analytics
  request_basic_analytics period start_date end_date pattern db =
      on_dates pattern db (request_dates m period start_date end_date pattern)

-- Which requests are accepted: both dates without a period, or no date with a pattern or a period.
abbrev pub accepted : Option Period → Option ℕ → Option ℕ → Option String → Bool
accepted none (some s) (some e) pattern = true
accepted (some p) (some s) (some e) pattern = false
accepted period (some s) none pattern = false
accepted period none (some e) pattern = false
accepted period none none (some p) = true
accepted (some p) none none none = true
accepted none none none none = false

-- a refused request is a ValueError, an accepted one has an entry for each of the currencies
abbrev pub Responds :
    {Ratio : Type 0} → List (ℕ × Currency) → Bool → Result (BasicAnalyticsResult Ratio) → Type 0
Responds currencies false (err e) = e ≡ value_error
Responds currencies false (ok r) = ⊥
Responds currencies true (ok r) = HasEntries currencies r.per_currency
Responds currencies true (err e) = ⊥

-- dates or the refusal of a request
abbrev IsRefusal : Bool → Result {0} (ℕ × ℕ) → Type 0
IsRefusal false (err e) = e ≡ value_error
IsRefusal false (ok dates) = ⊥
IsRefusal true (ok dates) = Unit
IsRefusal true (err e) = ⊥

request_dates-IsRefusal :
    (m : Months) (period : Option Period) (s e : Option ℕ) (pattern : Option String)
    → IsRefusal (accepted period s e pattern) (request_dates m period s e pattern)
unfolding request_dates
request_dates-IsRefusal m none (some s) (some e) pattern = tt
request_dates-IsRefusal m (some p) (some s) (some e) pattern = refl
request_dates-IsRefusal m none (some s) none pattern = refl
request_dates-IsRefusal m (some p) (some s) none pattern = refl
request_dates-IsRefusal m none none (some e) pattern = refl
request_dates-IsRefusal m (some p) none (some e) pattern = refl
request_dates-IsRefusal m none none none (some p) = tt
request_dates-IsRefusal m (some q) none none (some p) = tt
request_dates-IsRefusal m none none none none = refl
request_dates-IsRefusal m (some current_month) none none none = tt
request_dates-IsRefusal m (some previous_month) none none none = tt

IsAnswer-of_dates :
    (p : Option String) (s e : ℕ) (n : List (ℕ × Currency)) (r : Result Results)
    → Outcome p (some (s, e)) n r
    → IsAnswer n r
IsAnswer-of_dates none s e n r h = h
IsAnswer-of_dates (some p) s e n r h = h

module _ {Ratio : Type 0} (zero_ratio : Ratio)
    (compute_total_ratio_usd : ℕ → ℕ → Option String → Option Ratio)
    (matches : String → String → Bool) (m : Months) where
  with_ratio-Responds :
      (ratio : Ratio) (n : List (ℕ × Currency)) (r : Result Results)
      → IsAnswer n r
      → Responds n true (with_ratio zero_ratio compute_total_ratio_usd matches m ratio r)
  with_ratio-Responds ratio n (ok rs) h = h
  with_ratio-Responds ratio n (err e) h = elim h [ ]

  on_dates-Responds :
      (pattern : Option String) (db : Db) (b : Bool) (d : Result {0} (ℕ × ℕ))
      → IsReferred db
      → IsRefusal b d
      → Responds db.currencies.rows b
          (on_dates zero_ratio compute_total_ratio_usd matches m pattern db d)
  on_dates-Responds pattern db false (err e) referred h = h
  on_dates-Responds pattern db true (err e) referred h = elim h [ ]
  on_dates-Responds pattern db false (ok dates) referred h = elim h [ ]
  on_dates-Responds pattern db true (ok (s, e)) referred h =
      with_ratio-Responds _ db.currencies.rows
        (transactions_basic_analytics matches pattern (some s) (some e) db)
        (IsAnswer-of_dates (given_pattern pattern) s e _ _
          (basic_analytics-Outcome matches pattern (some s) (some e) db referred))

  -- On a database whose references are sound and whose costs are positive, a request with both dates
  -- and no period, or with no date and a pattern or a period, is answered with an entry for every
  -- currency and no others, also when the ratio cannot be computed, and every other request is refused
  -- with a ValueError: the database error of the query service does not occur.
  pub request_basic_analytics-Responds :
      (period : Option Period) (start_date end_date : Option ℕ) (pattern : Option String) (db : Db)
      → IsReferred db
      → Responds db.currencies.rows (accepted period start_date end_date pattern) (
          request_basic_analytics zero_ratio compute_total_ratio_usd matches m period start_date
            end_date pattern db)
  unfolding request_basic_analytics
  request_basic_analytics-Responds period start_date end_date pattern db referred =
      on_dates-Responds pattern db _ (request_dates m period start_date end_date pattern) referred
        (request_dates-IsRefusal m period start_date end_date pattern)

-- ===== src/Rates.antt =====
-- Exchange rates: src/infrastructure/repositories/exchange_rates.py and `ensure_exchange_rates` of
-- src/application/analytics.py. Dates are day numbers and a rate is a value of a type that is left open:
-- the code only copies it. The answer of the NBU client for a date is a parameter.
pub mod Closest
pub mod Coverage
mod Tests
use family_assistant_kernel.Prelude.{
  ℕ, zero, suc, ◌+◌, ◌-◌, Bool, true, false, not, ◌&&◌, ltb, leb, ◌==◌, str_eq, String, Option,
  none, some, List, [], ◌∷◌, ◌++◌, if◌then◌else◌, select, any, map,
}
use family_assistant_kernel.Exec.{Exec, Result, ok, err, unprocessable, pure, gets, ◌>>=◌, ◌>>◌}

-- every row is of UAH, so `cc_from` is left out
pub record ExchangeRate (R : Type 0) : Type 0 where
  pub cc_to : String
  pub rate : R
  pub date : ℕ
  pub source : String

-- `abs((a - b).days)`
abbrev pub days_between : ℕ → ℕ → ℕ
days_between a b = (a - b) + (b - a)

module _ {R : Type 0} where
  -- `order by date desc limit 1` and `order by date limit 1`
  abbrev pub later : ExchangeRate R → Option (ExchangeRate R) → ExchangeRate R
  later r none = r
  later r (some s) = if ltb r.date s.date then s else r

  unfoldable pub last_rate : List (ExchangeRate R) → Option (ExchangeRate R)
  last_rate [] = none
  last_rate (r ∷ rs) = some (later r (last_rate rs))

  abbrev pub sooner : ExchangeRate R → Option (ExchangeRate R) → ExchangeRate R
  sooner r none = r
  sooner r (some s) = if ltb s.date r.date then s else r

  unfoldable pub first_rate : List (ExchangeRate R) → Option (ExchangeRate R)
  first_rate [] = none
  first_rate (r ∷ rs) = some (sooner r (first_rate rs))

  abbrev pub nearer :
      ℕ → Option (ExchangeRate R) → Option (ExchangeRate R) → Option (ExchangeRate R)
  nearer target none none = none
  nearer target none (some after_rate) = some after_rate
  nearer target (some before_rate) none = some before_rate
  nearer target (some before_rate) (some after_rate) =
      if leb (days_between target before_rate.date) (days_between after_rate.date target)
      then some before_rate
      else some after_rate

  unfoldable pub get_closest_rate : String → ℕ → List (ExchangeRate R) → Option (ExchangeRate R)
  unfolding last_rate first_rate
  get_closest_rate code target_date rates =
      nearer target_date
        (last_rate (select (λ r. str_eq r.cc_to code && leb r.date target_date) rates))
        (first_rate (select (λ r. str_eq r.cc_to code && leb target_date r.date) rates))

  -- whether the table has a rate of the currency for the date
  abbrev pub has_rate : String → ℕ → List (ExchangeRate R) → Bool
  has_rate code d rates = any (λ r. str_eq r.cc_to code && (r.date == d)) rates

-- the dates of the loop from `start_date` to `end_date`, both included
unfoldable pub dates_from : ℕ → ℕ → List ℕ
dates_from start zero = []
dates_from start (suc n) = start ∷ dates_from (start + 1) n

unfoldable pub date_range : ℕ → ℕ → List ℕ
unfolding dates_from
date_range start_date end_date = dates_from start_date (end_date + 1 - start_date)

-- `still_missing`
abbrev pub without : List ℕ → List ℕ → List ℕ
without missing fetched_dates = select (λ d. not (any (λ k. k == d) fetched_dates)) missing

-- what the NBU client yields for a date, when it yields a rate
pub record NbuRate (R : Type 0) : Type 0 where
  pub cc : String
  pub rate : R
  pub exchangedate : ℕ

module _ {R : Type 0} where
  -- The unique constraint, which `flush` answers with 422.
  unfoldable pub add_rate : ExchangeRate R → Exec (List (ExchangeRate R)) Unit
  add_rate r rates =
      if has_rate r.cc_to r.date rates then (err unprocessable, rates) else (ok tt, r ∷ rates)

  abbrev pub nbu_rate : NbuRate R → ExchangeRate R
  nbu_rate a = record { cc_to = a.cc; rate = a.rate; date = a.exchangedate; source = "nbu" }

  -- the loop over the client's answers, with `fetched_dates`
  unfoldable pub save_fetched : List (Option (NbuRate R)) → Exec (List (ExchangeRate R)) (List ℕ)
  unfolding add_rate
  save_fetched [] = pure []
  save_fetched (none ∷ answers) = save_fetched answers
  save_fetched (some a ∷ answers) = do
    add_rate (nbu_rate a)
    dates ← save_fetched answers
    pure (a.exchangedate ∷ dates)

  unfoldable pub missing_dates : String → List ℕ → List (ExchangeRate R) → List ℕ
  missing_dates code all_dates rates = select (λ d. not (has_rate code d rates)) all_dates

  abbrev pub fallback_rate : String → R → ℕ → ExchangeRate R
  fallback_rate code x d = record { cc_to = code; rate = x; date = d; source = "fallback" }

  unfoldable pub fill_dates : String → R → List ℕ → Exec (List (ExchangeRate R)) Unit
  unfolding add_rate
  fill_dates code x [] = pure tt
  fill_dates code x (d ∷ ds) = do add_rate (fallback_rate code x d); fill_dates code x ds

  abbrev pub fill : String → List ℕ → Option (ExchangeRate R) → Exec (List (ExchangeRate R)) Unit
  unfolding fill_dates
  fill code still_missing none = pure tt
  fill code still_missing (some closest) = fill_dates code closest.rate still_missing

  -- One round of the loop over the currencies. The client yields its answers in any order; here they come
  -- in the order of the dates.
  unfoldable pub ensure_currency :
      (String → ℕ → Option (NbuRate R)) → ℕ → ℕ → String → Exec (List (ExchangeRate R)) Unit
  unfolding save_fetched missing_dates get_closest_rate fill date_range
  ensure_currency fetch start_date end_date code rates =
      let missing = missing_dates code (date_range start_date end_date) rates in
      (save_fetched (map (fetch code) missing) >>= λ fetched_dates.
      gets (get_closest_rate code start_date) >>= fill code (without missing fetched_dates))
        rates

  unfoldable pub ensure_exchange_rates :
      (String → ℕ → Option (NbuRate R)) → ℕ → ℕ → List String → Exec (List (ExchangeRate R)) Unit
  unfolding ensure_currency
  ensure_exchange_rates fetch start_date end_date [] = pure tt
  ensure_exchange_rates fetch start_date end_date (code ∷ codes) =
      (if str_eq code "UAH" then pure tt else ensure_currency fetch start_date end_date code)
      >> ensure_exchange_rates fetch start_date end_date codes

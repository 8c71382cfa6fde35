-- ===== src/Analytics/Family.antt =====
-- The basic analytics of a family with two currencies, before and after a cost is deleted.
use mathlib.Core.Option
use family_assistant_kernel.Prelude.{
  ℕ, ◌≡◌, refl, true, some, none, String, Bool, List, [], ◌∷◌, arith,
}
use family_assistant_kernel.Prelude.Int.{pos, ◌+ℤ◌}
use family_assistant_kernel.Storage.{find, exists}
use family_assistant_kernel.Ledger.Tables.{Cost, Income, gift, Exchange, Db, HasKeys}
use family_assistant_kernel.Exec.{transaction}
use family_assistant_kernel.Storage.{delete_rows}
use family_assistant_kernel.Ledger.Tables.{fits_int4, fits_name}
use family_assistant_kernel.Ledger.Currencies.{increase_equity, write_equity}
use family_assistant_kernel.Ledger.Costs.{
  cost, delete_cost, delete_cost_transaction, delete_cost_row,
}
use family_assistant_kernel.Ledger.Opening.{opening}
use family_assistant_kernel.Ledger.Commands.{Command, cost_delete, run}
use family_assistant_kernel.Analytics.Totals.{
  given_pattern, both_dates, transactions_basic_analytics,
}
use family_assistant_kernel.Analytics.{Months, previous_month}
use family_assistant_kernel.Exec.{ok}
use family_assistant_kernel.Analytics.Request.{
  request_dates, request_basic_analytics, Responds, request_basic_analytics-Responds,
}
use family_assistant_kernel.Analytics.Sums.{sum_categories}
use family_assistant_kernel.Analytics.Agreement.{
  Answered, Agrees, basic_analytics-Agrees, basic_analytics-categories,
}
use family_assistant_kernel.Analytics.Equity.{
  IsWithin, before_transactions, basic_analytics-opening,
}
use family_assistant_kernel.Analytics.Success.{IsReferred, Outcome, basic_analytics-Outcome}

abbrev bread : Cost
bread = record {
  name = "bread";
  value = pos 300;
  timestamp = 20;
  user_id = 1;
  category_id = 1;
  currency_id = 1;
}

abbrev swap : Exchange
swap = record {
  from_value = pos 100;
  to_value = pos 4200;
  timestamp = 21;
  user_id = 1;
  from_currency_id = 1;
  to_currency_id = 2;
}

abbrev salary : Income
salary = record {
  name = "salary";
  value = pos 900;
  timestamp = 5;
  source = gift;
  user_id = 1;
  currency_id = 1;
}

abbrev family : Db
family = record {
  users = record { rows = (1, "ann") ∷ []; next = 2 };
  categories = record { rows = (1, "food") ∷ (2, "home") ∷ []; next = 3 };
  currencies = record {
    rows =
        (1, record { name = "USD"; sign = "$"; equity = pos 5000 })
        ∷ (2, record { name = "UAH"; sign = "₴"; equity = pos 100 })
        ∷ [];
    next = 3;
  };
  costs = record {
    rows =
        (1, bread)
        ∷ (2, record bread { category_id = 2 })
        ∷ (3, record bread { timestamp = 22 })
        ∷ [];
    next = 4;
  };
  incomes = record { rows = (1, salary) ∷ []; next = 2 };
  exchanges = record { rows = (1, swap) ∷ []; next = 2 };
}

abbrev any_name : String → String → Bool
any_name pattern name = true

basic_analytics-Agrees_example :
    Answered
      (Agrees any_name (given_pattern (some "")) (both_dates (some 1) (some 30)) family)
      (transactions_basic_analytics any_name (some "") (some 1) (some 30) family)
basic_analytics-Agrees_example = basic_analytics-Agrees any_name (some "") (some 1) (some 30) family

basic_analytics-categories_example :
    Answered
      (λ j a. sum_categories a.costs.categories ≡ a.costs.total)
      (transactions_basic_analytics any_name none (some 1) (some 21) family)
unfolding exists find
basic_analytics-categories_example =
    basic_analytics-categories any_name none (some 1) (some 21) family (refl, (refl, (refl, tt)))

family-IsReferred : IsReferred family
unfolding exists find
family-IsReferred = record {
  costs = (refl, (refl, (refl, tt)));
  values = (refl, (refl, (refl, tt)));
  incomes = (refl, tt);
  gives = (refl, tt);
  gets = (refl, tt);
}

basic_analytics-Outcome_example :
    Outcome
      (given_pattern (some "bread"))
      (both_dates none none)
      family.currencies.rows
      (transactions_basic_analytics any_name (some "bread") none none family)
basic_analytics-Outcome_example =
    basic_analytics-Outcome any_name (some "bread") none none family family-IsReferred

family-HasKeys : HasKeys family
unfolding find
family-HasKeys = record {
  currencies = record { unique = (refl, (refl, tt)); below = (omega arith, (omega arith, tt)) };
  costs = record {
    unique = (refl, (refl, (refl, tt)));
    below = (omega arith, (omega arith, (omega arith, tt)));
  };
  incomes = record { unique = (refl, tt); below = (omega arith, tt) };
  exchanges = record { unique = (refl, tt); below = (omega arith, tt) };
}

abbrev session : List Command
session = cost_delete 2 ∷ cost_delete 7 ∷ []

later-IsWithin : IsWithin (some (1, 30)) (run session family)
unfolding run find delete_cost cost delete_cost_transaction transaction delete_cost_row
    increase_equity fits_int4 fits_name write_equity ◌+ℤ◌ delete_rows
later-IsWithin = record { costs = (refl, (refl, tt)); incomes = (refl, tt); exchanges = (refl, tt) }

basic_analytics-opening_example :
    Answered
      (λ j a.
        Option.map (before_transactions a) (find j (run session family).currencies.rows)
        ≡ opening j family)
      (transactions_basic_analytics any_name none (some 1) (some 30) (run session family))
basic_analytics-opening_example =
    basic_analytics-opening any_name 1 30 session family family-HasKeys later-IsWithin

abbrev january : Months
january = record { today = 25; first_of_current = 11; first_of_previous = 1; last_of_previous = 10 }

abbrev no_ratio : ℕ
no_ratio = 0

-- the pattern wins over the period: the dates are those of the current month
bread_last_month :
    request_dates january (some previous_month) none none (some "bread") ≡ ok (11, 25)
unfolding request_dates
bread_last_month = refl

request_basic_analytics-Responds_example : Responds family.currencies.rows true (
    request_basic_analytics no_ratio
      (λ s e pattern. none)
      any_name
      january
      (some previous_month)
      none
      none
      none
      family)
request_basic_analytics-Responds_example =
    request_basic_analytics-Responds no_ratio (λ s e pattern. none) any_name january
      (some previous_month) none none none family family-IsReferred

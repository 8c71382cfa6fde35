-- ===== src/Analytics/Tests.antt =====
-- Two pages and a filtered list.
use family_assistant_kernel.Prelude.{true, none, some, [], ◌∷◌}
use family_assistant_kernel.Prelude.Int.{pos}
use family_assistant_kernel.Ledger.Tables.{Cost, Db}
use family_assistant_kernel.Analytics.{TransactionsFilter, Months, current_month}

abbrev bread : Cost
bread = record {
  name = "bread";
  value = pos 300;
  timestamp = 20;
  user_id = 1;
  category_id = 1;
  currency_id = 1;
}

abbrev home : Db
home = record {
  users = record { rows = (1, "ann") ∷ []; next = 2 };
  categories = record { rows = (1, "food") ∷ []; next = 2 };
  currencies = record {
    rows = (1, record { name = "USD"; sign = "$"; equity = pos 5000 }) ∷ [];
    next = 2;
  };
  costs = record { rows = (1, bread) ∷ (2, record bread { timestamp = 90 }) ∷ []; next = 3 };
  incomes = record { rows = []; next = 1 };
  exchanges = record { rows = []; next = 1 };
}

abbrev this_month : TransactionsFilter
this_month = record {
  only_mine = true;
  operation = none;
  currency_id = some 1;
  cost_category_id = none;
  start_date = none;
  end_date = none;
  period = some current_month;
  pattern = none;
  min_cents = some (pos 100);
}

abbrev january : Months
january = record { today = 25; first_of_current = 11; first_of_previous = 1; last_of_previous = 10 }

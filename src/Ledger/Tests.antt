-- ===== src/Ledger/Tests.antt =====
-- The ledger on a small database: two currencies, a user, a category and one cost.
use family_assistant_kernel.Prelude.{inl, ◌≡◌, refl, false, some, List, [], ◌∷◌, arith, true}
use family_assistant_kernel.Prelude.Int.{pos, ◌+ℤ◌, ◌-ℤ◌}
use family_assistant_kernel.Exec.Atomic.{Atomic}
use family_assistant_kernel.Storage.{exists, find, sum_by}
use family_assistant_kernel.Ledger.Tables.{Currency, Cost, Income, gift, Exchange, Db, HasKeys}
use family_assistant_kernel.Ledger.Columns.{absent, given}
use family_assistant_kernel.Ledger.Costs.{CostValues, update_cost, delete_cost_transaction}
use family_assistant_kernel.Ledger.Opening.{opening, outgoing, spent_in, Moved}
use family_assistant_kernel.Ledger.Commands.{
  Command, cost_add, cost_update, cost_delete, income_add, exchange_add, exchange_delete, run,
}
use family_assistant_kernel.Ledger.Conservation.{run-opening}
use family_assistant_kernel.Ledger.Atomicity.{update_cost-Atomic}
use family_assistant_kernel.Ledger.Currencies.{delete_currency}
use family_assistant_kernel.Ledger.References.{delete_currency-exists}
use family_assistant_kernel.Ledger.Races.{delete_cost_transaction-twice}

abbrev dollar : Currency
dollar = record { name = "USD"; sign = "$"; equity = pos 5000 }

abbrev hryvnia : Currency
hryvnia = record { name = "UAH"; sign = "₴"; equity = pos 100 }

abbrev bread : Cost
bread = record {
  name = "bread";
  value = pos 300;
  timestamp = 20;
  user_id = 1;
  category_id = 1;
  currency_id = 1;
}

abbrev present : Income
present = record {
  name = "present";
  value = pos 900;
  timestamp = 21;
  source = gift;
  user_id = 1;
  currency_id = 2;
}

abbrev swap : Exchange
swap = record {
  from_value = pos 200;
  to_value = pos 8000;
  timestamp = 22;
  user_id = 1;
  from_currency_id = 1;
  to_currency_id = 2;
}

abbrev home : Db
home = record {
  users = record { rows = (1, "ann") ∷ []; next = 2 };
  categories = record { rows = (1, "food") ∷ []; next = 2 };
  currencies = record { rows = (1, dollar) ∷ (2, hryvnia) ∷ []; next = 3 };
  costs = record { rows = (1, bread) ∷ []; next = 2 };
  incomes = record { rows = []; next = 1 };
  exchanges = record { rows = []; next = 1 };
}

abbrev dearer : CostValues
dearer = record {
  name = absent;
  value = given (pos 450);
  timestamp = absent;
  currency_id = given 2;
  category_id = absent;
  unknown = false;
}

abbrev no_values : CostValues
no_values = record {
  name = absent;
  value = absent;
  timestamp = absent;
  currency_id = absent;
  category_id = absent;
  unknown = false;
}

abbrev session : List Command
session =
    cost_add bread
    ∷ cost_update 1 dearer
    ∷ income_add present
    ∷ exchange_add swap
    ∷ cost_delete 7
    ∷ cost_delete 2
    ∷ exchange_delete 1
    ∷ []

home-HasKeys : HasKeys home
unfolding find
home-HasKeys = record {
  currencies = record { unique = (refl, (refl, tt)); below = (omega arith, (omega arith, tt)) };
  costs = record { unique = (refl, tt); below = (omega arith, tt) };
  incomes = record { unique = tt; below = tt };
  exchanges = record { unique = tt; below = tt };
}

opening_of_home : opening 1 home ≡ some (pos 5300)
unfolding opening outgoing find sum_by ◌+ℤ◌ ◌-ℤ◌
opening_of_home = refl

run-opening_example : opening 1 (run session home) ≡ opening 1 home
run-opening_example = run-opening 1 session home home-HasKeys

update_cost-Atomic_example : Atomic home (update_cost 1 no_values home)
update_cost-Atomic_example = update_cost-Atomic 1 no_values home

abbrev deleted_before : Db
deleted_before = record home { costs = record { rows = []; next = 2 } }

delete_cost_transaction-twice_example :
    Moved 1 (spent_in 1 bread) deleted_before (delete_cost_transaction 1 bread deleted_before)
unfolding find
delete_cost_transaction-twice_example = delete_cost_transaction-twice 1 1 bread deleted_before refl

delete_currency-exists_example :
    exists 1 (delete_currency (λ k. false) 1 home).1.currencies.rows ≡ true
unfolding exists find
delete_currency-exists_example = delete_currency-exists (λ k. false) 1 1 home (inl (inl refl)) refl

-- ===== src/Ledger/Keys.antt =====
-- The operations of the ledger against the primary keys of its tables.
mod Statements
use family_assistant_kernel.Prelude.{
  ℕ, ◌≡◌, refl, Bool, true, false, not, ◌||◌, Option, none, some, Bool-cases, inl, inr,
  if◌then◌else◌,
}
use family_assistant_kernel.Prelude.Int.{ℤ}
use family_assistant_kernel.Exec.{Result, ok, err, Exec, lift, not_found, or_raise}
use family_assistant_kernel.Exec.Keeps.{Keeps, Keeps-or_raise, keeps_rules}
use family_assistant_kernel.Storage.{find}
use family_assistant_kernel.Storage.Laws.{insert-IsTable, update_rows-IsTable, delete_rows-IsTable}
use family_assistant_kernel.Ledger.Tables.{Currency, Cost, Income, Exchange, Db, HasKeys, fits_int4}
use family_assistant_kernel.Ledger.Columns.{Field, absent, null, given}
use family_assistant_kernel.Ledger.Keys.Statements.{statement_rules}
use family_assistant_kernel.Ledger.Currencies.{
  write_found, write_equity, set_equity, decrease_equity, increase_equity,
}
use family_assistant_kernel.Ledger.Costs
use family_assistant_kernel.Ledger.Costs.{CostValues, cost_references}
use family_assistant_kernel.Ledger.Incomes
use family_assistant_kernel.Ledger.Incomes.{IncomeValues, income_references}
use family_assistant_kernel.Ledger.Exchanges
use family_assistant_kernel.Ledger.Exchanges.{exchange_references}

found : {A : Type 0} (o : Option A) (s : Db) → HasKeys s → HasKeys (or_raise not_found o s).1
found none s h = h
found (some a) s h = h

read_cost-HasKeys : (id : ℕ) → Keeps HasKeys (Costs.cost id)
unfolding Costs.cost
read_cost-HasKeys id = record { at = λ s h. found (find id s.costs.rows) s h }

add_cost_transaction-HasKeys : (x : Cost) → Keeps HasKeys (Costs.add_cost_transaction x)
unfolding Costs.add_cost_transaction
add_cost_transaction-HasKeys x = search statement_rules depth 8

pub add_cost-HasKeys : (x : Cost) → Keeps HasKeys (Costs.add_cost x)
unfolding Costs.add_cost
add_cost-HasKeys x = search (keeps_rules, add_cost_transaction-HasKeys, read_cost-HasKeys)

update_cost_row-HasKeys :
    (id : ℕ) (x : Cost) (v : CostValues) → Keeps HasKeys (Costs.update_cost_row id x v)
unfolding Costs.update_cost_row
update_cost_row-HasKeys id x v = search statement_rules depth 16

update_cost_transaction-HasKeys :
    (id : ℕ) (x : Cost) (v : CostValues) → Keeps HasKeys (Costs.update_cost_transaction id x v)
unfolding Costs.update_cost_transaction
update_cost_transaction-HasKeys id x v = search (statement_rules, update_cost_row-HasKeys)

pub update_cost-HasKeys : (id : ℕ) (v : CostValues) → Keeps HasKeys (Costs.update_cost id v)
unfolding Costs.update_cost
update_cost-HasKeys id v =
    search (keeps_rules, update_cost_transaction-HasKeys, read_cost-HasKeys) depth 9

delete_cost_transaction-HasKeys :
    (id : ℕ) (x : Cost) → Keeps HasKeys (Costs.delete_cost_transaction id x)
unfolding Costs.delete_cost_transaction
delete_cost_transaction-HasKeys id x = search statement_rules

pub delete_cost-HasKeys : (id : ℕ) → Keeps HasKeys (Costs.delete_cost id)
unfolding Costs.delete_cost
delete_cost-HasKeys id = search (keeps_rules, delete_cost_transaction-HasKeys, read_cost-HasKeys)

read_income-HasKeys : (id : ℕ) → Keeps HasKeys (Incomes.income id)
unfolding Incomes.income
read_income-HasKeys id = record { at = λ s h. found (find id s.incomes.rows) s h }

add_income_transaction-HasKeys : (x : Income) → Keeps HasKeys (Incomes.add_income_transaction x)
unfolding Incomes.add_income_transaction
add_income_transaction-HasKeys x = search statement_rules depth 8

pub add_income-HasKeys : (x : Income) → Keeps HasKeys (Incomes.add_income x)
unfolding Incomes.add_income
add_income-HasKeys x = search (keeps_rules, add_income_transaction-HasKeys, read_income-HasKeys)

update_income_row-HasKeys :
    (id : ℕ) (x : Income) (v : IncomeValues) → Keeps HasKeys (Incomes.update_income_row id x v)
unfolding Incomes.update_income_row
update_income_row-HasKeys id x v = search statement_rules depth 16

update_income_transaction-HasKeys :
    (id : ℕ) (x : Income) (v : IncomeValues)
    → Keeps HasKeys (Incomes.update_income_transaction id x v)
unfolding Incomes.update_income_transaction
update_income_transaction-HasKeys id x v = search (statement_rules, update_income_row-HasKeys)

pub update_income-HasKeys : (id : ℕ) (v : IncomeValues) → Keeps HasKeys (Incomes.update_income id v)
unfolding Incomes.update_income
update_income-HasKeys id v =
    search (keeps_rules, update_income_transaction-HasKeys, read_income-HasKeys) depth 9

delete_income_transaction-HasKeys :
    (id : ℕ) (x : Income) → Keeps HasKeys (Incomes.delete_income_transaction id x)
unfolding Incomes.delete_income_transaction
delete_income_transaction-HasKeys id x = search statement_rules

pub delete_income-HasKeys : (id : ℕ) → Keeps HasKeys (Incomes.delete_income id)
unfolding Incomes.delete_income
delete_income-HasKeys id =
    search (keeps_rules, delete_income_transaction-HasKeys, read_income-HasKeys)

read_exchange-HasKeys : (id : ℕ) → Keeps HasKeys (Exchanges.exchange id)
unfolding Exchanges.exchange
read_exchange-HasKeys id = record { at = λ s h. found (find id s.exchanges.rows) s h }

exchange_transaction-HasKeys : (x : Exchange) → Keeps HasKeys (Exchanges.exchange_transaction x)
unfolding Exchanges.exchange_transaction
exchange_transaction-HasKeys x = search statement_rules depth 12

pub currency_exchange-HasKeys : (x : Exchange) → Keeps HasKeys (Exchanges.currency_exchange x)
unfolding Exchanges.currency_exchange
currency_exchange-HasKeys x =
    search (keeps_rules, exchange_transaction-HasKeys, read_exchange-HasKeys)

delete_exchange_transaction-HasKeys :
    (id : ℕ) (x : Exchange) → Keeps HasKeys (Exchanges.delete_exchange_transaction id x)
unfolding Exchanges.delete_exchange_transaction
delete_exchange_transaction-HasKeys id x = search statement_rules depth 7

pub delete_currency_exchange-HasKeys :
    (id : ℕ) → Keeps HasKeys (Exchanges.delete_currency_exchange id)
unfolding Exchanges.delete_currency_exchange
delete_currency_exchange-HasKeys id =
    search (keeps_rules, delete_exchange_transaction-HasKeys, read_exchange-HasKeys)

-- ===== src/Ledger/Keys/Statements.antt =====
-- The primary keys through each statement.
use family_assistant_kernel.Prelude.{
  ◌&&◌, ℕ, Bool, true, false, not, ◌||◌, Option, none, some, if◌then◌else◌,
}
use family_assistant_kernel.Prelude.Int.{ℤ}
use family_assistant_kernel.Exec.{Result, lift}
use family_assistant_kernel.Exec.Keeps.{Keeps, Keeps-or_raise, keeps_rules}
use family_assistant_kernel.Storage.{find}
use family_assistant_kernel.Storage.Laws.{insert-IsTable, update_rows-IsTable, delete_rows-IsTable}
use family_assistant_kernel.Ledger.Tables.{
  Currency, Cost, Income, Exchange, Db, HasKeys, fits_int4, fits_name,
}
use family_assistant_kernel.Ledger.Columns.{Field, absent, null, given}
use family_assistant_kernel.Ledger.Currencies.{
  write_found, write_equity, set_equity, decrease_equity, increase_equity,
}
use family_assistant_kernel.Ledger.Costs
use family_assistant_kernel.Ledger.Costs.{CostValues, cost_references}
use family_assistant_kernel.Ledger.Incomes
use family_assistant_kernel.Ledger.Incomes.{IncomeValues, income_references}
use family_assistant_kernel.Ledger.Exchanges
use family_assistant_kernel.Ledger.Exchanges.{exchange_references}

-- both branches of a test that returns a pair
ends :
    {A : Type 0} (b : Bool) (p q : Result A × Db)
    → HasKeys p.1
    → HasKeys q.1
    → HasKeys (if b then p else q).1
ends true p q hp hq = hp
ends false p q hp hq = hq

write_found-HasKeys :
    (k : ℕ) (f : ℤ → ℤ) (db : Db) (o : Option Currency)
    → HasKeys db
    → HasKeys (write_found k f db o).1
unfolding write_found set_equity
write_found-HasKeys k f db none h = h
write_found-HasKeys k f db (some c) h =
    ends (fits_int4 (f c.equity)) _ _
      (record {
        currencies =
            update_rows-IsTable k (λ x. record x { equity = f c.equity }) db.currencies
              h.currencies;
        costs = h.costs;
        incomes = h.incomes;
        exchanges = h.exchanges;
      })
      h

write_equity-HasKeys : (k : ℕ) (f : ℤ → ℤ) → Keeps HasKeys (write_equity k f)
unfolding write_equity
write_equity-HasKeys k f = record {
  at = λ db h. write_found-HasKeys k f db (find k db.currencies.rows) h;
}

pub decrease_equity-HasKeys : (k : ℕ) (v : ℤ) → Keeps HasKeys (decrease_equity k v)
unfolding decrease_equity
decrease_equity-HasKeys k v = search (keeps_rules, write_equity-HasKeys)

pub increase_equity-HasKeys : (k : ℕ) (v : ℤ) → Keeps HasKeys (increase_equity k v)
unfolding increase_equity
increase_equity-HasKeys k v = search (keeps_rules, write_equity-HasKeys)

ruleset equity_rules = (keeps_rules, decrease_equity-HasKeys, increase_equity-HasKeys)

pub lift-HasKeys : {A : Type 0} (r : Result A) → Keeps HasKeys (lift r)
lift-HasKeys r = record { at = λ s h. h }

pub add_cost_row-HasKeys : (x : Cost) → Keeps HasKeys (Costs.add_cost_row x)
unfolding Costs.add_cost_row
add_cost_row-HasKeys x = record {
  at = λ s h. ends (not (fits_int4 x.value && fits_name x.name)) _ _ h (
      ends (cost_references x s) _ _
        (record {
          currencies = h.currencies;
          costs = insert-IsTable x s.costs h.costs;
          incomes = h.incomes;
          exchanges = h.exchanges;
        })
        h);
}

pub add_income_row-HasKeys : (x : Income) → Keeps HasKeys (Incomes.add_income_row x)
unfolding Incomes.add_income_row
add_income_row-HasKeys x = record {
  at = λ s h. ends (not (fits_int4 x.value && fits_name x.name)) _ _ h (
      ends (income_references x s) _ _
        (record {
          currencies = h.currencies;
          costs = h.costs;
          incomes = insert-IsTable x s.incomes h.incomes;
          exchanges = h.exchanges;
        })
        h);
}

pub add_exchange_row-HasKeys : (x : Exchange) → Keeps HasKeys (Exchanges.add_exchange_row x)
unfolding Exchanges.add_exchange_row
add_exchange_row-HasKeys x = record {
  at = λ s h. ends (not (fits_int4 x.from_value) || not (fits_int4 x.to_value)) _ _ h (
      ends (exchange_references x s) _ _
        (record {
          currencies = h.currencies;
          costs = h.costs;
          incomes = h.incomes;
          exchanges = insert-IsTable x s.exchanges h.exchanges;
        })
        h);
}

pub put_cost-HasKeys : (id : ℕ) (x : Cost) → Keeps HasKeys (Costs.put_cost id x)
unfolding Costs.put_cost
put_cost-HasKeys id x = record {
  at = λ s h.
      ends (cost_references x s) _ _
        (record {
          currencies = h.currencies;
          costs = update_rows-IsTable id (λ _. x) s.costs h.costs;
          incomes = h.incomes;
          exchanges = h.exchanges;
        })
        h;
}

pub put_income-HasKeys : (id : ℕ) (x : Income) → Keeps HasKeys (Incomes.put_income id x)
unfolding Incomes.put_income
put_income-HasKeys id x = record {
  at = λ s h.
      ends (income_references x s) _ _
        (record {
          currencies = h.currencies;
          costs = h.costs;
          incomes = update_rows-IsTable id (λ _. x) s.incomes h.incomes;
          exchanges = h.exchanges;
        })
        h;
}

pub delete_cost_row-HasKeys : (id : ℕ) → Keeps HasKeys (Costs.delete_cost_row id)
unfolding Costs.delete_cost_row
delete_cost_row-HasKeys id = record {
  at = λ s h. (record {
    currencies = h.currencies;
    costs = delete_rows-IsTable id s.costs h.costs;
    incomes = h.incomes;
    exchanges = h.exchanges;
  });
}

pub delete_income_row-HasKeys : (id : ℕ) → Keeps HasKeys (Incomes.delete_income_row id)
unfolding Incomes.delete_income_row
delete_income_row-HasKeys id = record {
  at = λ s h. (record {
    currencies = h.currencies;
    costs = h.costs;
    incomes = delete_rows-IsTable id s.incomes h.incomes;
    exchanges = h.exchanges;
  });
}

pub delete_exchange_row-HasKeys : (id : ℕ) → Keeps HasKeys (Exchanges.delete_exchange_row id)
unfolding Exchanges.delete_exchange_row
delete_exchange_row-HasKeys id = record {
  at = λ s h. (record {
    currencies = h.currencies;
    costs = h.costs;
    incomes = h.incomes;
    exchanges = delete_rows-IsTable id s.exchanges h.exchanges;
  });
}

pub adjust_for_cost-HasKeys :
    (x : Cost) (fk : Field ℕ) (fv : Field ℤ) → Keeps HasKeys (Costs.adjust_for_cost x fk fv)
unfolding Costs.adjust_for_cost
adjust_for_cost-HasKeys x (given k) (given v) = search equity_rules
adjust_for_cost-HasKeys x (given k) absent = search equity_rules
adjust_for_cost-HasKeys x (given k) null = search equity_rules
adjust_for_cost-HasKeys x absent (given v) = search equity_rules
adjust_for_cost-HasKeys x absent absent = search equity_rules
adjust_for_cost-HasKeys x absent null = search equity_rules
adjust_for_cost-HasKeys x null (given v) = search equity_rules
adjust_for_cost-HasKeys x null absent = search equity_rules
adjust_for_cost-HasKeys x null null = search equity_rules

pub adjust_for_income-HasKeys :
    (x : Income) (fk : Field ℕ) (fv : Field ℤ) → Keeps HasKeys (Incomes.adjust_for_income x fk fv)
unfolding Incomes.adjust_for_income
adjust_for_income-HasKeys x (given k) (given v) = search equity_rules
adjust_for_income-HasKeys x (given k) absent = search equity_rules
adjust_for_income-HasKeys x (given k) null = search equity_rules
adjust_for_income-HasKeys x absent (given v) = search equity_rules
adjust_for_income-HasKeys x absent absent = search equity_rules
adjust_for_income-HasKeys x absent null = search equity_rules
adjust_for_income-HasKeys x null (given v) = search equity_rules
adjust_for_income-HasKeys x null absent = search equity_rules
adjust_for_income-HasKeys x null null = search equity_rules

pub ruleset statement_rules = (
  keeps_rules, lift-HasKeys, decrease_equity-HasKeys, increase_equity-HasKeys, add_cost_row-HasKeys,
  add_income_row-HasKeys, add_exchange_row-HasKeys, put_cost-HasKeys, put_income-HasKeys,
  delete_cost_row-HasKeys, delete_income_row-HasKeys, delete_exchange_row-HasKeys,
  adjust_for_cost-HasKeys, adjust_for_income-HasKeys,
)

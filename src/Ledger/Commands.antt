-- ===== src/Ledger/Commands.antt =====
-- The writes that src/application/transactions.py offers on costs, incomes and exchanges, as commands
-- that run one after the other; a command that raises is answered with its error and the next one runs.
use family_assistant_kernel.Prelude.{ℕ, List, [], ◌∷◌}
use family_assistant_kernel.Exec.{Exec, ◌>>◌, pure}
use family_assistant_kernel.Ledger.Tables.{Cost, Income, Exchange, Db}
use family_assistant_kernel.Ledger.Costs.{CostValues, add_cost, update_cost, delete_cost}
use family_assistant_kernel.Ledger.Incomes.{IncomeValues, add_income, update_income, delete_income}
use family_assistant_kernel.Ledger.Exchanges.{currency_exchange, delete_currency_exchange}

pub data Command : Type 0 where
  cost_add : Cost → Command
  cost_update : ℕ → CostValues → Command
  cost_delete : ℕ → Command
  income_add : Income → Command
  income_update : ℕ → IncomeValues → Command
  income_delete : ℕ → Command
  exchange_add : Exchange → Command
  exchange_delete : ℕ → Command

unfoldable pub execute : Command → Exec Db Unit
execute (cost_add x) = add_cost x >> pure tt
execute (cost_update id v) = update_cost id v >> pure tt
execute (cost_delete id) = delete_cost id
execute (income_add x) = add_income x >> pure tt
execute (income_update id v) = update_income id v >> pure tt
execute (income_delete id) = delete_income id
execute (exchange_add x) = currency_exchange x >> pure tt
execute (exchange_delete id) = delete_currency_exchange id

unfoldable pub run : List Command → Db → Db
unfolding execute
run [] db = db
run (c ∷ cs) db = run cs (execute c db).1

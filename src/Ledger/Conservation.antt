-- ===== src/Ledger/Conservation.antt =====
-- The commands on the ledger against the primary keys and the opening balances.
mod CostSide
mod IncomeSide
mod ExchangeSide
use family_assistant_kernel.Prelude.{ℕ, ◌≡◌, refl, ◌∙◌, List, [], ◌∷◌}
use family_assistant_kernel.Exec.{Result, ok, err, Exec, ◌>>=◌, ◌>>◌, pure, continue}
use family_assistant_kernel.Exec.Keeps.{Keeps, keeps_rules}
use family_assistant_kernel.Ledger.Tables.{Db, HasKeys}
use family_assistant_kernel.Ledger.Opening.{opening}
use family_assistant_kernel.Ledger.Commands.{
  Command, cost_add, cost_update, cost_delete, income_add, income_update, income_delete,
  exchange_add, exchange_delete, execute, run,
}
use family_assistant_kernel.Ledger.Keys.{
  add_cost-HasKeys, update_cost-HasKeys, delete_cost-HasKeys, add_income-HasKeys,
  update_income-HasKeys, delete_income-HasKeys, currency_exchange-HasKeys,
  delete_currency_exchange-HasKeys,
}
use family_assistant_kernel.Ledger.Conservation.CostSide.{
  add_cost-opening, update_cost-opening, delete_cost-opening,
}
use family_assistant_kernel.Ledger.Conservation.IncomeSide.{
  add_income-opening, update_income-opening, delete_income-opening,
}
use family_assistant_kernel.Ledger.Conservation.ExchangeSide.{
  currency_exchange-opening, delete_currency_exchange-opening,
}

ruleset key_rules = (
  keeps_rules, add_cost-HasKeys, update_cost-HasKeys, delete_cost-HasKeys, add_income-HasKeys,
  update_income-HasKeys, delete_income-HasKeys, currency_exchange-HasKeys,
  delete_currency_exchange-HasKeys,
)

-- Every command, whether it returns or raises, keeps the primary keys of the four tables: each comes
-- from its sequence and none is used twice.
pub execute-HasKeys : (k : Command) → Keeps HasKeys (execute k)
unfolding execute
execute-HasKeys (cost_add x) = search key_rules
execute-HasKeys (cost_update id v) = search key_rules
execute-HasKeys (cost_delete id) = search key_rules
execute-HasKeys (income_add x) = search key_rules
execute-HasKeys (income_update id v) = search key_rules
execute-HasKeys (income_delete id) = search key_rules
execute-HasKeys (exchange_add x) = search key_rules
execute-HasKeys (exchange_delete id) = search key_rules

module _ {A : Type 0} where
  discard-opening :
      (c : ℕ) (s : Db) (p : Result A × Db)
      → opening c p.1 ≡ opening c s
      → opening c (continue p.0 (λ _. pure tt) p.1).1 ≡ opening c s
  discard-opening c s (ok a, s') h = h
  discard-opening c s (err e, s') h = h

execute-opening :
    (c : ℕ) (k : Command) (db : Db) → HasKeys db → opening c (execute k db).1 ≡ opening c db
unfolding execute
execute-opening c (cost_add x) db h = discard-opening c db _ (add_cost-opening c x db)
execute-opening c (cost_update id v) db h =
    discard-opening c db _ (update_cost-opening c id v db h.costs)
execute-opening c (cost_delete id) db h = delete_cost-opening c id db h.costs
execute-opening c (income_add x) db h = discard-opening c db _ (add_income-opening c x db)
execute-opening c (income_update id v) db h =
    discard-opening c db _ (update_income-opening c id v db h.incomes)
execute-opening c (income_delete id) db h = delete_income-opening c id db h.incomes
execute-opening c (exchange_add x) db h = discard-opening c db _ (currency_exchange-opening c x db)
execute-opening c (exchange_delete id) db h = delete_currency_exchange-opening c id db h.exchanges

-- Any sequence of cost, income and exchange commands, some of which may raise, leaves the opening
-- balance of every currency as it was: its equity plus the recorded costs and given amounts less the
-- recorded incomes and received amounts. The keys of the tables have to be sound at the start.
pub run-opening :
    (c : ℕ) (ks : List Command) (db : Db) → HasKeys db → opening c (run ks db) ≡ opening c db
unfolding run
run-opening c [] db h = refl
run-opening c (k ∷ ks) db h =
    run-opening c ks (execute k db).1 ((execute-HasKeys k).at db h) ∙ execute-opening c k db h

-- ===== src/Ledger/Races.antt =====
-- Two deletions of one cost that overlap: both have read the row before either transaction runs. The
-- deletion of a row that is gone is no error in SQL, so the second transaction still runs its statements.
use family_assistant_kernel.Prelude.{ℕ, ◌≡◌, refl, none}
use family_assistant_kernel.Prelude.Int.{pos, int_laws}
use family_assistant_kernel.Storage.{find}
use family_assistant_kernel.Storage.Laws.{delete_rows_absent}
use family_assistant_kernel.Ledger.Tables.{Cost, Db}
use family_assistant_kernel.Ledger.Costs.{delete_cost_row, delete_cost_transaction}
use family_assistant_kernel.Ledger.Opening.{spent_in, outgoing, Moved}
use family_assistant_kernel.Ledger.Movement.{
  Moved-bind, Moved-cast, Moved-transaction, increase_equity-Shifts, opening-outgoing,
}

delete_absent-Moved :
    (c id : ℕ) (s : Db) → find id s.costs.rows ≡ none → Moved c (pos 0) s (delete_cost_row id s)
unfolding delete_cost_row outgoing
delete_absent-Moved c id s gone =
    opening-outgoing c (pos 0) s _ refl
      (rw (delete_rows_absent id s.costs.rows gone) (omega int_laws))

-- When the transaction of `delete_cost` runs for a row that another transaction has deleted since it was
-- read, and returns, the opening balance of the cost's currency has grown by the value of the cost: the
-- amount is paid back a second time.
pub delete_cost_transaction-twice :
    (c id : ℕ) (x : Cost) (s : Db)
    → find id s.costs.rows ≡ none
    → Moved c (spent_in c x) s (delete_cost_transaction id x s)
unfolding delete_cost_transaction
delete_cost_transaction-twice c id x s gone = Moved-transaction c _ _ s (
    Moved-cast c _ _ s _ (omega int_laws) (
      Moved-bind c _ _ (delete_cost_row id) _ s (delete_absent-Moved c id s gone)
        (λ _. increase_equity-Shifts c x.currency_id x.value)))

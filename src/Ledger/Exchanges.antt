-- ===== src/Ledger/Exchanges.antt =====
-- Currency exchanges: src/infrastructure/repositories/exchange.py and the exchange section of
-- src/application/transactions.py.
use family_assistant_kernel.Prelude.{ℕ, not, ◌&&◌, ◌||◌, if◌then◌else◌}
use family_assistant_kernel.Exec.{
  Exec, ok, err, pure, or_raise, lift, modify, transaction, ◌>>=◌, ◌>>◌, not_found, database,
  foreign_key_violation,
}
use family_assistant_kernel.Prelude.{Bool}
use family_assistant_kernel.Storage
use family_assistant_kernel.Storage.{find, exists, delete_rows}
use family_assistant_kernel.Ledger.Tables.{Exchange, Db, fits_int4, validate_positive_value}
use family_assistant_kernel.Ledger.Currencies.{decrease_equity, increase_equity}

-- `repositories.Exchange.exchange`
unfoldable pub exchange : ℕ → Exec Db Exchange
exchange id db = or_raise not_found (find id db.exchanges.rows) db

-- the foreign keys of an exchange lead to rows
unfoldable pub exchange_references : Exchange → Db → Bool
exchange_references x db =
    exists x.user_id db.users.rows
    && (exists x.from_currency_id db.currencies.rows && exists x.to_currency_id db.currencies.rows)

unfoldable pub add_exchange_row : Exchange → Exec Db ℕ
unfolding exchange_references
add_exchange_row x db =
    if not (fits_int4 x.from_value) || not (fits_int4 x.to_value)
    then (err database, db)
    else if exchange_references x db
    then (ok db.exchanges.next, record db { exchanges = Storage.insert x db.exchanges })
    else (err foreign_key_violation, db)

unfoldable pub delete_exchange_row : ℕ → Exec Db Unit
delete_exchange_row id = modify (λ db. record db {
  exchanges = record db.exchanges { rows = delete_rows id db.exchanges.rows };
})

-- the transaction of `currency_exchange`; the answer is the id of the new row
unfoldable pub exchange_transaction : Exchange → Exec Db ℕ
exchange_transaction candidate = transaction do
  lift (validate_positive_value candidate.from_value)
  lift (validate_positive_value candidate.to_value)
  new ← add_exchange_row candidate
  decrease_equity candidate.from_currency_id candidate.from_value
  increase_equity candidate.to_currency_id candidate.to_value
  pure new

unfoldable pub currency_exchange : Exchange → Exec Db Exchange
currency_exchange candidate = do id ← exchange_transaction candidate; exchange id

-- the transaction of `delete_currency_exchange`, for the row that was read
unfoldable pub delete_exchange_transaction : ℕ → Exchange → Exec Db Unit
delete_exchange_transaction id x = transaction do
  delete_exchange_row id
  increase_equity x.from_currency_id x.from_value
  decrease_equity x.to_currency_id x.to_value

unfoldable pub delete_currency_exchange : ℕ → Exec Db Unit
delete_currency_exchange id = do x ← exchange id; delete_exchange_transaction id x

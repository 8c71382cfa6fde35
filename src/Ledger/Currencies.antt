-- ===== src/Ledger/Currencies.antt =====
-- src/infrastructure/repositories/currency.py: the equity of a currency and the statements that move
-- it. A result that does not fit the 32 bits of the column is refused by the database.
use family_assistant_kernel.Prelude.{
  ℕ, Bool, false, not, ◌||◌, String, Option, none, some, List, [], ◌∷◌, ◌==◌, if◌then◌else◌, any,
  str_eq,
}
use family_assistant_kernel.Prelude.Int.{ℤ, pos, ◌+ℤ◌, ◌-ℤ◌}
use family_assistant_kernel.Exec.{
  Exec, Result, ok, err, pure, gets, raise_if, modify, ◌>>=◌, ◌>>◌, bad_request, unprocessable,
  database,
}
use family_assistant_kernel.Storage
use family_assistant_kernel.Storage.{find, update_rows, delete_rows}
use family_assistant_kernel.Ledger.Tables.{Currency, Db, fits_int4}

unfoldable pub set_equity : ℕ → ℤ → Db → Db
set_equity k e db = record db {
  currencies = record db.currencies {
    rows = update_rows k (λ c. record c { equity = e }) db.currencies.rows;
  };
}

unfoldable pub write_found : ℕ → (ℤ → ℤ) → Db → Option Currency → Result (Unit {0}) × Db
unfolding set_equity
write_found k f db none = (ok tt, db)
write_found k f db (some c) =
    if fits_int4 (f c.equity) then (ok tt, set_equity k (f c.equity) db) else (err database, db)

-- `update currencies set equity = … where id = k`; a key that is not there changes no row
unfoldable pub write_equity : ℕ → (ℤ → ℤ) → Exec Db Unit
unfolding write_found
write_equity k f db = write_found k f db (find k db.currencies.rows)

unfoldable pub decrease_equity : ℕ → ℤ → Exec Db Unit
decrease_equity currency_id value = do
  raise_if (not (fits_int4 value)) database
  write_equity currency_id (λ e. e -ℤ value)

unfoldable pub increase_equity : ℕ → ℤ → Exec Db Unit
increase_equity currency_id value = do
  raise_if (not (fits_int4 value)) database
  write_equity currency_id (λ e. e +ℤ value)

-- whether some row refers to the currency
module _ {A : Type 0} where
  unfoldable pub refers : (A → ℕ) → ℕ → List (ℕ × A) → Bool
  refers column k [] = false
  refers column k ((j, a) ∷ rows) = (column a == k) || refers column k rows

unfoldable pub currency_used : ℕ → Db → Bool
unfolding refers
currency_used k db =
    refers (λ c. c.currency_id) k db.costs.rows
    || refers (λ i. i.currency_id) k db.incomes.rows
    || refers (λ x. x.from_currency_id) k db.exchanges.rows
    || refers (λ x. x.to_currency_id) k db.exchanges.rows

unfoldable pub name_taken : String → String → List (ℕ × Currency) → Bool
name_taken name sign rows = any (λ r. str_eq r.1.name name || str_eq r.1.sign sign) rows

-- a new currency starts with an equity of 0; name and sign are unique, and `flush` answers 422
unfoldable pub add_currency : String → String → Exec Db ℕ
unfolding name_taken
add_currency name sign = do
  raise_if (← gets (λ db. name_taken name sign db.currencies.rows)) unprocessable
  id ← gets (λ db. db.currencies.next)
  modify (λ db. record db {
    currencies = Storage.insert (record { name = name; sign = sign; equity = pos 0 }) db.currencies;
  })
  pure id

-- The default currencies of the users, the shortcuts and the cash balances refer to currencies as well;
-- `used_elsewhere` says whether one of them does.
unfoldable pub delete_currency : (ℕ → Bool) → ℕ → Exec Db Unit
unfolding currency_used
delete_currency used_elsewhere currency_id = do
  raise_if (← gets (λ db. currency_used currency_id db || used_elsewhere currency_id)) bad_request
  modify (λ db. record db {
    currencies = record db.currencies { rows = delete_rows currency_id db.currencies.rows };
  })

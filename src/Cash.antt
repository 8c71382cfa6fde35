-- ===== src/Cash.antt =====
-- The cash balances, one card for a currency: src/application/cash.py over
-- src/infrastructure/repositories/cash.py and the validators of the table. The card that an operation
-- is answered with is left out. Which currencies exist is a parameter.
pub mod Cards
mod Tests
use family_assistant_kernel.Prelude.{
  ℕ, Bool, true, false, ◌==◌, ◌&&◌, Option, none, some, List, [], ◌∷◌, if◌then◌else◌, any,
}
use family_assistant_kernel.Prelude.Int.{ℤ, pos, ltb_ℤ, leb_ℤ}
use family_assistant_kernel.Exec.{
  Exec, Result, ok, err, not_found, value_error, unprocessable, bad_request, database,
}
use family_assistant_kernel.Storage
use family_assistant_kernel.Ledger.Tables.{fits_int4}
use family_assistant_kernel.Storage.{Table, find, exists, update_rows, delete_rows}

pub record CashBalance : Type 0 where
  pub currency_id : ℕ
  pub balance : ℤ
  pub step : ℤ

abbrev pub Cards : Type 0
Cards = Table CashBalance

-- the validators, which run when an object is built
unfoldable pub is_valid_balance : ℤ → Bool
is_valid_balance balance = if ltb_ℤ balance (pos 0) then false else true

unfoldable pub is_valid_step : ℤ → Bool
is_valid_step step = if leb_ℤ step (pos 0) then false else true

-- the unique constraint of the column `currency_id`
abbrev pub has_card : ℕ → List (ℕ × CashBalance) → Bool
has_card currency_id rows = any (λ r. r.1.currency_id == currency_id) rows

module _ (is_currency : ℕ → Bool) where
  -- `flush` translates the violation of the constraint and of the foreign key
  abbrev pub insert_card : Bool → Bool → CashBalance → Exec Cards Unit
  insert_card true known card t = (err unprocessable, t)
  insert_card false false card t = (err bad_request, t)
  insert_card false true card t = (ok tt, Storage.insert card t)

  unfoldable pub add_cash_balance : ℕ → ℤ → Exec Cards Unit
  unfolding is_valid_step fits_int4
  add_cash_balance currency_id step t =
      if is_valid_step step
      then (if fits_int4 step
          then insert_card (has_card currency_id t.rows) (is_currency currency_id)
              (record { currency_id = currency_id; balance = pos 0; step = step }) t
          else (err database, t))
      else (err value_error, t)

abbrev pub or_old : Option ℤ → ℤ → ℤ
or_old none old = old
or_old (some new) old = new

-- a value for a column of 32 bits
unfoldable pub fits_column : Option ℤ → Bool
unfolding fits_int4
fits_column none = true
fits_column (some v) = fits_int4 v

-- an `update` statement, which runs no validator
unfoldable pub update_cash_balance : ℕ → Option ℤ → Option ℤ → Exec Cards Unit
unfolding exists fits_column
update_cash_balance id balance step t =
    if exists id t.rows
    then (if fits_column balance && fits_column step
        then (
          ok tt,
          record t {
            rows =
                update_rows id
                  (λ c. record c { balance = or_old balance c.balance; step = or_old step c.step })
                  t.rows;
          },
        )
        else (err database, t))
    else (err not_found, t)

unfoldable pub delete_cash_balance : ℕ → Exec Cards Unit
unfolding exists
delete_cash_balance id t =
    if exists id t.rows
    then (ok tt, record t { rows = delete_rows id t.rows })
    else (err not_found, t)

pub data Command : Type 0 where
  add : ℕ → ℤ → Command
  update : ℕ → Option ℤ → Option ℤ → Command
  remove : ℕ → Command

unfoldable pub execute : (ℕ → Bool) → Command → Exec Cards Unit
execute is_currency (add currency_id step) = add_cash_balance is_currency currency_id step
execute is_currency (update id balance step) = update_cash_balance id balance step
execute is_currency (remove id) = delete_cash_balance id

unfoldable pub run : (ℕ → Bool) → List Command → Cards → Cards
unfolding execute
run is_currency [] t = t
run is_currency (k ∷ ks) t = run is_currency ks (execute is_currency k t).1

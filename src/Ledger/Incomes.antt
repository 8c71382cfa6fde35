-- ===== src/Ledger/Incomes.antt =====
-- Incomes: src/infrastructure/repositories/income.py and the incomes section of
-- src/application/transactions.py, in the shape of the costs with the signs the other way round.
use family_assistant_kernel.Prelude.{
  ℕ, Bool, true, false, not, ◌&&◌, String, ◌==◌, str_eq, if◌then◌else◌,
}
use family_assistant_kernel.Prelude.Int.{ℤ, ◌-ℤ◌, eqb_ℤ}
use family_assistant_kernel.Exec.{
  Exec, ok, err, pure, or_raise, lift, raise_if, modify, transaction, ◌>>=◌, ◌>>◌, bad_request,
  not_found, database, foreign_key_violation,
}
use family_assistant_kernel.Storage
use family_assistant_kernel.Storage.{find, exists, update_rows, delete_rows}
use family_assistant_kernel.Ledger.Tables.{
  Income, IncomeSource, revenue, gift, debt, other, Db, fits_int4, fits_name,
  validate_positive_value,
}
use family_assistant_kernel.Ledger.Columns.{
  Field, absent, null, given, drop_same, is_absent, column, fits_field, fits_name_field,
}
use family_assistant_kernel.Ledger.Currencies.{decrease_equity, increase_equity}

unfoldable pub same_source : IncomeSource → IncomeSource → Bool
same_source revenue revenue = true
same_source gift gift = true
same_source debt debt = true
same_source other other = true
same_source _ _ = false

-- `repositories.Income.income`
unfoldable pub income : ℕ → Exec Db Income
income id db = or_raise not_found (find id db.incomes.rows) db

-- the foreign keys of an income lead to rows
unfoldable pub income_references : Income → Db → Bool
income_references i db = exists i.user_id db.users.rows && exists i.currency_id db.currencies.rows

unfoldable pub add_income_row : Income → Exec Db ℕ
unfolding income_references
add_income_row i db =
    if not (fits_int4 i.value && fits_name i.name)
    then (err database, db)
    else if income_references i db
    then (ok db.incomes.next, record db { incomes = Storage.insert i db.incomes })
    else (err foreign_key_violation, db)

unfoldable pub put_income : ℕ → Income → Exec Db Unit
unfolding income_references
put_income id i db =
    if income_references i db
    then (
      ok tt,
      record db { incomes = record db.incomes { rows = update_rows id (λ _. i) db.incomes.rows } },
    )
    else (err foreign_key_violation, db)

pub record IncomeValues : Type 0 where
  pub name : Field String
  pub value : Field ℤ
  pub timestamp : Field ℕ
  pub source : Field IncomeSource
  pub currency_id : Field ℕ
  -- whether some argument is no attribute of the table
  pub unknown : Bool

-- `repositories.Income.update_income` at a row `i` with the key `id`
unfoldable pub update_income_row : ℕ → Income → IncomeValues → Exec Db Unit
update_income_row id i v = do
  raise_if (not (fits_field v.value && fits_name_field v.name)) database
  name ← lift (column i.name v.name)
  value ← lift (column i.value v.value)
  timestamp ← lift (column i.timestamp v.timestamp)
  source ← lift (column i.source v.source)
  currency_id ← lift (column i.currency_id v.currency_id)
  put_income id (record i {
    name = name;
    value = value;
    timestamp = timestamp;
    source = source;
    currency_id = currency_id;
  })

unfoldable pub delete_income_row : ℕ → Exec Db Unit
delete_income_row id =
    modify
      (λ db. record db { incomes = record db.incomes { rows = delete_rows id db.incomes.rows } })

-- the arguments that differ from the row
unfoldable pub income_changes : Income → IncomeValues → IncomeValues
unfolding drop_same same_source
income_changes i v = record v {
  name = drop_same str_eq i.name v.name;
  value = drop_same eqb_ℤ i.value v.value;
  timestamp = drop_same ◌==◌ i.timestamp v.timestamp;
  source = drop_same same_source i.source v.source;
  currency_id = drop_same ◌==◌ i.currency_id v.currency_id;
}

unfoldable pub no_income_changes : IncomeValues → Bool
unfolding is_absent
no_income_changes v =
    is_absent v.name
    && (is_absent v.value
        && (is_absent v.timestamp && (is_absent v.source && is_absent v.currency_id)))

-- the equity adjustments of `update_income`
unfoldable pub adjust_for_income : Income → Field ℕ → Field ℤ → Exec Db Unit
adjust_for_income i (given new_currency_id) (given value) = do
  decrease_equity i.currency_id i.value
  increase_equity new_currency_id value
adjust_for_income i (given new_currency_id) absent = do
  decrease_equity i.currency_id i.value
  increase_equity new_currency_id i.value
adjust_for_income i (given new_currency_id) null = do
  decrease_equity i.currency_id i.value
  increase_equity new_currency_id i.value
adjust_for_income i absent (given value) = increase_equity i.currency_id (value -ℤ i.value)
adjust_for_income i null (given value) = increase_equity i.currency_id (value -ℤ i.value)
adjust_for_income i absent absent = pure tt
adjust_for_income i absent null = pure tt
adjust_for_income i null absent = pure tt
adjust_for_income i null null = pure tt

-- the transaction of `add_income`; the answer is the id of the new row
unfoldable pub add_income_transaction : Income → Exec Db ℕ
add_income_transaction candidate = transaction do
  lift (validate_positive_value candidate.value)
  new ← add_income_row candidate
  increase_equity candidate.currency_id candidate.value
  pure new

unfoldable pub add_income : Income → Exec Db Income
add_income candidate = do id ← add_income_transaction candidate; income id

-- the transaction of `update_income`, for the row that was read and the changes that are left
unfoldable pub update_income_transaction : ℕ → Income → IncomeValues → Exec Db Unit
update_income_transaction id i v =
    transaction do update_income_row id i v; adjust_for_income i v.currency_id v.value

unfoldable pub update_income : ℕ → IncomeValues → Exec Db Income
update_income id values = do
  i ← income id
  raise_if values.unknown database
  let changes = income_changes i values
  raise_if (no_income_changes changes) bad_request
  update_income_transaction id i changes
  income id

unfoldable pub delete_income_transaction : ℕ → Income → Exec Db Unit
delete_income_transaction id i =
    transaction do delete_income_row id; decrease_equity i.currency_id i.value

unfoldable pub delete_income : ℕ → Exec Db Unit
delete_income id = do i ← income id; delete_income_transaction id i

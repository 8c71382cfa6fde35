-- ===== src/Ledger/Costs.antt =====
-- Costs: src/infrastructure/repositories/cost.py and the costs section of
-- src/application/transactions.py. Every write is one database transaction with the change of the
-- equity; the row is read before, in a session of its own.
use family_assistant_kernel.Prelude.{ℕ, Bool, not, ◌&&◌, String, ◌==◌, str_eq, if◌then◌else◌}
use family_assistant_kernel.Prelude.Int.{ℤ, ◌-ℤ◌, eqb_ℤ}
use family_assistant_kernel.Exec.{
  Exec, ok, err, pure, or_raise, lift, raise_if, modify, transaction, ◌>>=◌, ◌>>◌, bad_request,
  not_found, database, foreign_key_violation,
}
use family_assistant_kernel.Storage
use family_assistant_kernel.Storage.{find, exists, update_rows, delete_rows}
use family_assistant_kernel.Ledger.Tables.{Cost, Db, fits_int4, fits_name, validate_positive_value}
use family_assistant_kernel.Ledger.Columns.{
  Field, absent, null, given, drop_same, is_absent, column, fits_field, fits_name_field,
}
use family_assistant_kernel.Ledger.Currencies.{decrease_equity, increase_equity}

-- `repositories.Cost.cost`
unfoldable pub cost : ℕ → Exec Db Cost
cost id db = or_raise not_found (find id db.costs.rows) db

-- the foreign keys of a cost lead to rows
unfoldable pub cost_references : Cost → Db → Bool
cost_references c db =
    exists c.user_id db.users.rows
    && (exists c.category_id db.categories.rows && exists c.currency_id db.currencies.rows)

-- `session.add` with the flush that the next statement brings; the answer is the new row's id
unfoldable pub add_cost_row : Cost → Exec Db ℕ
unfolding cost_references
add_cost_row c db =
    if not (fits_int4 c.value && fits_name c.name)
    then (err database, db)
    else if cost_references c db
    then (ok db.costs.next, record db { costs = Storage.insert c db.costs })
    else (err foreign_key_violation, db)

unfoldable pub put_cost : ℕ → Cost → Exec Db Unit
unfolding cost_references
put_cost id c db =
    if cost_references c db
    then (
      ok tt,
      record db { costs = record db.costs { rows = update_rows id (λ _. c) db.costs.rows } },
    )
    else (err foreign_key_violation, db)

pub record CostValues : Type 0 where
  pub name : Field String
  pub value : Field ℤ
  pub timestamp : Field ℕ
  pub currency_id : Field ℕ
  pub category_id : Field ℕ
  -- whether some argument is no attribute of the table
  pub unknown : Bool

-- `repositories.Cost.update_cost` at a row `c` with the key `id`
unfoldable pub update_cost_row : ℕ → Cost → CostValues → Exec Db Unit
update_cost_row id c v = do
  raise_if (not (fits_field v.value && fits_name_field v.name)) database
  name ← lift (column c.name v.name)
  value ← lift (column c.value v.value)
  timestamp ← lift (column c.timestamp v.timestamp)
  currency_id ← lift (column c.currency_id v.currency_id)
  category_id ← lift (column c.category_id v.category_id)
  put_cost id (record c {
    name = name;
    value = value;
    timestamp = timestamp;
    category_id = category_id;
    currency_id = currency_id;
  })

unfoldable pub delete_cost_row : ℕ → Exec Db Unit
delete_cost_row id =
    modify (λ db. record db { costs = record db.costs { rows = delete_rows id db.costs.rows } })

-- the arguments that differ from the row
unfoldable pub cost_changes : Cost → CostValues → CostValues
unfolding drop_same
cost_changes c v = record v {
  name = drop_same str_eq c.name v.name;
  value = drop_same eqb_ℤ c.value v.value;
  timestamp = drop_same ◌==◌ c.timestamp v.timestamp;
  currency_id = drop_same ◌==◌ c.currency_id v.currency_id;
  category_id = drop_same ◌==◌ c.category_id v.category_id;
}

unfoldable pub no_cost_changes : CostValues → Bool
unfolding is_absent
no_cost_changes v =
    is_absent v.name
    && (is_absent v.value
        && (is_absent v.timestamp && (is_absent v.currency_id && is_absent v.category_id)))

-- the equity adjustments of `update_cost`
unfoldable pub adjust_for_cost : Cost → Field ℕ → Field ℤ → Exec Db Unit
adjust_for_cost c (given new_currency_id) (given value) = do
  increase_equity c.currency_id c.value
  decrease_equity new_currency_id value
adjust_for_cost c (given new_currency_id) absent = do
  increase_equity c.currency_id c.value
  decrease_equity new_currency_id c.value
adjust_for_cost c (given new_currency_id) null = do
  increase_equity c.currency_id c.value
  decrease_equity new_currency_id c.value
adjust_for_cost c absent (given value) = decrease_equity c.currency_id (value -ℤ c.value)
adjust_for_cost c null (given value) = decrease_equity c.currency_id (value -ℤ c.value)
adjust_for_cost c absent absent = pure tt
adjust_for_cost c absent null = pure tt
adjust_for_cost c null absent = pure tt
adjust_for_cost c null null = pure tt

-- the transaction of `add_cost`; the answer is the id of the new row
unfoldable pub add_cost_transaction : Cost → Exec Db ℕ
add_cost_transaction candidate = transaction do
  lift (validate_positive_value candidate.value)
  new ← add_cost_row candidate
  decrease_equity candidate.currency_id candidate.value
  pure new

unfoldable pub add_cost : Cost → Exec Db Cost
add_cost candidate = do id ← add_cost_transaction candidate; cost id

-- the transaction of `update_cost`, for the row that was read and the changes that are left
unfoldable pub update_cost_transaction : ℕ → Cost → CostValues → Exec Db Unit
update_cost_transaction id c v =
    transaction do update_cost_row id c v; adjust_for_cost c v.currency_id v.value

unfoldable pub update_cost : ℕ → CostValues → Exec Db Cost
update_cost id values = do
  c ← cost id
  raise_if values.unknown database
  let changes = cost_changes c values
  raise_if (no_cost_changes changes) bad_request
  update_cost_transaction id c changes
  cost id

-- the transaction of `delete_cost`, for the row that was read
unfoldable pub delete_cost_transaction : ℕ → Cost → Exec Db Unit
delete_cost_transaction id c =
    transaction do delete_cost_row id; increase_equity c.currency_id c.value

unfoldable pub delete_cost : ℕ → Exec Db Unit
delete_cost id = do c ← cost id; delete_cost_transaction id c

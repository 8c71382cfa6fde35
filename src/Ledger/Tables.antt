-- ===== src/Ledger/Tables.antt =====
-- The tables of src/infrastructure/database/tables.py that hold the money: currencies with their
-- equity, costs, incomes and exchanges. The key `id` of a row stands in `Storage.Table`, dates are
-- day numbers, amounts are cents. Only the keys of users and cost categories matter here.
use Prim.Native.String.{count}
use family_assistant_kernel.Prelude.{ℕ, leb, ◌-◌, Bool, ◌&&◌, ◌^◌, String, if◌then◌else◌}
use family_assistant_kernel.Prelude.Int.{ℤ, pos, negsuc, leb_ℤ, ltb_ℤ}
use family_assistant_kernel.Exec.{Result, ok, err, value_error}
use family_assistant_kernel.Storage.{Table, IsTable}

pub record Currency : Type 0 where
  pub name : String
  pub sign : String
  pub equity : ℤ

pub record Cost : Type 0 where
  pub name : String
  pub value : ℤ
  pub timestamp : ℕ
  pub user_id : ℕ
  pub category_id : ℕ
  pub currency_id : ℕ

pub data IncomeSource : Type 0 where
  revenue gift debt other : IncomeSource

pub record Income : Type 0 where
  pub name : String
  pub value : ℤ
  pub timestamp : ℕ
  pub source : IncomeSource
  pub user_id : ℕ
  pub currency_id : ℕ

pub record Exchange : Type 0 where
  pub from_value : ℤ
  pub to_value : ℤ
  pub timestamp : ℕ
  pub user_id : ℕ
  pub from_currency_id : ℕ
  pub to_currency_id : ℕ

pub record Db : Type 0 where
  pub users : Table String
  pub categories : Table String
  pub currencies : Table Currency
  pub costs : Table Cost
  pub incomes : Table Income
  pub exchanges : Table Exchange

-- an `Integer` column of PostgreSQL has 32 bits; a value outside is refused, not wrapped
unfoldable pub fits_int4 : ℤ → Bool
fits_int4 v = leb_ℤ (negsuc (2 ^ 31 - 1)) v && ltb_ℤ v (pos (2 ^ 31))

-- a column `String(100)`: a longer text is refused, not cut
unfoldable pub fits_name : String → Bool
fits_name name = leb (count name) 100

-- the `@validates` of `value`, `from_value` and `to_value`, which run when an object is built
unfoldable pub validate_positive_value : ℤ → Result ℤ
validate_positive_value v = if ltb_ℤ v (pos 0) then err value_error else ok v

-- the primary keys of every table come from its sequence and are not used twice
pub record HasKeys (db : Db) : Type 0 where
  pub currencies : IsTable db.currencies
  pub costs : IsTable db.costs
  pub incomes : IsTable db.incomes
  pub exchanges : IsTable db.exchanges

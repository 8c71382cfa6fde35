-- ===== src/Exec.antt =====
-- Exceptions (src/infrastructure/errors/exceptions.py and the ones the libraries raise) and code
-- that reads and writes a state and may raise. The state that an action was in when it raised is part
-- of its answer; `transaction` (src/infrastructure/database/cqs.py) is what takes it back.
pub mod Keeps
pub mod Atomic
use family_assistant_kernel.Prelude.{ℕ, Bool, true, false, Option, none, some}

-- `unique_violation`, `foreign_key_violation` and `integrity` are the three kinds of SQLAlchemy's
-- IntegrityError that the program tells apart; `multiple_results` is SQLAlchemy's
-- MultipleResultsFound, and the ones named after Python's exceptions are Python's. Messages are left out.
pub data Error : Type 0 where
  bad_request unprocessable not_found authentication database : Error
  unique_violation foreign_key_violation integrity value_error key_error zero_division : Error
  type_error multiple_results : Error

-- The HTTP status that the handler of each exception answers with: the `status_code` of a BaseError,
-- 422 for a ValueError, 500 for what is not handled.
unfoldable pub status_code : Error → ℕ
status_code bad_request = 400
status_code unprocessable = 422
status_code not_found = 404
status_code authentication = 401
status_code database = 500
status_code value_error = 422
status_code unique_violation = 500
status_code foreign_key_violation = 500
status_code integrity = 500
status_code key_error = 500
status_code zero_division = 500
status_code type_error = 500
status_code multiple_results = 500

pub data Result {ℓ} (A : Type ℓ) : Type ℓ where
  ok : A → Result A
  err : Error → Result A

abbrev pub Exec {ℓ} : Type ℓ → Type ℓ → Type ℓ
Exec St R = St → Result R × St

module _ {ℓ} {St R : Type ℓ} where
  abbrev pub or_raise : Error → Option R → Exec St R
  or_raise error none st = (err error, st)
  or_raise error (some found) st = (ok found, st)

  abbrev pub raise : Error → Exec St R
  raise error st = (err error, st)

  abbrev pub gets : (St → R) → Exec St R
  gets column st = (ok (column st), st)

  abbrev pub lift : Result R → Exec St R
  lift answer st = (answer, st)

  abbrev pub pure : R → Exec St R
  pure x st = (ok x, st)

module _ {St : Type 0} where
  abbrev pub modify : (St → St) → Exec St Unit
  modify write st = (ok tt, write st)

  abbrev pub raise_if : Bool → Error → Exec St Unit
  raise_if true error st = (err error, st)
  raise_if false error st = (ok tt, st)

module _ {ℓ} {St R R2 : Type ℓ} where
  infixl 10 ◌>>=◌ ◌>>◌
  -- nothing after a raise runs
  abbrev pub continue : Result R → (R → Exec St R2) → Exec St R2
  continue (err error) rest st = (err error, st)
  continue (ok x) rest st = rest x st

  abbrev pub ◌>>=◌ : Exec St R → (R → Exec St R2) → Exec St R2
  ◌>>=◌ first rest st = let (answer, st') = first st in continue answer rest st'

  abbrev pub ◌>>◌ : Exec St R → Exec St R2 → Exec St R2
  first >> second = first >>= λ _. second

-- the `except` clauses of `transaction`
unfoldable pub translate : Error → Error
translate unique_violation = unprocessable
translate foreign_key_violation = bad_request
translate integrity = integrity
translate not_found = not_found
translate _ = database

module _ {ℓ} {S A : Type ℓ} where
  -- commit, or roll back to the state at the start
  unfoldable pub end_transaction : S → Result A → S → Result A × S
  unfolding translate
  end_transaction s (ok a) s' = (ok a, s')
  end_transaction s (err e) s' = (err (translate e), s)

  unfoldable pub transaction : Exec S A → Exec S A
  unfolding end_transaction
  transaction m s = let (r, s') = m s in end_transaction s r s'

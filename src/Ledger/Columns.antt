-- ===== src/Ledger/Columns.antt =====
-- The keyword arguments of an update, column by column, as `update_cost` and `update_income` of
-- src/application/transactions.py treat them.
use family_assistant_kernel.Prelude.{
  String, ◌≡◌, refl, ◌⊎◌, inl, inr, Bool, true, false, if◌then◌else◌,
}
use family_assistant_kernel.Prelude.Int.{ℤ}
use family_assistant_kernel.Exec.{Result, ok, err, integrity}
use family_assistant_kernel.Ledger.Tables.{fits_int4, fits_name}

-- an argument that is not given, None, or a value
pub data Field (A : Type 0) : Type 0 where
  absent null : Field A
  given : A → Field A

-- an argument that equals the row's attribute is dropped from the payload
unfoldable pub drop_same : {A : Type 0} → (A → A → Bool) → A → Field A → Field A
drop_same same old absent = absent
drop_same same old null = null
drop_same same old (given v) = if same old v then absent else given v

unfoldable pub is_absent : {A : Type 0} → Field A → Bool
is_absent absent = true
is_absent null = false
is_absent (given v) = false

-- the value that the statement leaves in a NOT NULL column
unfoldable pub column : {A : Type 0} → A → Field A → Result A
column old absent = ok old
column old null = err integrity
column old (given v) = ok v

unfoldable pub fits_field : Field ℤ → Bool
unfolding fits_int4
fits_field (given v) = fits_int4 v
fits_field absent = true
fits_field null = true

unfoldable pub fits_name_field : Field String → Bool
unfolding fits_name
fits_name_field (given name) = fits_name name
fits_name_field absent = true
fits_name_field null = true

-- the value of the column after an update that the database accepts
abbrev pub resolved : {A : Type 0} → A → Field A → A
resolved old absent = old
resolved old null = old
resolved old (given v) = v

pub column-cases :
    {A : Type 0} (old : A) (f : Field A)
    → (column old f ≡ ok (resolved old f)) ⊎ (column old f ≡ err integrity)
unfolding column
column-cases old absent = inl refl
column-cases old null = inr refl
column-cases old (given v) = inl refl

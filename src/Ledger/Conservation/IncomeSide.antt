-- ===== src/Ledger/Conservation/IncomeSide.antt =====
-- The operations on incomes against the opening balance of a currency.
use family_assistant_kernel.Prelude.{
  ◌&&◌, ℕ, ◌≡◌, ◌∙◌, ap, Bool, true, false, not, Bool-cases, inl, inr, some, ◌==◌, Option-cases,
  if◌then◌else◌,
}
use family_assistant_kernel.Prelude.Int.{ℤ, pos, ◌+ℤ◌, ◌-ℤ◌, int_laws}
use family_assistant_kernel.Exec.{
  Exec, Result, ok, err, pure, lift, continue, ◌>>◌, database, bad_request,
}
use family_assistant_kernel.Storage.{find, IsTable}
use family_assistant_kernel.Ledger.Tables.{Income, Db, validate_positive_value}
use family_assistant_kernel.Ledger.Columns.{
  Field, absent, null, given, resolved, column-cases, fits_field, fits_name_field,
}
use family_assistant_kernel.Ledger.Currencies.{decrease_equity, increase_equity}
use family_assistant_kernel.Ledger.Incomes.{
  IncomeValues, income, add_income, add_income_transaction, update_income, update_income_row,
  adjust_for_income, update_income_transaction, income_changes, no_income_changes, delete_income,
  delete_income_transaction, delete_income_row, add_income_row,
}
use family_assistant_kernel.Ledger.Opening.{charge, earned_in, opening, Moved, Shifts}
use family_assistant_kernel.Ledger.Movement.{
  Moved-bind, Shifts-bind, Shifts-pure, Shifts-lift, Moved-cast, Still-transaction, guarded-opening,
  decrease_equity-Shifts, increase_equity-Shifts, add_income_row-Moved, put_income-Moved,
  delete_income_row-Moved,
}

Shifts-cast : {A : Type 0} (c : ℕ) (a b : ℤ) (m : Exec Db A) → a ≡ b → Shifts c a m → Shifts c b m
Shifts-cast c a b m e h = rw (← e) h

module _ (c : ℕ) (x : Income) where
  switched :
      (k : ℕ) (v : ℤ)
      → Shifts c
          (charge c k v -ℤ earned_in c x)
          (decrease_equity x.currency_id x.value >> increase_equity k v)
  switched k v =
      Shifts-cast c (pos 0 -ℤ charge c x.currency_id x.value +ℤ (charge c k v)) _ _ (omega int_laws)
        (Shifts-bind c _ _ _ _ (decrease_equity-Shifts c x.currency_id x.value)
          (λ _. increase_equity-Shifts c k v))

  revalued :
      (v : ℤ)
      → Shifts c
          (charge c x.currency_id v -ℤ earned_in c x)
          (increase_equity x.currency_id (v -ℤ x.value))
  revalued v =
      Shifts-cast c _ _ _ (difference (x.currency_id == c))
        (increase_equity-Shifts c x.currency_id (v -ℤ x.value))
    where
      difference :
          (b : Bool)
          → (if b then v -ℤ x.value else pos 0)
            ≡ (if b then v else pos 0) -ℤ (if b then x.value else pos 0)
      difference true = omega int_laws
      difference false = omega int_laws

  untouched : Shifts c (earned_in c x -ℤ earned_in c x) (pure tt)
  untouched = Shifts-cast c (pos 0) _ _ (omega int_laws) (Shifts-pure c tt)

  adjust_for_income-Shifts :
      (fk : Field ℕ) (fv : Field ℤ)
      → Shifts c
          (charge c (resolved x.currency_id fk) (resolved x.value fv) -ℤ earned_in c x)
          (adjust_for_income x fk fv)
  unfolding adjust_for_income
  adjust_for_income-Shifts (given k) (given v) = switched k v
  adjust_for_income-Shifts (given k) absent = switched k x.value
  adjust_for_income-Shifts (given k) null = switched k x.value
  adjust_for_income-Shifts absent (given v) = revalued v
  adjust_for_income-Shifts null (given v) = revalued v
  adjust_for_income-Shifts absent absent = untouched
  adjust_for_income-Shifts absent null = untouched
  adjust_for_income-Shifts null absent = untouched
  adjust_for_income-Shifts null null = untouched

module _ (c id : ℕ) (s : Db) (x : Income) (t : IsTable s.incomes)
    (found : find id s.incomes.rows ≡ some x) where
  update_income_row-Moved :
      (v : IncomeValues)
      → Moved c
          (earned_in c x
            -ℤ charge c (resolved x.currency_id v.currency_id) (resolved x.value v.value))
          s
          (update_income_row id x v s)
  unfolding update_income_row
  update_income_row-Moved v =
      elim (Bool-cases (not (fits_field v.value && fits_name_field v.name))) [
        | inl large ↦ rw large tt
        | inr fits ↦ elim (column-cases x.name v.name) [
          | inr null_name ↦ rw (fits, null_name) tt
          | inl new_name ↦ elim (column-cases x.value v.value) [
            | inr null_value ↦ rw (fits, new_name, null_value) tt
            | inl new_value ↦ elim (column-cases x.timestamp v.timestamp) [
              | inr null_timestamp ↦ rw (fits, new_name, new_value, null_timestamp) tt
              | inl new_timestamp ↦ elim (column-cases x.source v.source) [
                | inr null_source ↦ rw (fits, new_name, new_value, new_timestamp, null_source) tt
                | inl new_source ↦ elim (column-cases x.currency_id v.currency_id) [
                  | inr null_currency_id ↦
                      rw (fits, new_name, new_value, new_timestamp, new_source, null_currency_id) tt
                  | inl new_currency_id ↦
                      rw (fits, new_name, new_value, new_timestamp, new_source, new_currency_id)
                        (put_income-Moved c id s x _ t found)
                ]
              ]
            ]
          ]
        ]
      ]

  pub update_income_transaction-opening :
      (v : IncomeValues) → opening c (update_income_transaction id x v s).1 ≡ opening c s
  unfolding update_income_transaction
  update_income_transaction-opening v = Still-transaction c _ s (
      Moved-cast c _ _ s _ (omega int_laws) (
        Moved-bind c _ _ (update_income_row id x v) _ s (update_income_row-Moved v)
          (λ _. adjust_for_income-Shifts c x v.currency_id v.value)))

  pub delete_income_transaction-opening :
      opening c (delete_income_transaction id x s).1 ≡ opening c s
  unfolding delete_income_transaction
  delete_income_transaction-opening = Still-transaction c _ s (
      Moved-cast c _ _ s _ (omega int_laws) (
        Moved-bind c _ _ (delete_income_row id) _ s (delete_income_row-Moved c id s x t found)
          (λ _. decrease_equity-Shifts c x.currency_id x.value)))

-- reading a row back changes nothing
income-state : (id : ℕ) (s : Db) → (income id s).1 ≡ s
unfolding income
income-state id s = elim (Option-cases (find id s.incomes.rows)) [
  | inl gone ↦ rw gone
  | inr (x, here) ↦ rw here
]

reread-opening :
    {A : Type 0} (c : ℕ) (s : Db) (k : A → ℕ) (p : Result A × Db)
    → opening c p.1 ≡ opening c s
    → opening c (continue p.0 (λ a. income (k a)) p.1).1 ≡ opening c s
reread-opening c s k (ok a, s') h = ap (opening c) (income-state (k a) s') ∙ h
reread-opening c s k (err e, s') h = h

pub add_income-opening : (c : ℕ) (x : Income) (s : Db) → opening c (add_income x s).1 ≡ opening c s
unfolding add_income add_income_transaction
add_income-opening c x s =
    reread-opening c s (λ id. id) _
      (Still-transaction c _ s (
        Moved-cast c
          (pos 0 +ℤ (pos 0 -ℤ earned_in c x +ℤ (charge c x.currency_id x.value +ℤ pos 0))) _ s _
          (omega int_laws)
          (Moved-bind c _ _ (lift (validate_positive_value x.value)) _ s
            ((Shifts-lift c (validate_positive_value x.value)).at s)
            (λ _. record {
              at = λ s'.
                  Moved-bind c _ _ (add_income_row x) _ s' (add_income_row-Moved c x s') (λ new.
                    Shifts-bind c _ _ _ _ (increase_equity-Shifts c x.currency_id x.value)
                      (λ _. Shifts-pure c new));
            }))))

pub update_income-opening :
    (c id : ℕ) (v : IncomeValues) (s : Db)
    → IsTable s.incomes
    → opening c (update_income id v s).1 ≡ opening c s
unfolding update_income income
update_income-opening c id v s t = elim (Option-cases (find id s.incomes.rows)) [
  | inl gone ↦ rw gone
  | inr (x, here) ↦ rw here (
      guarded-opening c s v.unknown database _ (
        guarded-opening c s (no_income_changes (income_changes x v)) bad_request _ (
          reread-opening c s (λ _. id) _
            (update_income_transaction-opening c id s x t here (income_changes x v)))))
]

pub delete_income-opening :
    (c id : ℕ) (s : Db) → IsTable s.incomes → opening c (delete_income id s).1 ≡ opening c s
unfolding delete_income income
delete_income-opening c id s t = elim (Option-cases (find id s.incomes.rows)) [
  | inl gone ↦ rw gone
  | inr (x, here) ↦ rw here (delete_income_transaction-opening c id s x t here)
]

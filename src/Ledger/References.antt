-- ===== src/Ledger/References.antt =====
-- The deletion of a currency against the rows that refer to it.
use mathlib.Core.Path.{subst}
use family_assistant_kernel.Prelude.{
  ℕ, ◌≡◌, ◌∙◌, sym, Bool, true, false, ◌||◌, ◌⊎◌, List, [], ◌∷◌, Bool-cases, inl, inr, ◌==◌, arith,
}
use family_assistant_kernel.Storage.{exists}
use family_assistant_kernel.Storage.Exists.{exists-delete_rows}
use family_assistant_kernel.Ledger.Tables.{Cost, Income, Exchange, Db}
use family_assistant_kernel.Ledger.Currencies.{refers, currency_used, delete_currency}

-- some row has the currency in the column
abbrev pub Refers : {A : Type 0} → (A → ℕ) → ℕ → List (ℕ × A) → Type 0
Refers column k [] = ⊥
Refers column k ((j, a) ∷ rows) = (column a ≡ k) ⊎ Refers column k rows

-- a cost, an income or an exchange is in the currency, or something else refers to it
abbrev pub IsUsed : (ℕ → Bool) → ℕ → Db → Type 0
IsUsed used_elsewhere k db =
    Refers Cost.currency_id k db.costs.rows
    ⊎ (Refers Income.currency_id k db.incomes.rows
        ⊎ (Refers Exchange.from_currency_id k db.exchanges.rows
            ⊎ (Refers Exchange.to_currency_id k db.exchanges.rows ⊎ (used_elsewhere k ≡ true))))

refers-Refers :
    {A : Type 0} (column : A → ℕ) (k : ℕ) (rows : List (ℕ × A))
    → Refers column k rows
    → refers column k rows ≡ true
unfolding refers
refers-Refers column k [] h = elim h [ ]
refers-Refers column k ((j, a) ∷ rows) (inl e) = ground (arith, e)
refers-Refers column k ((j, a) ∷ rows) (inr h) = ground (arith, refers-Refers column k rows h)

used-IsUsed :
    (used_elsewhere : ℕ → Bool) (k : ℕ) (db : Db)
    → IsUsed used_elsewhere k db
    → currency_used k db || used_elsewhere k ≡ true
unfolding currency_used
used-IsUsed used_elsewhere k db (inl h) =
    ground (arith, refers-Refers Cost.currency_id k db.costs.rows h)
used-IsUsed used_elsewhere k db (inr (inl h)) =
    ground (arith, refers-Refers Income.currency_id k db.incomes.rows h)
used-IsUsed used_elsewhere k db (inr (inr (inl h))) =
    ground (arith, refers-Refers Exchange.from_currency_id k db.exchanges.rows h)
used-IsUsed used_elsewhere k db (inr (inr (inr (inl h)))) =
    ground (arith, refers-Refers Exchange.to_currency_id k db.exchanges.rows h)
used-IsUsed used_elsewhere k db (inr (inr (inr (inr h)))) = ground (arith, h)

-- Whichever currency is deleted, and whether the deletion returns or raises, a currency that some cost,
-- income or exchange, on either side, or some row of another table refers to is still there.
pub delete_currency-exists :
    (used_elsewhere : ℕ → Bool) (j k : ℕ) (s : Db)
    → IsUsed used_elsewhere k s
    → exists k s.currencies.rows ≡ true
    → exists k (delete_currency used_elsewhere j s).1.currencies.rows ≡ true
unfolding delete_currency
delete_currency-exists used_elsewhere j k s used there =
    elim (Bool-cases (currency_used j s || used_elsewhere j)) [
      | inl refused ↦ rw refused there
      | inr free ↦
          let apart : (j == k) ≡ false = elim (Bool-cases (j == k)) [
            | inl same ↦
                let equal : j ≡ k = grind (arith, same) in
                let bad : ⊥ = ground (
                  arith,
                  free,
                  subst (λ (i : ℕ). currency_used i s || used_elsewhere i ≡ true) (sym equal)
                      (used-IsUsed used_elsewhere k s used),
                ) in
                elim bad [ ]
            | inr differ ↦ differ
          ] in
          rw free (exists-delete_rows k j s.currencies.rows apart ∙ there)
    ]

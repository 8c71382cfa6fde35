-- ===== src/Ledger/Conservation/ExchangeSide.antt =====
-- The operations on exchanges against the opening balance of a currency.
use family_assistant_kernel.Prelude.{ℕ, ◌≡◌, ◌∙◌, ap, inl, inr, some, Option-cases}
use family_assistant_kernel.Prelude.Int.{pos, ◌+ℤ◌, ◌-ℤ◌, int_laws}
use family_assistant_kernel.Exec.{Result, ok, err, pure, continue, ◌>>=◌}
use family_assistant_kernel.Storage.{find, IsTable}
use family_assistant_kernel.Ledger.Tables.{Exchange, Db, validate_positive_value}
use family_assistant_kernel.Ledger.Currencies.{decrease_equity, increase_equity}
use family_assistant_kernel.Ledger.Exchanges.{
  exchange, currency_exchange, exchange_transaction, add_exchange_row, delete_exchange_row,
  delete_exchange_transaction, delete_currency_exchange,
}
use family_assistant_kernel.Ledger.Opening.{given_in, received_in, opening, Shifts}
use family_assistant_kernel.Ledger.Movement.{
  Moved-bind, Shifts-bind, Shifts-pure, Shifts-lift, Moved-cast, Still-transaction,
  decrease_equity-Shifts, increase_equity-Shifts, add_exchange_row-Moved, delete_exchange_row-Moved,
}

exchange-state : (id : ℕ) (s : Db) → (exchange id s).1 ≡ s
unfolding exchange
exchange-state id s = elim (Option-cases (find id s.exchanges.rows)) [
  | inl gone ↦ rw gone
  | inr (x, here) ↦ rw here
]

reread-opening :
    (c : ℕ) (s : Db) (p : Result ℕ × Db)
    → opening c p.1 ≡ opening c s
    → opening c (continue p.0 exchange p.1).1 ≡ opening c s
reread-opening c s (ok id, s') h = ap (opening c) (exchange-state id s') ∙ h
reread-opening c s (err e, s') h = h

-- the statements after the row is inserted
module _ (c : ℕ) (x : Exchange) where
  paid-Shifts :
      (id : ℕ)
      → Shifts c (pos 0 -ℤ given_in c x +ℤ (received_in c x +ℤ pos 0)) (
          decrease_equity x.from_currency_id x.from_value >>= λ _.
          increase_equity x.to_currency_id x.to_value >>= λ _. pure id)
  paid-Shifts id =
      Shifts-bind c _ _ _ _ (decrease_equity-Shifts c x.from_currency_id x.from_value) (λ _.
        Shifts-bind c _ _ _ _ (increase_equity-Shifts c x.to_currency_id x.to_value)
          (λ _. Shifts-pure c id))

  inserted-Shifts :
      Shifts c
        (given_in c x -ℤ received_in c x +ℤ (pos 0 -ℤ given_in c x +ℤ (received_in c x +ℤ pos 0)))
        (add_exchange_row x >>= λ id. decrease_equity x.from_currency_id x.from_value >>= λ _.
          increase_equity x.to_currency_id x.to_value >>= λ _. pure id)
  inserted-Shifts = Shifts-bind c _ _ _ _ (record { at = add_exchange_row-Moved c x }) paid-Shifts

pub currency_exchange-opening :
    (c : ℕ) (x : Exchange) (s : Db) → opening c (currency_exchange x s).1 ≡ opening c s
unfolding currency_exchange exchange_transaction
currency_exchange-opening c x s = reread-opening c s _ (
    Still-transaction c _ s (
      Moved-cast c _ _ s _ (omega int_laws) (
        (Shifts-bind c _ _ _ _ (Shifts-lift c (validate_positive_value x.from_value)) (λ _.
            Shifts-bind c _ _ _ _ (Shifts-lift c (validate_positive_value x.to_value))
              (λ _. inserted-Shifts c x))).at
          s)))

pub delete_exchange_transaction-opening :
    (c id : ℕ) (s : Db) (x : Exchange)
    → IsTable s.exchanges
    → find id s.exchanges.rows ≡ some x
    → opening c (delete_exchange_transaction id x s).1 ≡ opening c s
unfolding delete_exchange_transaction
delete_exchange_transaction-opening c id s x t found = Still-transaction c _ s (
    Moved-cast c _ _ s _ (omega int_laws) (
      Moved-bind c _ _ (delete_exchange_row id) _ s (delete_exchange_row-Moved c id s x t found)
        (λ _.
          Shifts-bind c _ _ _ _ (increase_equity-Shifts c x.from_currency_id x.from_value)
            (λ _. decrease_equity-Shifts c x.to_currency_id x.to_value))))

pub delete_currency_exchange-opening :
    (c id : ℕ) (s : Db)
    → IsTable s.exchanges
    → opening c (delete_currency_exchange id s).1 ≡ opening c s
unfolding delete_currency_exchange exchange
delete_currency_exchange-opening c id s t = elim (Option-cases (find id s.exchanges.rows)) [
  | inl gone ↦ rw gone
  | inr (x, here) ↦ rw here (delete_exchange_transaction-opening c id s x t here)
]

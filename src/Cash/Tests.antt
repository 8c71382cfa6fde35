-- ===== src/Cash/Tests.antt =====
-- Two cards, a second one for a currency, and a step of less than a cent.
use family_assistant_kernel.Prelude.{ℕ, ◌≡◌, refl, leb, Bool, none, some, List, [], ◌∷◌}
use family_assistant_kernel.Prelude.Int.{pos}
use family_assistant_kernel.Storage.{exists, find, update_rows}
use family_assistant_kernel.Ledger.Tables.{fits_int4}
use family_assistant_kernel.Cash.{
  Cards, is_valid_balance, is_valid_step, fits_column, update_cash_balance, Command, add, update,
  remove, run,
}
use family_assistant_kernel.Cash.Cards.{AreCards, run-AreCards}

abbrev drawer : Cards
drawer = record {
  rows = (1, record { currency_id = 1; balance = pos 700; step = pos 100 }) ∷ [];
  next = 2;
}

abbrev any_currency : ℕ → Bool
any_currency id = leb id 5

abbrev changes : List Command
changes =
    add 2 (pos 50) ∷ add 1 (pos 20) ∷ add 3 (pos 0) ∷ update 1 (some (pos 0)) none ∷ remove 9 ∷ []

drawer-AreCards : AreCards drawer.rows
unfolding is_valid_balance is_valid_step
drawer-AreCards = (refl, refl, refl, tt)

run-AreCards_example : AreCards (run any_currency changes drawer).rows
unfolding is_valid_balance
run-AreCards_example =
    run-AreCards any_currency changes drawer (tt, (tt, (tt, ((refl, tt), (tt, tt)))))
      drawer-AreCards

-- `int(round(0.001 * 100, 2))` is 0, and the update stores it
zero_step :
    (update_cash_balance 1 none (some (pos 0)) drawer).1.rows
    ≡ (1, record { currency_id = 1; balance = pos 700; step = pos 0 }) ∷ []
unfolding update_cash_balance fits_column fits_int4 exists find update_rows
zero_step = refl

-- ===== src/Shortcuts/Tests.antt =====
-- Shortcuts of two users.
use family_assistant_kernel.Prelude.{refl, none, [], ◌∷◌}
use family_assistant_kernel.Storage.{find}
use family_assistant_kernel.Shortcuts.{CostShortcut, Rows, number_from}
use family_assistant_kernel.Shortcuts.Positions.{Numbered, number_from-Numbered}

abbrev coffee : CostShortcut
coffee = record {
  name = "coffee";
  value = none;
  category_id = 1;
  currency_id = 1;
  user_id = 1;
  ui_position_index = 3;
}

abbrev tea : CostShortcut
tea = record coffee { name = "tea"; ui_position_index = 1 }

abbrev buttons : Rows
buttons = (1, coffee) ∷ (2, tea) ∷ (3, record tea { user_id = 2 }) ∷ []

number_from-Numbered_example :
    Numbered 1 ((2, tea) ∷ (1, coffee) ∷ []) (number_from 1 1 ((2, tea) ∷ (1, coffee) ∷ []) buttons)
unfolding find
number_from-Numbered_example =
    number_from-Numbered 1 1 ((2, tea) ∷ (1, coffee) ∷ []) buttons (refl, (refl, tt))
      (refl, refl, (refl, refl, tt))

-- ===== src/Shortcuts.antt =====
-- Cost shortcuts: src/infrastructure/repositories/cost.py and src/application/transactions.py.
pub mod Positions
mod Tests
use mathlib.Core.Option
use family_assistant_kernel.Prelude.{
  ℕ, suc, ◌+◌, Bool, true, false, not, ◌&&◌, ◌||◌, ltb, ◌==◌, String, Option, none, some, List, [],
  ◌∷◌, map, if◌then◌else◌, select, any, all, length,
}
use family_assistant_kernel.Prelude.Int.{ℤ, pos, eqb_ℤ, ltb_ℤ, pos_part as nat_of}
use family_assistant_kernel.Exec.{
  Exec, Result, ok, err, pure, gets, or_raise, raise_if, modify, transaction, ◌>>=◌, ◌>>◌,
  not_found, value_error, database,
}
use family_assistant_kernel.Storage
use family_assistant_kernel.Storage.{Table, find, exists, update_rows, delete_rows}
use family_assistant_kernel.Storage.Order.{sort_by}
use family_assistant_kernel.Ledger.Tables.{Cost, Db}
use family_assistant_kernel.Ledger.Costs.{add_cost}

-- `ui_position_index` may be null in the database; `add_cost_shortcut` and the reordering always write a
-- position, and rows without one are left out
pub record CostShortcut : Type 0 where
  pub name : String
  pub value : Option ℤ
  pub category_id : ℕ
  pub currency_id : ℕ
  pub user_id : ℕ
  pub ui_position_index : ℕ

abbrev pub Rows : Type 0
Rows = List (ℕ × CostShortcut)

-- `where user_id = …`
abbrev pub owned : ℕ → Rows → Rows
owned user_id rows = select (λ r. r.1.user_id == user_id) rows

-- the row that `last_cost_shortcut` finds: the largest position among those of the user
abbrev pub larger : ℕ → Option ℕ → ℕ
larger p none = p
larger p (some n) = if ltb n p then p else n

unfoldable pub last_position : Rows → Option ℕ
last_position [] = none
last_position ((id, x) ∷ rows) = some (larger x.ui_position_index (last_position rows))

abbrev pub after : Option ℕ → ℕ
after none = 1
after (some n) = n + 1

-- the position that `add_cost_shortcut` gives
unfoldable pub next_position : ℕ → Rows → ℕ
unfolding last_position
next_position user_id rows = after (last_position (owned user_id rows))

unfoldable pub add_cost_shortcut : CostShortcut → Table CostShortcut → Table CostShortcut
unfolding next_position
add_cost_shortcut x t =
    Storage.insert (record x { ui_position_index = next_position x.user_id t.rows }) t

-- `order by ui_position_index, id`
abbrev pub earlier : ℕ × CostShortcut → ℕ × CostShortcut → Bool
earlier (i, x) (j, y) =
    ltb x.ui_position_index y.ui_position_index
    || ((x.ui_position_index == y.ui_position_index) && ltb i j)

unfoldable pub set_position : ℕ → ℕ → ℕ → Rows → Rows
set_position id user_id n [] = []
set_position id user_id n ((j, x) ∷ rows) =
    (j, if (id == j) && (x.user_id == user_id) then record x { ui_position_index = n } else x)
    ∷ set_position id user_id n rows

-- the loop over `enumerate(shortcuts, start=1)`, from the index `n`
unfoldable pub number_from : ℕ → ℕ → Rows → Rows → Rows
unfolding set_position
number_from user_id n [] rows = rows
number_from user_id n ((id, x) ∷ ordered) rows =
    let next = if x.ui_position_index == n then rows else set_position id user_id n rows in
    number_from user_id (n + 1) ordered next

unfoldable pub rebuild_ui_positions : ℕ → Rows → Rows
unfolding number_from
rebuild_ui_positions user_id rows =
    number_from user_id 1 (sort_by earlier (owned user_id rows)) rows

-- the row goes whichever user it belongs to, and a key that is not there is no error
unfoldable pub delete_cost_shortcut : ℕ → ℕ → Table CostShortcut → Table CostShortcut
unfolding rebuild_ui_positions
delete_cost_shortcut user_id id t = record t {
  rows = rebuild_ui_positions user_id (delete_rows id t.rows);
}

pub record PositionUpdate : Type 0 where
  pub id : ℕ
  pub ui_position_index : ℤ

-- `sorted(positions) == list(range(n))`, for a list that has been sorted
abbrev pub is_range_from : ℕ → List ℤ → Bool
is_range_from n [] = true
is_range_from n (p ∷ ps) = eqb_ℤ p (pos n) && is_range_from (suc n) ps

-- a set of the list is as long as the list
abbrev pub all_different : List ℕ → Bool
all_different [] = true
all_different (x ∷ xs) = not (any (λ y. x == y) xs) && all_different xs

unfoldable pub write_positions : ℕ → List PositionUpdate → Rows → Rows
unfolding set_position
write_positions user_id [] rows = rows
write_positions user_id (v ∷ vs) rows =
    write_positions user_id vs (set_position v.id user_id (nat_of v.ui_position_index) rows)

-- whether the user has a shortcut with the key
abbrev pub owns : ℕ → Rows → ℕ → Bool
owns user_id rows id = any (λ r. (id == r.0) && (r.1.user_id == user_id)) rows

unfoldable pub cost_shortcut_update_positions :
    ℕ → List PositionUpdate → Exec (Table CostShortcut) Unit
unfolding write_positions
cost_shortcut_update_positions user_id values = do
  raise_if (not (is_range_from 0 (sort_by ltb_ℤ (map (λ v. v.ui_position_index) values))))
      value_error
  raise_if (not (all_different (map (λ v. v.id) values))) value_error
  rows ← gets (λ t. t.rows)
  raise_if (not (all (owns user_id rows) (map (λ v. v.id) values))) value_error
  modify (λ t. record t { rows = write_positions user_id values t.rows })

-- `shortcut.value or value`: a stored value of 0 counts as none
unfoldable pub value_or : Option ℤ → Option ℤ → Option ℤ
value_or none value = value
value_or (some v) value = if eqb_ℤ v (pos 0) then value else some v

-- the cost that `apply_cost_shortcut` adds; `cost_shortcut` has looked the row up for the user
unfoldable pub cost_of_shortcut : CostShortcut → Option ℤ → ℕ → Option Cost
unfolding value_or
cost_of_shortcut x value today =
    Option.map {A = ℤ}
      (λ v. record {
        name = x.name;
        value = v;
        timestamp = today;
        user_id = x.user_id;
        category_id = x.category_id;
        currency_id = x.currency_id;
      })
      (value_or x.value value)

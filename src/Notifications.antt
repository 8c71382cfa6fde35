-- ===== src/Notifications.antt =====
-- The inbox of src/application/notifications.py: topics of notifications per user in the cache.
pub mod Inbox
mod Tests
use family_assistant_kernel.Prelude.{
  ℕ, ◌+◌, ◌==◌, String, Option, none, some, List, [], ◌∷◌, ◌++◌, if◌then◌else◌, length,
}

pub data Topic : Type 0 where
  big_costs incomes : Topic

pub record Notification : Type 0 where
  pub message : String
  pub level : String

pub record Notifications : Type 0 where
  pub big_costs : List Notification
  pub incomes : List Notification

-- the namespace `fambb_notifications`, under the id of the user
abbrev pub Cache : Type 0
Cache = ℕ → Option Notifications

abbrev pub no_notifications : Notifications
no_notifications = record { big_costs = []; incomes = [] }

-- `NotFoundError` of the cache stands for no notifications
abbrev pub or_empty : Option Notifications → Notifications
or_empty none = no_notifications
or_empty (some n) = n

unfoldable pub append_to : Topic → Notification → Notifications → Notifications
append_to big_costs x n = record n { big_costs = n.big_costs ++ x ∷ [] }
append_to incomes x n = record n { incomes = n.incomes ++ x ∷ [] }

unfoldable pub set : ℕ → Notifications → Cache → Cache
set user_id n c k = if k == user_id then some n else c k

unfoldable pub delete : ℕ → Cache → Cache
delete user_id c k = if k == user_id then none else c k

-- the end of `notify`, with what its `get` read
unfoldable pub write_notification : ℕ → Topic → Notification → Option Notifications → Cache → Cache
unfolding append_to set
write_notification user_id topic x read c = set user_id (append_to topic x (or_empty read)) c

unfoldable pub notify : ℕ → Topic → Notification → Cache → Cache
unfolding write_notification
notify user_id topic x c = write_notification user_id topic x (c user_id) c

unfoldable pub user_notifications_count : ℕ → Cache → ℕ
user_notifications_count user_id c =
    length (or_empty (c user_id)).big_costs + length (or_empty (c user_id)).incomes

abbrev pub taken : Option Notifications → ℕ → Cache → Notifications × Cache
taken none user_id c = (no_notifications, c)
taken (some n) user_id c = (n, delete user_id c)

unfoldable pub user_notifications : ℕ → Cache → Notifications × Cache
unfolding delete
user_notifications user_id c = taken (c user_id) user_id c

-- ===== src/Notifications/Tests.antt =====
-- Two messages for two users.
use family_assistant_kernel.Prelude.{◌≡◌, none, List, [], ◌∷◌, ◌++◌, refl}
use family_assistant_kernel.Notifications.{
  big_costs, incomes, Notification, Cache, or_empty, user_notifications,
}
use family_assistant_kernel.Notifications.Inbox.{
  Message, send_all, in_topic, sent, user_notifications-send_all,
}

abbrev hello : Notification
hello = record { message = "hello"; level = "info" }

abbrev messages : List Message
messages =
    record { user_id = 1; topic = big_costs; notification = hello }
    ∷ record { user_id = 2; topic = incomes; notification = hello }
    ∷ []

abbrev nothing : Cache
nothing k = none

user_notifications-send_all_example :
    (in_topic big_costs (user_notifications 1 (send_all messages nothing)).0
      ≡ in_topic big_costs (or_empty (nothing 1)) ++ sent 1 big_costs messages)
    × ((user_notifications 1 (send_all messages nothing)).1 1 ≡ none)
user_notifications-send_all_example = user_notifications-send_all big_costs 1 messages nothing

received : sent 1 big_costs messages ≡ hello ∷ []
received = refl

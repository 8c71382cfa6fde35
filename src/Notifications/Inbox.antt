-- ===== src/Notifications/Inbox.antt =====
-- What a user receives of what was sent.
use family_assistant_kernel.Prelude.{
  ℕ, ◌≡◌, refl, sym, ◌∙◌, ap, Bool, true, false, ◌&&◌, ◌++◌, append_assoc, append_nil, ◌==◌,
  ==_refl, Option, none, some, List, [], ◌∷◌, if◌then◌else◌, arith, Bool-cases, inl, inr,
}
use family_assistant_kernel.Notifications.{
  Topic, big_costs, incomes, Notification, Notifications, Cache, or_empty, append_to, set, delete,
  write_notification, notify, taken, user_notifications,
}

pub record Message : Type 0 where
  pub user_id : ℕ
  pub topic : Topic
  pub notification : Notification

-- messages sent one after the other
unfoldable pub send_all : List Message → Cache → Cache
send_all [] c = c
send_all (m ∷ ms) c = send_all ms (notify m.user_id m.topic m.notification c)

-- the notifications of a topic
abbrev pub in_topic : Topic → Notifications → List Notification
in_topic big_costs n = n.big_costs
in_topic incomes n = n.incomes

abbrev pub is_topic : Topic → Topic → Bool
is_topic big_costs big_costs = true
is_topic incomes incomes = true
is_topic big_costs incomes = false
is_topic incomes big_costs = false

-- what was sent to the user under the topic, in the order of sending, without the cache
abbrev pub sent : ℕ → Topic → List Message → List Notification
sent user_id topic [] = []
sent user_id topic (m ∷ ms) =
    let rest = sent user_id topic ms in
    if (user_id == m.user_id) && is_topic topic m.topic then m.notification ∷ rest else rest

in_topic-append_to :
    (p t : Topic) (x : Notification) (n : Notifications)
    → in_topic p (append_to t x n) ≡ (if is_topic p t then in_topic p n ++ x ∷ [] else in_topic p n)
unfolding append_to
in_topic-append_to big_costs big_costs x n = refl
in_topic-append_to big_costs incomes x n = refl
in_topic-append_to incomes big_costs x n = refl
in_topic-append_to incomes incomes x n = refl

or_empty-notify :
    (user_id : ℕ) (m : Message) (c : Cache)
    → or_empty (notify m.user_id m.topic m.notification c user_id) ≡ (
        if user_id == m.user_id
        then append_to m.topic m.notification (or_empty (c user_id))
        else or_empty (c user_id))
unfolding notify write_notification set
or_empty-notify user_id m c = elim (Bool-cases (user_id == m.user_id)) [
  | inl same ↦
      let equal : m.user_id ≡ user_id = grind (arith, same) in
      rw same (ap (λ (k : ℕ). append_to m.topic m.notification (or_empty (c k))) equal)
  | inr other ↦ rw other refl
]

in_topic-notify :
    (p : Topic) (user_id : ℕ) (m : Message) (ms : List Message) (c : Cache)
    → in_topic p (or_empty (notify m.user_id m.topic m.notification c user_id)) ++ sent user_id p ms
      ≡ in_topic p (or_empty (c user_id)) ++ sent user_id p (m ∷ ms)
in_topic-notify p user_id m ms c =
    ap (λ (n : Notifications). in_topic p n ++ sent user_id p ms) (or_empty-notify user_id m c)
    ∙ elim (Bool-cases (user_id == m.user_id)) [
      | inl same ↦ rw same (
          ap (λ l. l ++ sent user_id p ms)
            (in_topic-append_to p m.topic m.notification (or_empty (c user_id)))
          ∙ elim (Bool-cases (is_topic p m.topic)) [
            | inl e ↦ rw e (append_assoc _ (m.notification ∷ []) (sent user_id p ms))
            | inr e ↦ rw e refl
          ])
      | inr other ↦ rw other refl
    ]

in_topic-send_all :
    (p : Topic) (user_id : ℕ) (ms : List Message) (c : Cache)
    → in_topic p (or_empty (send_all ms c user_id))
      ≡ in_topic p (or_empty (c user_id)) ++ sent user_id p ms
unfolding send_all
in_topic-send_all p user_id [] c = sym (append_nil _)
in_topic-send_all p user_id (m ∷ ms) c =
    in_topic-send_all p user_id ms (notify m.user_id m.topic m.notification c)
    ∙ in_topic-notify p user_id m ms c

taken-or_empty :
    (o : Option Notifications) (user_id : ℕ) (c : Cache) → (taken o user_id c).0 ≡ or_empty o
taken-or_empty none user_id c = refl
taken-or_empty (some n) user_id c = refl

taken-gone :
    (o : Option Notifications) (user_id : ℕ) (c : Cache)
    → c user_id ≡ o
    → (taken o user_id c).1 user_id ≡ none
unfolding delete
taken-gone none user_id c h = h
taken-gone (some n) user_id c h = rw (==_refl user_id) refl

-- When messages were sent one after the other, the user receives under each topic what was there before
-- and behind it exactly the own messages of the topic, in the order of sending, and the inbox is empty
-- afterwards.
pub user_notifications-send_all :
    (topic : Topic) (user_id : ℕ) (ms : List Message) (c : Cache)
    → (in_topic topic (user_notifications user_id (send_all ms c)).0
        ≡ in_topic topic (or_empty (c user_id)) ++ sent user_id topic ms)
      × ((user_notifications user_id (send_all ms c)).1 user_id ≡ none)
unfolding user_notifications
user_notifications-send_all topic user_id ms c = (
  ap (in_topic topic) (taken-or_empty (send_all ms c user_id) user_id (send_all ms c))
      ∙ in_topic-send_all topic user_id ms c,
  taken-gone (send_all ms c user_id) user_id (send_all ms c) refl,
)

-- ===== src/News/Preferences.antt =====
-- The learning of preferences: src/application/scheduler/jobs/kernel/preferences.py with the rules of
-- src/domain/news/entities.py. What the agent answers is a parameter, none when it raises. A stored
-- profile is the JSON object that was read, and the times of the signals, which the database sets, are
-- read by their keys. Whether the text of a
-- profile fits the 10000 characters of its column is a parameter as well.
use family_assistant_kernel.Prelude.{
  ℕ, ◌+◌, ◌-◌, Bool, true, false, not, ◌&&◌, ltb, leb, ◌==◌, str_eq, String, Option, none, some,
  List, [], ◌∷◌, ◌++◌, if◌then◌else◌, select, any, map,
}
use family_assistant_kernel.Prelude.Int.{ℤ, pos, negsuc, ◌+ℤ◌}
use family_assistant_kernel.Exec.{ok, err, database, Exec, ◌>>◌}
use family_assistant_kernel.Storage.Order.{sort_by}
use family_assistant_kernel.News.Items.{
  NewsItem, DeletedSignal, News, day_of, owned_by, clear_ai_analysis_flag,
}

pub record Deleted : Type 0 where
  pub title : String
  pub feedback : Option String
  pub deleted_at : Option ℕ

pub record PreferenceRules : Type 0 where
  pub skip : List String
  pub high_priority : List String
  pub recently_deleted : List Deleted

-- no profile, one that is no JSON, and an object with the keys that it has
pub data Profile : Type 0 where
  no_profile prose : Profile
  stored :
      (skip high_priority boost : Option (List String))
      (recently_deleted deleted : Option (List Deleted))
      → Profile

abbrev pub no_rules : PreferenceRules
no_rules = record { skip = []; high_priority = []; recently_deleted = [] }

abbrev pub get_key : {A : Type 0} → Option (List A) → List A → List A
get_key none default = default
get_key (some xs) default = xs

unfoldable pub from_stored : Profile → PreferenceRules
from_stored no_profile = no_rules
from_stored prose = no_rules
from_stored (stored skip high_priority boost recently_deleted deleted) = record {
  skip = get_key skip [];
  high_priority = get_key high_priority (get_key boost []);
  recently_deleted = get_key recently_deleted (get_key deleted []);
}

unfoldable pub to_json : PreferenceRules → Profile
to_json r = stored (some r.skip) (some r.high_priority) none (some r.recently_deleted) none

abbrev pub mem : String → List String → Bool
mem x xs = any (str_eq x) xs

-- `list(dict.fromkeys(…))`: the first of equal texts stays
unfoldable pub from_keys : List String → List String → List String
from_keys seen [] = []
from_keys seen (x ∷ xs) =
    let new = from_keys (x ∷ seen) xs in
    let old = from_keys seen xs in if mem x seen then old else x ∷ new

unfoldable pub merge_rules : PreferenceRules → PreferenceRules → PreferenceRules
unfolding from_keys
merge_rules existing new = record {
  skip = from_keys [] (existing.skip ++ new.skip);
  high_priority = from_keys [] (existing.high_priority ++ new.high_priority);
  recently_deleted = [];
}

abbrev pub is_retained : ℕ → Option ℕ → Bool
is_retained cutoff none = true
is_retained cutoff (some deleted_at) = leb cutoff deleted_at

-- the loop over the new signals
unfoldable pub append_new : List String → List Deleted → List Deleted → List Deleted
append_new seen retained [] = retained
append_new seen retained (entry ∷ new_signals) =
    let known = append_new seen retained new_signals in
    let added = append_new (entry.title ∷ seen) (retained ++ entry ∷ []) new_signals in
    if mem entry.title seen then known else added

abbrev pub titles : List Deleted → List String
titles entries = map (λ e. e.title) entries

unfoldable pub build_recently_deleted : ℕ → List Deleted → List Deleted → List Deleted
unfolding append_new
build_recently_deleted today existing new_signals =
    let retained = select (λ e. is_retained (today - 30) e.deleted_at) existing in
    append_new (titles retained) retained new_signals

-- SIGNAL_WEIGHTS of src/domain/news/signals.py, for a reaction
unfoldable pub reaction_weight : Option String → ℤ
reaction_weight none = pos 0
reaction_weight (some r) =
    if str_eq r "🔥"
    then pos 10
    else (if str_eq r "👎"
        then negsuc 9
        else (if str_eq r "👀" then pos 1 else (if str_eq r "😐" then negsuc 0 else pos 0)))

-- a text that is missing or empty is falsy
abbrev pub is_given : Option String → Bool
is_given none = false
is_given (some text) = not (str_eq text "")

unfoldable pub item_weight : NewsItem → ℤ
unfolding reaction_weight
item_weight i =
    reaction_weight i.reaction
    +ℤ (if i.bookmarked then pos 5 else pos 0)
    +ℤ (if is_given i.human_feedback then pos 8 else pos 0)

unfoldable pub signal_weight : DeletedSignal → ℤ
signal_weight s =
    if str_eq s.source_type "user" && is_given s.human_feedback
    then negsuc 14
    else (if str_eq s.source_type "kernel" then negsuc 2 else negsuc 4)

-- what the agent is shown of an item or a signal
pub record Reaction : Type 0 where
  pub title : String
  pub reaction : Option String
  pub bookmarked : Bool
  pub feedback : Option String
  pub weight : ℤ

abbrev pub abs : ℤ → ℕ
abs (pos n) = n
abs (negsuc n) = n + 1

-- `sort(key=abs(weight), reverse=True)`
abbrev pub heavier : Reaction → Reaction → Bool
heavier r s = ltb (abs s.weight) (abs r.weight)

-- `recent_reactions` and `get_deleted_signals` of src/infrastructure/repositories/news.py
unfoldable pub recent_reactions : ℕ → ℕ → News → List (ℕ × NewsItem)
unfolding owned_by day_of
recent_reactions user_id since s =
    sort_by (λ r q. ltb q.1.created_at r.1.created_at)
      (select
        (λ r. owned_by user_id r.1 && (r.1.needs_ai_analysis && leb since (day_of r.1.created_at)))
        s.items.rows)

unfoldable pub get_deleted_signals : (ℕ → ℕ) → ℕ → News → List (ℕ × DeletedSignal)
get_deleted_signals created_at user_id s =
    sort_by (λ r q. ltb (created_at q.0) (created_at r.0))
      (select (λ r. r.1.user_id == user_id) s.signals.rows)

-- `delete … where id in (ids)`
unfoldable pub delete_signals : List ℕ → News → News
delete_signals ids s = record s {
  signals = record s.signals { rows = select (λ r. not (any (λ i. r.0 == i) ids)) s.signals.rows };
}

abbrev pub deleted_of : (ℕ → ℕ) → ℕ × DeletedSignal → Deleted
deleted_of created_at (id, s) = record {
  title = s.title;
  feedback = s.human_feedback;
  deleted_at = some (day_of (created_at id));
}

pub record Learner : Type 0 where
  pub news : News
  pub analyze_preferences : Bool
  pub news_preference_profile : Profile

abbrev pub reaction_of_item : NewsItem → Reaction
reaction_of_item i = record {
  title = i.title;
  reaction = i.reaction;
  bookmarked = i.bookmarked;
  feedback = i.human_feedback;
  weight = item_weight i;
}

abbrev pub reaction_of_signal : DeletedSignal → Reaction
reaction_of_signal s = record {
  title = s.title;
  reaction = none;
  bookmarked = false;
  feedback = s.human_feedback;
  weight = signal_weight s;
}

abbrev pub reactions_of : List (ℕ × NewsItem) → List (ℕ × DeletedSignal) → List Reaction
reactions_of items signals =
    sort_by heavier
      (map (λ r. reaction_of_item r.1) items ++ map (λ r. reaction_of_signal r.1) signals)

module _ (agent : List Reaction → PreferenceRules → List Deleted → Option PreferenceRules)
    (fits : Profile → Bool) (created_at : ℕ → ℕ) (today user_id : ℕ) where
  -- the first commit, which the schema refuses when the profile does not fit its column
  abbrev pub save_profile : Profile → Exec Learner Unit
  save_profile profile st =
      if fits profile
      then (ok tt, record st { news_preference_profile = profile })
      else (err database, st)

  abbrev pub clear_flags : List (ℕ × NewsItem) → Exec Learner Unit
  clear_flags items st =
      (ok tt, record st { news = clear_ai_analysis_flag (map (λ r. r.0) items) st.news })

  abbrev pub consume : List (ℕ × DeletedSignal) → Exec Learner Unit
  consume signals st = (ok tt, record st { news = delete_signals (map (λ r. r.0) signals) st.news })

  -- What is written when the agent has answered: three commits, one after the other.
  abbrev pub save_rules :
      List (ℕ × NewsItem)
      → List (ℕ × DeletedSignal)
      → List Deleted
      → Option PreferenceRules
      → Exec Learner Unit
  save_rules items signals recently_deleted none st = (err database, st)
  save_rules items signals recently_deleted (some output) st =
      (save_profile (
            to_json (record (merge_rules (from_stored st.news_preference_profile) output) {
              recently_deleted = recently_deleted;
            }))
          >> clear_flags items
          >> consume signals)
        st

  abbrev pub learn_from : List (ℕ × NewsItem) → List (ℕ × DeletedSignal) → Exec Learner Unit
  learn_from [] [] st = (ok tt, st)
  learn_from items signals st =
      let existing_rules = from_stored st.news_preference_profile in
      let recently_deleted =
        build_recently_deleted today existing_rules.recently_deleted
          (map (deleted_of created_at) signals) in
      save_rules items signals recently_deleted
        (agent (reactions_of items signals) existing_rules recently_deleted) st

  unfoldable pub learn_for_user : Exec Learner Unit
  unfolding from_stored to_json merge_rules build_recently_deleted delete_signals recent_reactions
      get_deleted_signals
  learn_for_user st =
      if st.analyze_preferences
      then learn_from (recent_reactions user_id (today - 14) st.news)
          (get_deleted_signals created_at user_id st.news) st
      else (ok tt, st)

-- ===== src/News/Tests.antt =====
-- The news on a small table.
use family_assistant_kernel.Prelude.{◌≡◌, refl, true, false, none, some, List, [], ◌∷◌}
use family_assistant_kernel.Storage.{find}
use family_assistant_kernel.News.Items.{NewsItem, News}
use family_assistant_kernel.News.Collector.{IsKept, IsLeft, collect_for, collect_for-find}
use family_assistant_kernel.News.Seen.{
  ArticleCandidate, Key, Entries, NoneOf, filter_cached, filter_cached-again,
}
use family_assistant_kernel.Prelude.{Option, Bool, arith}
use family_assistant_kernel.Prelude.Int.{pos, negsuc}
use family_assistant_kernel.Exec.{ok}
use family_assistant_kernel.News.Seen.{survivors}
use family_assistant_kernel.News.Pipeline.{Run, Backend, ingest_articles}
use family_assistant_kernel.News.Ingestion.{ingest_articles-again}
use family_assistant_kernel.News.Preferences.{
  Deleted, PreferenceRules, no_rules, to_json, merge_rules, Reaction, Learner,
}
use family_assistant_kernel.News.Rules.{IsMerged, merge_rules-IsMerged}

abbrev old_item : NewsItem
old_item = record {
  user_id = some 1;
  title = "old";
  description = "…";
  sources = none;
  article_urls = some ("a" ∷ []);
  bookmarked = false;
  reaction = none;
  human_feedback = none;
  needs_ai_analysis = false;
  created_at = 1000;
}

abbrev shelf : News
shelf = record {
  items = record {
    rows = (1, old_item) ∷ (2, record old_item { bookmarked = true }) ∷ [];
    next = 3;
  };
  signals = record { rows = []; next = 1 };
}

abbrev articles : List ArticleCandidate
articles =
    record { title = "A"; url = "a"; content = ""; extra_urls = [] }
    ∷ record { title = "B"; url = "b"; content = "…"; extra_urls = [] }
    ∷ []

collect_for-find_example :
    (IsKept 1 10 old_item → find 1 (collect_for 1 10 shelf).1.items.rows ≡ some old_item)
    × (IsLeft 1 10 old_item → find 1 (collect_for 1 10 shelf).1.items.rows ≡ none)
unfolding find
collect_for-find_example = collect_for-find 1 10 1 old_item shelf (refl, (refl, tt)) refl

abbrev works : Key → Bool
works k = false

-- "a" is in the cache and expires, "b" is let through
abbrev warm : Entries
warm = ((1, "a"), 5100) ∷ []

filter_cached-again_example :
    NoneOf
      (filter_cached works works 5000 1 articles warm).0
      (filter_cached works works 9000 1 articles
        (filter_cached works works 5000 1 articles warm).1).0
filter_cached-again_example =
    filter_cached-again works works works works 5000 9000 1 articles articles warm (λ k. refl)
      (λ k. refl) (omega arith)

-- the filter agent answers odd indices, the grouping agent raises
abbrev careless : Run
careless = record {
  get_fails = works;
  set_fails = works;
  news_filter_agent = λ cs. some (pos 7 ∷ negsuc 0 ∷ pos 1 ∷ pos 1 ∷ []);
  grouping_agent = λ cs. none;
  now = 5000;
}

abbrev broken : Run
broken = record careless { news_filter_agent = λ cs. none }

abbrev backend : Backend
backend = record { seen = warm; news = shelf; users = 1 ∷ [] }

abbrev next_day : Run
next_day = record broken { now = 6440 }

abbrev b_alone : List ArticleCandidate
b_alone = record { title = "B"; url = "b"; content = "…"; extra_urls = [] } ∷ []

ingest_articles-again_example :
    ingest_articles next_day b_alone "feed" 1 (ingest_articles careless articles "feed" 1 backend).1
    ≡ (ok none, (ingest_articles careless articles "feed" 1 backend).1)
unfolding survivors
ingest_articles-again_example =
    ingest_articles-again careless next_day "feed" 1 articles b_alone backend (λ k. refl)
      (λ k. refl) (omega arith) (refl, tt)

abbrev own_rules : PreferenceRules
own_rules = record {
  skip = "sport" ∷ "crypto" ∷ [];
  high_priority = "science" ∷ [];
  recently_deleted = record { title = "gone"; feedback = none; deleted_at = some 3 } ∷ [];
}

merge_rules-IsMerged_example :
    IsMerged own_rules.skip no_rules.skip (merge_rules own_rules no_rules).skip
    × IsMerged own_rules.high_priority no_rules.high_priority
        (merge_rules own_rules no_rules).high_priority
merge_rules-IsMerged_example = merge_rules-IsMerged own_rules no_rules

abbrev learner : Learner
learner = record {
  news = record shelf {
    signals = record {
      rows =
          (
            1,
            record {
              user_id = 1;
              title = "match";
              description = "…";
              human_feedback = some "no sport";
              sources = none;
              source_type = "user";
            },
          )
          ∷ (
            2,
            record {
              user_id = 1;
              title = "match";
              description = "…";
              human_feedback = none;
              sources = none;
              source_type = "kernel";
            },
          )
          ∷ [];
      next = 3;
    };
  };
  analyze_preferences = true;
  news_preference_profile = to_json own_rules;
}

abbrev learned_rules : List Reaction → PreferenceRules → List Deleted → Option PreferenceRules
learned_rules reactions existing recently_deleted = some own_rules

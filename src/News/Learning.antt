-- ===== src/News/Learning.antt =====
-- What `_learn_for_user` (src/application/scheduler/jobs/kernel/preferences.py) does with the signals.
use family_assistant_kernel.Prelude.{ℕ, ◌≡◌, Bool, Option, List, [], map}
use family_assistant_kernel.Exec.{Result, ok, err}
use family_assistant_kernel.News.Items.{DeletedSignal, News}
use family_assistant_kernel.News.Preferences.{
  Deleted, PreferenceRules, Profile, from_stored, Reaction, get_deleted_signals, deleted_of,
  Learner,
}
use family_assistant_kernel.News.Rules.{Covers}

module _ {A : Type 0} where
  abbrev ids : List (ℕ × A) → List ℕ
  ids rows = map (λ r. r.0) rows

module _ (agent : List Reaction → PreferenceRules → List Deleted → Option PreferenceRules)
    (fits : Profile → Bool) (created_at : ℕ → ℕ) (today user_id : ℕ) where
  -- A run that returned leaves no signal of the user and has every title that was deleted in the
  -- profile; a run that raised leaves everything as it was.
  abbrev pub Learned : Learner → Result {0} Unit × Learner → Type 0
  Learned st (err e, st') = st' ≡ st
  Learned st (ok tt, st') =
      (get_deleted_signals created_at user_id st'.news ≡ [])
      × Covers (map (deleted_of created_at) (get_deleted_signals created_at user_id st.news))
          (from_stored st'.news_preference_profile).recently_deleted

  abbrev signals_of : Learner → List (ℕ × DeletedSignal)
  signals_of st = get_deleted_signals created_at user_id st.news

-- ===== src/News/Seen.antt =====
-- The first level of the pipeline, `_filter_cached` in src/application/news.py. The cache holds the
-- keys that were set, each until it expires; a key is the user's id and the URL. Which calls of `get` and
-- `set` fail is a parameter; a `set` that fails is logged and skipped. The calls of a run have one time, in
-- minutes, and the eviction of a key before it expires is a `get` that fails.
use mathlib.Core.Path.{subst}
use family_assistant_kernel.Prelude.{
  ℕ, ◌+◌, ◌*◌, ◌<◌, ltb, not, ◌≡◌, refl, sym, Bool, true, false, ◌&&◌, ◌==◌, ==_refl, str_eq,
  eq_iff, String, List, [], ◌∷◌, if◌then◌else◌, any, arith, Bool-cases, inl, inr, All,
}

pub record ArticleCandidate : Type 0 where
  pub title : String
  pub url : String
  pub content : String
  pub extra_urls : List String

abbrev pub Key : Type 0
Key = ℕ × String

unfoldable pub same_key : Key → Key → Bool
same_key (u, x) (v, y) = (u == v) && str_eq x y

-- the keys that were set, each with the time when it expires
abbrev pub Entries : Type 0
Entries = List (Key × ℕ)

unfoldable pub is_cached : ℕ → Key → Entries → Bool
unfolding same_key
is_cached now k seen = any (λ e. same_key k e.0 && ltb now e.1) seen

-- `_CACHE_TTL`, a week
abbrev pub cache_ttl : ℕ
cache_ttl = 7 * 24 * 60

-- The survivors and the keys to cache, which the loop over the candidates collects. A `get` that fails
-- for whatever reason is a miss.
module _ (get_fails : Key → Bool) (now : ℕ) where
  abbrev pub is_hit : Key → Entries → Bool
  unfolding is_cached
  is_hit k seen = not (get_fails k) && is_cached now k seen

  unfoldable pub survivors : ℕ → List ArticleCandidate → Entries → List ArticleCandidate
  unfolding is_hit
  survivors user_id [] seen = []
  survivors user_id (c ∷ cs) seen =
      let rest = survivors user_id cs seen in
      if is_hit (user_id, c.url) seen then rest else c ∷ rest

unfoldable pub cache_all : (Key → Bool) → ℕ → ℕ → List ArticleCandidate → Entries → Entries
cache_all set_fails now user_id [] seen = seen
cache_all set_fails now user_id (c ∷ cs) seen =
    cache_all set_fails now user_id cs
      (if set_fails (user_id, c.url) then seen else ((user_id, c.url), now + cache_ttl) ∷ seen)

unfoldable pub filter_cached :
    (Key → Bool)
    → (Key → Bool)
    → ℕ
    → ℕ
    → List ArticleCandidate
    → Entries
    → List ArticleCandidate × Entries
unfolding survivors cache_all
filter_cached get_fails set_fails now user_id candidates seen =
    let new = survivors get_fails now user_id candidates seen in
    (new, cache_all set_fails now user_id new seen)

same_key_refl : (k : Key) → same_key k k ≡ true
unfolding same_key
same_key_refl (u, x) =
    let same : str_eq x x ≡ true = (eq_iff x x).1 refl in rw (==_refl u, same) refl

-- the URL is one of the candidates'
abbrev pub has_url : String → List ArticleCandidate → Bool
has_url url cs = any (λ c. str_eq url c.url) cs

module _ (set_fails : Key → Bool) (works : (k : Key) → set_fails k ≡ false) (now : ℕ) where
  cache_all-step :
      (user_id : ℕ) (c : ArticleCandidate) (cs : List ArticleCandidate) (seen : Entries)
      → cache_all set_fails now user_id cs (((user_id, c.url), now + cache_ttl) ∷ seen)
        ≡ cache_all set_fails now user_id (c ∷ cs) seen
  unfolding cache_all
  cache_all-step user_id c cs seen = rw (works (user_id, c.url)) refl

  module _ (later : ℕ) where
    -- a key that is cached stays cached
    cache_all_keeps :
        (user_id : ℕ) (k : Key) (cs : List ArticleCandidate) (seen : Entries)
        → is_cached later k seen ≡ true
        → is_cached later k (cache_all set_fails now user_id cs seen) ≡ true
    unfolding cache_all is_cached
    cache_all_keeps user_id k [] seen h = h
    cache_all_keeps user_id k (c ∷ cs) seen h =
        cache_all_keeps user_id k cs _ (kept (set_fails (user_id, c.url)))
      where
        kept :
            (b : Bool)
            → is_cached later k (if b then seen else ((user_id, c.url), now + cache_ttl) ∷ seen)
              ≡ true
        kept true = h
        kept false = ground (arith, h)

    new-is_cached :
        (user_id : ℕ) (c : ArticleCandidate) (seen : Entries)
        → later < now + cache_ttl
        → is_cached later (user_id, c.url) (((user_id, c.url), now + cache_ttl) ∷ seen) ≡ true
    unfolding is_cached
    new-is_cached user_id c seen soon =
        let early : ltb later (now + cache_ttl) ≡ true = ground (arith, soon) in
        rw (same_key_refl (user_id, c.url), early) refl

    -- every URL that was cached is there until it expires
    cache_all-is_cached :
        (user_id : ℕ) (url : String) (cs : List ArticleCandidate) (seen : Entries)
        → later < now + cache_ttl
        → has_url url cs ≡ true
        → is_cached later (user_id, url) (cache_all set_fails now user_id cs seen) ≡ true
    cache_all-is_cached user_id url [] seen soon h = let bad : ⊥ = ground (arith, h) in elim bad [ ]
    cache_all-is_cached user_id url (c ∷ cs) seen soon h = elim (Bool-cases (str_eq url c.url)) [
      | inl same ↦
          subst (λ (x : Entries). is_cached later (user_id, url) x ≡ true)
            (cache_all-step user_id c cs seen)
            (cache_all_keeps user_id (user_id, url) cs _
              (subst
                (λ (u : String).
                  is_cached later (user_id, u) (((user_id, c.url), now + cache_ttl) ∷ seen) ≡ true)
                (sym ((eq_iff url c.url).0 same)) (new-is_cached user_id c seen soon)))
      | inr other ↦
          subst (λ (x : Entries). is_cached later (user_id, url) x ≡ true)
            (cache_all-step user_id c cs seen)
            (cache_all-is_cached user_id url cs _ soon (ground (arith, h, other)))
    ]

-- no candidate with the URL of one of the first list
abbrev pub NoneOf : List ArticleCandidate → List ArticleCandidate → Type 0
NoneOf first cs = All (λ c. has_url c.url first ≡ false) cs

survivors-NoneOf :
    (get_fails : Key → Bool) (later user_id : ℕ) (first cs : List ArticleCandidate) (seen : Entries)
    → ((k : Key) → get_fails k ≡ false)
    → ((url : String) → has_url url first ≡ true → is_cached later (user_id, url) seen ≡ true)
    → NoneOf first (survivors get_fails later user_id cs seen)
unfolding survivors is_hit
survivors-NoneOf get_fails later user_id first [] seen works h = tt
survivors-NoneOf get_fails later user_id first (c ∷ cs) seen works h =
    let rest = survivors-NoneOf get_fails later user_id first cs seen works h in
    elim (Bool-cases (has_url c.url first)) [
      | inl known ↦ rw (works (user_id, c.url), h c.url known) rest
      | inr new ↦ either (is_hit get_fails later (user_id, c.url) seen) new rest
    ]
  where
    either :
        (b : Bool)
        → has_url c.url first ≡ false
        → NoneOf first (survivors get_fails later user_id cs seen)
        → NoneOf first (
            if b
            then survivors get_fails later user_id cs seen
            else c ∷ survivors get_fails later user_id cs seen)
    either true new rest = rest
    either false new rest = (new, rest)

-- When every `set` of a run works and every `get` of a run that starts less than a week later, the later
-- run lets no candidate through whose URL the earlier one let through, whatever was in the cache.
pub filter_cached-again :
    (get_fails set_fails get_fails' set_fails' : Key → Bool) (now later user_id : ℕ)
    (cs cs' : List ArticleCandidate) (seen : Entries)
    → ((k : Key) → set_fails k ≡ false)
    → ((k : Key) → get_fails' k ≡ false)
    → later < now + cache_ttl
    → let first = filter_cached get_fails set_fails now user_id cs seen in
      NoneOf first.0 (filter_cached get_fails' set_fails' later user_id cs' first.1).0
unfolding filter_cached
filter_cached-again get_fails set_fails get_fails' set_fails' now later user_id cs cs' seen sets
      gets soon =
    survivors-NoneOf get_fails' later user_id (survivors get_fails now user_id cs seen) cs' _ gets
      (λ url h.
        cache_all-is_cached set_fails sets now later user_id url
          (survivors get_fails now user_id cs seen) seen soon h)

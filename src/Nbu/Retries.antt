-- ===== src/Nbu/Retries.antt =====
-- The attempts of `_fetch_single_rate` (src/integrations/nbu.py).
use family_assistant_kernel.Prelude.{ℕ, ◌<◌, ◌≡◌, ◌⊎◌, true, String, Option, List, [], ◌∷◌, length}
use family_assistant_kernel.Nbu.{
  Settings, Reply, body, timeout, http_status, failure, Client, Action, requested, slept,
  fetch_from,
}

-- The answers after which the docstring and the log promise another attempt.
abbrev pub IsRetried : {Item : Type 0} → Reply Item → Type 0
IsRetried (body items) = ⊥
IsRetried timeout = Unit
IsRetried (http_status code header) = (code ≡ 429) ⊎ (code ≡ 504)
IsRetried failure = ⊥

-- requests with one of the delays between each two of them, on top of a trace
abbrev pub attempts : List ℕ → List Action → List Action
attempts [] trace = requested ∷ trace
attempts (delay ∷ delays) trace = attempts delays (slept delay ∷ requested ∷ trace)

-- How the client moved: at most so many requests, a delay between each two and none after the last.
abbrev pub Moved : ℕ → Client → Client → Type 0
Moved most c c' =
    (delays : List ℕ) × (length delays < most)
    × (c'.trace ≡ attempts delays c.trace)
    × (c'.rate_limit_event ≡ true)

module _ {Item Rate : Type 0} (cc_of : Item → Option String) (model_validate : Item → Option Rate)
    (float : String → Option ℕ) (cfg : Settings) (reply : ℕ → Reply Item) where
  abbrev loop : String → ℕ → ℕ → Client → Option Rate × Client
  loop = fetch_from cc_of model_validate float cfg reply

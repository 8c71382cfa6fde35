-- ===== src/Nbu/Tests.antt =====
-- A client with three retries, a server that limits twice, and a loop over two dates.
use mathlib.Core.List.{Permᴰ}
use mathlib.Core.List.Permᴰ
use family_assistant_kernel.Prelude.{
  ℕ, zero, suc, ◌≡◌, refl, true, Option, some, List, [], ◌∷◌, ◌++◌, String, arith,
}
use family_assistant_kernel.Nbu.{
  Settings, Reply, body, timeout, http_status, Client, requested, slept, fetch_single_rate,
}
use family_assistant_kernel.Nbu.Rounds.{fetch_rates, fetch_rates-yields}

abbrev defaults : Settings
defaults = record { max_concurrent = 5; retry_delay = 3000; max_retries = 3; batch_delay = 1000 }

abbrev fresh : Client
fresh = record { rate_limit_event = true; trace = [] }

abbrev Item : Type 0
Item = String × ℕ

abbrev cc_of : Item → Option String
cc_of item = some item.0

abbrev rate_of : Item → Option ℕ
rate_of item = some item.1

abbrev float : String → Option ℕ
float text = some 500

abbrev reply : ℕ → Reply Item
reply zero = http_status 429 (some "0.5")
reply (suc zero) = timeout
reply (suc (suc n)) = body (some (("EUR", 49) ∷ ("USD", 42) ∷ []))

usd : fetch_single_rate cc_of rate_of float defaults reply "USD" fresh ≡ (
  some 42,
  record {
    rate_limit_event = true;
    trace = requested ∷ slept 3000 ∷ requested ∷ slept 500 ∷ requested ∷ [];
  },
)
unfolding fetch_single_rate
usd = refl

-- two tasks are done in a round
abbrev two_done : ℕ → List ℕ → List ℕ × List ℕ
two_done r [] = ([], [])
two_done r (t ∷ []) = (t ∷ [], [])
two_done r (t ∷ u ∷ tasks) = (u ∷ t ∷ [], tasks)

two_done-parts :
    (r : ℕ) (tasks : List ℕ) → Permᴰ ((two_done r tasks).0 ++ (two_done r tasks).1) tasks
two_done-parts r [] = Permᴰ.nil
two_done-parts r (t ∷ []) = Permᴰ.refl _
two_done-parts r (t ∷ u ∷ tasks) = Permᴰ.swap refl refl

fetch_rates-yields_example :
    ((fetch_rates defaults suc two_done 1 0 (7 ∷ 8 ∷ [])).tasks ≡ [])
    × Permᴰ (fetch_rates defaults suc two_done 1 0 (7 ∷ 8 ∷ [])).yielded (8 ∷ 9 ∷ [])
    × ((fetch_rates defaults suc two_done 1 0 (7 ∷ 8 ∷ [])).completed_count ≡ 2)
unfolding fetch_rates
fetch_rates-yields_example =
    fetch_rates-yields defaults suc two_done two_done-parts 1 0 (7 ∷ 8 ∷ []) (omega arith)

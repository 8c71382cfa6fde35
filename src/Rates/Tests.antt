-- ===== src/Rates/Tests.antt =====
-- Rates of one currency, as whole numbers.
use family_assistant_kernel.Prelude.{
  ℕ, ◌≡◌, true, String, Option, none, some, List, [], ◌∷◌, All, str_eq, ◌==◌, if◌then◌else◌,
}
use family_assistant_kernel.Rates.{ExchangeRate, NbuRate, get_closest_rate}
use family_assistant_kernel.Rates.Closest.{Holds, IsClosest, get_closest_rate-IsClosest}

abbrev cached : List (ExchangeRate ℕ)
cached =
    record { cc_to = "USD"; rate = 41; date = 10; source = "nbu" }
    ∷ record { cc_to = "USD"; rate = 42; date = 14; source = "nbu" }
    ∷ []

-- NBU has a rate for one of the dates
abbrev answers : String → ℕ → Option (NbuRate ℕ)
answers code d = if d == 12 then some (record { cc = code; rate = 43; exchangedate = d }) else none

get_closest_rate-IsClosest_example :
    Holds (λ r. str_eq r.cc_to "USD" ≡ true) (get_closest_rate "USD" 12 cached)
    × All
        (λ x. str_eq x.cc_to "USD" ≡ true → IsClosest 12 (get_closest_rate "USD" 12 cached) x)
        cached
get_closest_rate-IsClosest_example = get_closest_rate-IsClosest "USD" 12 cached

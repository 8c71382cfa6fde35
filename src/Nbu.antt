-- ===== src/Nbu.antt =====
-- The client of the National Bank of Ukraine: src/integrations/nbu.py. What httpx answers to the request
-- of an attempt is a parameter, also pydantic's validation of an item and Python's reading of the
-- header Retry-After, which is a number of milliseconds or no number: a negative, an infinite and a NaN
-- header, for which the delay would not be one, are left out. Delays are in milliseconds.
pub mod Retries
pub mod Rounds
pub mod Overlap
pub mod Progress
mod Tests
use family_assistant_kernel.Prelude.{
  ℕ, zero, suc, ◌+◌, ◌*◌, ◌%◌, ◌^◌, Bool, true, false, not, ltb, ◌==◌, str_eq, String, Option, none,
  some, List, [], ◌∷◌, ◌++◌, if◌then◌else◌, select, length, map,
}

-- The settings of the constructor.
pub record Settings : Type 0 where
  pub max_concurrent : ℕ
  pub retry_delay : ℕ
  pub max_retries : ℕ
  pub batch_delay : ℕ

-- What the request of one attempt comes to: a body, JSON or not; the exceptions `TimeoutException`
-- and `HTTPStatusError`, this one with the code and the header Retry-After; or any other exception.
pub data Reply (Item : Type 0) : Type 0 where
  body : Option (List Item) → Reply Item
  timeout : Reply Item
  http_status : ℕ → Option String → Reply Item
  failure : Reply Item

pub data Action : Type 0 where
  requested : Action
  slept : ℕ → Action

-- What the client keeps and does: the event that lets requests start, and the requests and delays so
-- far, the last one first.
pub record Client : Type 0 where
  pub rate_limit_event : Bool
  pub trace : List Action

abbrev pub sleep : ℕ → Client → Client
sleep delay c = record c { trace = slept delay ∷ c.trace }

abbrev pub clear : Client → Client
clear c = record c { rate_limit_event = false }

abbrev pub set : Client → Client
set c = record c { rate_limit_event = true }

-- `await _rate_limit_event.wait()`: when it returns, the event is set, by this request or another one
abbrev pub wait : Client → Client
wait c = set c

abbrev pub count_request : Client → Client
count_request c = record c { trace = requested ∷ c.trace }

-- An item as pydantic and the dictionary show it: its "cc", when it has one, and the validated rate.
module _ {Item Rate : Type 0} (cc_of : Item → Option String)
    (model_validate : Item → Option Rate) where
  -- A missing "cc" is a KeyError, which ends the search with None as every exception does.
  unfoldable pub pick_rate : String → List Item → Option Rate
  pick_rate code [] = none
  pick_rate code (item ∷ items) =
      let rest = pick_rate code items in
      elim (cc_of item) [
        | none ↦ none
        | some name ↦ if str_eq name code then model_validate item else rest
      ]

  unfoldable pub read_body : String → Option (List Item) → Option Rate
  unfolding pick_rate
  read_body code none = none
  read_body code (some items) = pick_rate code items

abbrev pub backoff : Settings → ℕ → ℕ
backoff cfg attempt = cfg.retry_delay * 2 ^ attempt

abbrev pub or_backoff : Settings → ℕ → Option ℕ → ℕ
or_backoff cfg attempt none = backoff cfg attempt
or_backoff cfg attempt (some delay) = delay

-- An empty header is falsy, and one that is no number raises ValueError.
unfoldable pub wait_time : (String → Option ℕ) → Settings → ℕ → Option String → ℕ
wait_time float cfg attempt none = backoff cfg attempt
wait_time float cfg attempt (some retry_after) =
    if str_eq retry_after ""
    then backoff cfg attempt
    else or_backoff cfg attempt (float retry_after)

pub data Delay : Type 0 where
  give_up : Delay
  retry_after_delay : ℕ → Delay
  pause_all : ℕ → Delay

-- The `except` clauses: whether there is another attempt, and what is slept before it.
abbrev pub on_status : (String → Option ℕ) → Settings → ℕ → ℕ → Option String → Delay
on_status float cfg attempt code header =
    if code == 429
    then pause_all (wait_time float cfg attempt header)
    else (if code == 504 then retry_after_delay cfg.retry_delay else give_up)

unfoldable pub on_error : (String → Option ℕ) → Settings → ℕ → {Item : Type 0} → Reply Item → Delay
unfolding wait_time
on_error float cfg attempt (body items) = give_up
on_error float cfg attempt timeout = retry_after_delay cfg.retry_delay
on_error float cfg attempt (http_status code header) = on_status float cfg attempt code header
on_error float cfg attempt failure = give_up

abbrev pub before_retry : Delay → Client → Client
before_retry give_up c = c
before_retry (retry_after_delay delay) c = sleep delay c
before_retry (pause_all delay) c = set (sleep delay (clear c))

module _ {Item Rate : Type 0} (cc_of : Item → Option String) (model_validate : Item → Option Rate)
    (float : String → Option ℕ) (cfg : Settings) (reply : ℕ → Reply Item) where
  -- The result of an attempt that is not repeated.
  abbrev pub last_result : String → Reply Item → Option Rate
  last_result code (body items) = read_body cc_of model_validate code items
  last_result code timeout = none
  last_result code (http_status status header) = none
  last_result code failure = none

  abbrev pub again : Option Rate × Client → Delay → Option Rate × Client → Option Rate × Client
  again stop give_up retried = stop
  again stop (retry_after_delay delay) retried = retried
  again stop (pause_all delay) retried = retried

  -- The loop of `_fetch_single_rate`, from an attempt on, with the number of attempts after it.
  unfoldable pub fetch_from : String → ℕ → ℕ → Client → Option Rate × Client
  unfolding read_body on_error
  fetch_from code zero attempt c = (last_result code (reply attempt), count_request (wait c))
  fetch_from code (suc left) attempt c =
      let delay = on_error float cfg attempt (reply attempt) in
      let c' = before_retry delay (count_request (wait c)) in
      let retried = fetch_from code left (suc attempt) c' in
      again (last_result code (reply attempt), count_request (wait c)) delay retried

  unfoldable pub fetch_single_rate : String → Client → Option Rate × Client
  unfolding fetch_from
  fetch_single_rate code c = fetch_from code cfg.max_retries 0 c

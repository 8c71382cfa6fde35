-- ===== src/Lib.antt =====
-- family-assistant-kernel: the ledger, the scheduler, the news and the shortcuts of the backend.
--
-- The program keeps the money of a family in PostgreSQL: currencies with an equity, and costs, incomes
-- and exchanges that move it. Background jobs run under asyncio, one of them collects news for the users.
--
-- Parts, and the code that each models:
--   Prelude, Prelude/Tests, Prelude/Lists, Prelude/Int: shared names, Boolean tests, lists, integers.
--   Exec, Exec/Keeps, Exec/Atomic: exceptions as values (src/infrastructure/errors/exceptions.py), code
--     that reads and writes a state and may raise, and `transaction` (src/infrastructure/database/cqs.py).
--   Storage and below: a table as rows under keys with its sequence (src/infrastructure/database/tables.py).
--   Ledger/Tables, Columns, Currencies, Costs, Incomes, Exchanges, Commands: the writes of
--     src/application/transactions.py over src/infrastructure/repositories/{currency,cost,income,exchange}.py.
--     A write reads the row in a session of its own and then runs one transaction, as the code does.
--   Ledger/Opening, Movement, Keys, Conservation, Atomicity, Races, References: what these writes do.
--   Shortcuts and below: cost shortcuts and their positions.
--   Scheduler/Tasks, Events, Shutdown: src/application/scheduler/_primitives.py, with asyncio as events.
--   Scheduler/Jobs, Batch: src/application/scheduler/_scheduler.py and src/infrastructure/repositories/jobs.py;
--     the handlers of the job types are a parameter.
--   Scheduler/Bootstrap, Bootstrap/Types, Started: `bootstrap` of the same file, on the registry of job types
--     (src/domain/jobs/registry.py).
--   Scheduler/Requests, Owners: src/http/resources/jobs.py; the registry of job types is a parameter.
--   News/Items, Collector, Seen: src/infrastructure/repositories/news.py, the job of
--     src/application/scheduler/jobs/kernel/gc.py, and the cache filter of src/application/news.py.
--   Rates, Rates/Closest, Rates/Coverage: src/infrastructure/repositories/exchange_rates.py and
--     `ensure_exchange_rates` of src/application/analytics.py; what NBU answers is a parameter.
--   Analytics, Analytics/Listing: the query `transactions` of
--     src/infrastructure/query_services/analytics.py and the pagination of src/infrastructure/database/dal.py.
--   Analytics/Grouping, Totals: `transactions_basic_analytics` of the same file, with `group by` as lists of
--     totals; Loops, Sums, Balance, Plain, Agreement, Equity: its totals; Answers, Ready, Picked, Entries,
--     Success: when it answers; Request: the dates of a request in src/application/analytics.py. The ratio of
--     a category is left as the two integers that are divided.
--   Nbu, Nbu/Retries, Rounds, Overlap, Progress: src/integrations/nbu.py; the answers of the server and the scheduling of asyncio
--     are parameters, delays are in milliseconds. Overlap, Progress: requests that overlap, as steps of a
--     relation on the event and the places of the semaphore.
--   News/Pipeline, News/Ingestion: `ingest_articles` of src/application/news.py with its levels; what the two
--     agents answer is a parameter.
--   News/Preferences, Rules, Learning: src/application/scheduler/jobs/kernel/preferences.py for one user, with
--     the rules of src/domain/news/entities.py.
--   Authentication, Authentication/Tokens: src/application/authentication.py and
--     src/infrastructure/security.py; PyJWT and Argon2 are parameters.
--   Assets, Assets/Owned: src/application/assets.py and src/infrastructure/repositories/assets.py.
--   Cash, Cash/Cards: src/application/cash.py and src/infrastructure/repositories/cash.py.
--   Notifications, Notifications/Inbox: src/application/notifications.py over the cache.
--
-- Amounts are integers of cents and a value that does not fit the 32 bits of its column is refused, as
-- PostgreSQL does. Dates are day numbers, times are minutes, in Authentication seconds. Loops go over
-- lists; the attempts of a request count down from the setting `max_retries`, and the loop that polls the
-- tasks of the NBU client runs for a number of rounds, which are enough when all the tasks are done in
-- them. An operation of the database fails only where the code or the schema says so; lost connections are
-- left out. Overlapping requests to the server are modelled as transactions that run one after the other on rows that
-- were read before. Messages of exceptions and log lines are left out.
--
-- Not modelled: the rest of the HTTP layer, the LLM agents and their prompts, the crawlers, configuration, migrations,
-- the settings of a user, the prices of traced LLM calls.
pub mod Prelude
pub mod Exec
pub mod Storage
pub mod Ledger
pub mod Shortcuts
pub mod Scheduler
pub mod News
pub mod Rates
pub mod Nbu
pub mod Analytics
pub mod Assets
pub mod Cash
pub mod Authentication
pub mod Notifications

-- ===== src/Scheduler/Tasks.antt =====
-- The named tasks of src/application/scheduler/_primitives.py. asyncio is the environment: it numbers
-- the tasks, and a task that ends, by itself or after `cancel`, calls its done callback later.
pub mod Tracked
use family_assistant_kernel.Prelude.{
  ℕ, suc, Bool, true, false, ◌==◌, str_eq, String, Option, none, some, List, [], ◌∷◌, ◌++◌, map,
  if◌then◌else◌, not, any,
}

-- a task object of asyncio: the key it was started under, whether it was cancelled, whether it ended
pub record Task : Type 0 where
  pub id : ℕ
  pub key : String
  pub cancelled : Bool
  pub done : Bool

-- `_tasks`, beside the tasks that the event loop knows
pub record Loop : Type 0 where
  pub registry : List (String × ℕ)
  pub tasks : List Task
  pub next : ℕ

-- `dict.pop(key, None)` and `dict[key]`
unfoldable pub lookup : String → List (String × ℕ) → Option ℕ
lookup key [] = none
lookup key ((k, id) ∷ entries) = if str_eq key k then some id else lookup key entries

unfoldable pub pop : String → List (String × ℕ) → List (String × ℕ)
pop key [] = []
pop key ((k, id) ∷ entries) =
    let rest = pop key entries in if str_eq key k then rest else (k, id) ∷ rest

unfoldable pub cancel : ℕ → List Task → List Task
cancel id [] = []
cancel id (t ∷ ts) = (if id == t.id then record t { cancelled = true } else t) ∷ cancel id ts

unfoldable pub finish : ℕ → List Task → List Task
finish id [] = []
finish id (t ∷ ts) = (if id == t.id then record t { done = true } else t) ∷ finish id ts

unfoldable pub cancel_found : String → Option ℕ → Loop → Loop
unfolding cancel
cancel_found key none s = record s { registry = pop key s.registry }
cancel_found key (some id) s = record s { registry = pop key s.registry; tasks = cancel id s.tasks }

unfoldable pub cancel_task : String → Loop → Loop
unfolding cancel_found
cancel_task key s = cancel_found key (lookup key s.registry) s

-- `asyncio.create_task` and the entry of the new task
unfoldable pub create_task : String → Loop → Loop
unfolding lookup
create_task key s = record {
  registry = (key, s.next) ∷ pop key s.registry;
  tasks = record { id = s.next; key = key; cancelled = false; done = false } ∷ s.tasks;
  next = suc s.next;
}

unfoldable pub run_task : String → Loop → Loop
unfolding create_task cancel_task
run_task key s = create_task key (cancel_task key s)

-- the task ends and its done callback runs: it pops the KEY, whichever task stands under it
unfoldable pub complete : ℕ → String → Loop → Loop
unfolding finish
complete id key s = record s { registry = pop key s.registry; tasks = finish id s.tasks }

unfoldable pub cancel_all : List String → Loop → Loop
unfolding cancel_task
cancel_all [] s = s
cancel_all (key ∷ keys) s = cancel_all keys (cancel_task key s)

abbrev pub keys_of : List (String × ℕ) → List String
keys_of [] = []
keys_of ((key, id) ∷ entries) = key ∷ keys_of entries

unfoldable pub shutdown : Loop → Loop
unfolding cancel_all
shutdown s = cancel_all (keys_of s.registry) s

-- What happens to the loop: the program starts, cancels and shuts down, asyncio ends a task.
pub data Event : Type 0 where
  start : String → Event
  stop : String → Event
  ended : ℕ → String → Event

unfoldable pub handle : Event → Loop → Loop
unfolding run_task cancel_task complete
handle (start key) s = run_task key s
handle (stop key) s = cancel_task key s
handle (ended id key) s = complete id key s

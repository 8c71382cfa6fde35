-- ===== src/Nbu/Rounds.antt =====
-- `fetch_rates` of src/integrations/nbu.py: the loop that polls the tasks. Which tasks `asyncio.wait`
-- reports as done and as pending in a round is a parameter, as is the result of a task. The delays
-- between batches are counted, not slept.
use mathlib.Core.Path.{subst}
use mathlib.Core.List.{Permᴰ}
use mathlib.Core.List.Permᴰ
use family_assistant_kernel.Prelude.{
  ℕ, zero, suc, ◌+◌, ◌%◌, ◌≤◌, ◌≡◌, refl, sym, ◌∙◌, ap, Bool, true, false, not, ◌&&◌, ◌==◌, List,
  [], ◌∷◌, ◌++◌, if◌then◌else◌, inl, inr, Bool-cases, append_assoc, append_nil, map-append, length,
  length-append, map, arith,
}
use family_assistant_kernel.Nbu.{Settings}

abbrev pub is_nil : {A : Type 0} → List A → Bool
is_nil [] = true
is_nil (x ∷ xs) = false

-- `tasks`, what was yielded, the counter of the client and the batch delays
pub record Poll (Task Result : Type 0) : Type 0 where
  pub tasks : List Task
  pub yielded : List Result
  pub completed_count : ℕ
  pub batch_pauses : ℕ

abbrev pub start : {Task Result : Type 0} → ℕ → List Task → Poll Task Result
start completed dates = record {
  tasks = dates;
  yielded = [];
  completed_count = completed;
  batch_pauses = 0;
}

module _ {Task Result : Type 0} (cfg : Settings) (result : Task → Result) where
  -- one turn of `for task in done`, with the tasks that are left after the `pop`
  unfoldable pub settle : Task → List Task → Poll Task Result → Poll Task Result
  settle t left p =
      let count = suc p.completed_count in
      let full = (count % cfg.max_concurrent == 0) && not (is_nil left) in
      record {
        tasks = left;
        yielded = p.yielded ++ result t ∷ [];
        completed_count = count;
        batch_pauses = if full then suc p.batch_pauses else p.batch_pauses;
      }

  unfoldable pub settle_all : List Task → List Task → Poll Task Result → Poll Task Result
  unfolding settle
  settle_all [] pending p = record p { tasks = pending }
  settle_all (t ∷ done) pending p = settle_all done pending (settle t (done ++ pending) p)

  module _ (wait : ℕ → List Task → List Task × List Task) where
    -- `while tasks`, for so many rounds
    unfoldable pub poll : ℕ → ℕ → Poll Task Result → Poll Task Result
    unfolding settle_all
    poll zero r p = p
    poll (suc rounds) r p =
        let (done, pending) = wait r p.tasks in
        let rest = poll rounds (suc r) (settle_all done pending p) in
        if is_nil p.tasks then p else rest

    unfoldable pub fetch_rates : ℕ → ℕ → List Task → Poll Task Result
    unfolding poll
    fetch_rates rounds completed dates = poll rounds 0 (start completed dates)

    -- how many tasks the rounds report as done, several of them in a round when it comes so
    abbrev pub done_tasks : ℕ → ℕ → Poll Task Result → ℕ
    done_tasks zero r p = 0
    done_tasks (suc rounds) r p =
        let (done, pending) = wait r p.tasks in
        length done + done_tasks rounds (suc r) (settle_all done pending p)

    -- `asyncio.wait` parts the tasks it is given
    abbrev pub Parts : Type 0
    Parts = (r : ℕ) (tasks : List Task) → Permᴰ ((wait r tasks).0 ++ (wait r tasks).1) tasks

length-Permᴰ : {A : Type 0} {xs ys : List A} → Permᴰ xs ys → length xs ≡ length ys
length-Permᴰ Permᴰ.nil = refl
length-Permᴰ (Permᴰ.cons e h) = ap suc (length-Permᴰ h)
length-Permᴰ (Permᴰ.swap e e') = refl
length-Permᴰ (Permᴰ.trans h g) = length-Permᴰ h ∙ length-Permᴰ g

at_most :
    {A : Type 0} (done : List A) (pending left tasks rounds : ℕ)
    → left ≡ pending
    → length done + pending ≡ tasks
    → tasks ≤ length done + rounds
    → left ≤ rounds
at_most done pending left tasks rounds e s h = omega (arith, e, s, h)

nil_of_length : {A : Type 0} (xs : List A) → length xs ≤ 0 → xs ≡ []
nil_of_length [] h = refl
nil_of_length (x ∷ xs) h = let bad : ⊥ = omega (arith, h) in elim bad [ ]

nil_of_is_nil : {A : Type 0} (xs : List A) → is_nil xs ≡ true → xs ≡ []
nil_of_is_nil [] e = refl
nil_of_is_nil (x ∷ xs) e = let bad : ⊥ = ground (arith, e) in elim bad [ ]

module _ {Task Result : Type 0} (cfg : Settings) (result : Task → Result) where
  settle_all-tasks :
      (done pending : List Task) (p : Poll Task Result)
      → (settle_all cfg result done pending p).tasks ≡ pending
  unfolding settle_all
  settle_all-tasks [] pending p = refl
  settle_all-tasks (t ∷ done) pending p = settle_all-tasks done pending _

  settle_all-yielded :
      (done pending : List Task) (p : Poll Task Result)
      → (settle_all cfg result done pending p).yielded ≡ p.yielded ++ map result done
  unfolding settle_all settle
  settle_all-yielded [] pending p = sym (append_nil p.yielded)
  settle_all-yielded (t ∷ done) pending p =
      settle_all-yielded done pending (settle cfg result t (done ++ pending) p)
      ∙ append_assoc p.yielded (result t ∷ []) (map result done)

  settle_all-count :
      (done pending : List Task) (p : Poll Task Result)
      → (settle_all cfg result done pending p).completed_count ≡ p.completed_count + length done
  unfolding settle_all settle
  settle_all-count [] pending p = omega arith
  settle_all-count (t ∷ done) pending p =
      omega (arith, settle_all-count done pending (settle cfg result t (done ++ pending) p))

  -- what was yielded together with what is under way, and the same as a number
  abbrev IsKept : List Result → ℕ → Poll Task Result → Type 0
  IsKept all n p =
      Permᴰ (p.yielded ++ map result p.tasks) all × (p.completed_count + length p.tasks ≡ n)

  settle_all-IsKept :
      (all : List Result) (n : ℕ) (done pending : List Task) (p : Poll Task Result)
      → Permᴰ (done ++ pending) p.tasks
      → IsKept all n p
      → IsKept all n (settle_all cfg result done pending p)
  settle_all-IsKept all n done pending p parts h =
      let tasks = settle_all-tasks done pending p in
      (
        subst (λ xs. Permᴰ xs all)
            (sym (
              ap (λ xs. xs ++ map result (settle_all cfg result done pending p).tasks)
                (settle_all-yielded done pending p)
              ∙ ap (λ xs. (p.yielded ++ map result done) ++ map result xs) tasks
              ∙ append_assoc p.yielded (map result done) (map result pending)
              ∙ ap (λ xs. p.yielded ++ xs) (sym (map-append result done pending))))
            (Permᴰ.trans (Permᴰ.append_left p.yielded (Permᴰ.map result parts)) h.0),
        omega (
          arith,
          h.1,
          settle_all-count done pending p,
          ap length tasks,
          length-Permᴰ parts,
          length-append done pending,
        ),
      )

  module _ (wait : ℕ → List Task → List Task × List Task) (parts : Parts cfg result wait) where
    poll-IsKept :
        (all : List Result) (n rounds r : ℕ) (p : Poll Task Result)
        → IsKept all n p
        → IsKept all n (poll cfg result wait rounds r p)
    unfolding poll
    poll-IsKept all n zero r p h = h
    poll-IsKept all n (suc rounds) r p h = elim (Bool-cases (is_nil p.tasks)) [
      | inl e ↦ rw e h
      | inr e ↦ rw e (
          poll-IsKept all n rounds (suc r) _
            (settle_all-IsKept all n (wait r p.tasks).0 (wait r p.tasks).1 p (parts r p.tasks) h))
    ]

    fewer_tasks :
        (r : ℕ) (p : Poll Task Result) (rounds : ℕ)
        → length p.tasks ≤ length (wait r p.tasks).0 + rounds
        → length (settle_all cfg result (wait r p.tasks).0 (wait r p.tasks).1 p).tasks ≤ rounds
    fewer_tasks r p rounds h =
        let tasks = ap length (settle_all-tasks (wait r p.tasks).0 (wait r p.tasks).1 p) in
        let split = length-append (wait r p.tasks).0 (wait r p.tasks).1 in
        let same = length-Permᴰ (parts r p.tasks) in
        at_most (wait r p.tasks).0 (length (wait r p.tasks).1) _ _ _ tasks (sym split ∙ same) h

    poll-tasks :
        (rounds r : ℕ) (p : Poll Task Result)
        → length p.tasks ≤ done_tasks cfg result wait rounds r p
        → (poll cfg result wait rounds r p).tasks ≡ []
    unfolding poll
    poll-tasks zero r p h = nil_of_length p.tasks h
    poll-tasks (suc rounds) r p h = elim (Bool-cases (is_nil p.tasks)) [
      | inl e ↦ rw e (nil_of_is_nil p.tasks e)
      | inr e ↦ rw e (poll-tasks rounds (suc r) _ (fewer_tasks r p _ h))
    ]

    -- When `asyncio.wait` parts the tasks it is given, and the rounds report as many tasks as done, one
    -- or several in a round, as there are dates, the loop ends with no task left, every date has had its result yielded exactly once,
    -- in some order, and the counter has grown by the number of dates.
    pub fetch_rates-yields :
        (rounds completed : ℕ) (dates : List Task)
        → length dates ≤ done_tasks cfg result wait rounds 0 (start completed dates)
        → let p = fetch_rates cfg result wait rounds completed dates in
          (p.tasks ≡ [])
          × Permᴰ p.yielded (map result dates)
          × (p.completed_count ≡ completed + length dates)
    unfolding fetch_rates
    fetch_rates-yields rounds completed dates h =
        let p = fetch_rates cfg result wait rounds completed dates in
        let e : p.tasks ≡ [] = poll-tasks rounds 0 _ h in
        let k : IsKept (map result dates) (completed + length dates) p =
          poll-IsKept _ _ rounds 0 _ (Permᴰ.refl _, refl) in
        (
          e,
          subst (λ xs. Permᴰ xs (map result dates))
              (ap (λ ts. p.yielded ++ map result ts) e ∙ append_nil p.yielded) k.0,
          omega (arith, k.1, ap length e),
        )

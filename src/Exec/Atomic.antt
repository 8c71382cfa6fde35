-- ===== src/Exec/Atomic.antt =====
-- Actions that write all or nothing, and what holds of the state they return in.
use family_assistant_kernel.Prelude.{◌≡◌, refl, Bool, true, false}
use family_assistant_kernel.Exec.{
  Error, Result, ok, err, Exec, raise_if, continue, ◌>>=◌, transaction, end_transaction,
}

-- a run that began at `s` and raised has left the state as it was
abbrev pub Atomic : {S A : Type 0} → S → Result A × S → Type 0
Atomic s (ok a, s') = Unit
Atomic s (err e, s') = s' ≡ s

-- a run that returned did so in a state with `Q`
abbrev pub Returned : {S A : Type 0} → (A → S → Type 0) → Result A × S → Type 0
Returned Q (ok a, s') = Q a s'
Returned Q (err e, s') = Unit

abbrev pub Succeeds : {S A : Type 0} → Result A × S → Type 0
Succeeds (ok a, s') = Unit
Succeeds (err e, s') = ⊥

module _ {S A : Type 0} where
  end_transaction-Atomic : (s : S) (r : Result A) (s' : S) → Atomic s (end_transaction s r s')
  unfolding end_transaction
  end_transaction-Atomic s (ok a) s' = tt
  end_transaction-Atomic s (err e) s' = refl

  pub transaction-Atomic : (m : Exec S A) (s : S) → Atomic s (transaction m s)
  unfolding transaction
  transaction-Atomic m s = let (r, s') = m s in end_transaction-Atomic s r s'

  end_transaction-Returned :
      (Q : A → S → Type 0) (s : S) (r : Result A) (s' : S)
      → Returned Q (r, s')
      → Returned Q (end_transaction s r s')
  unfolding end_transaction
  end_transaction-Returned Q s (ok a) s' h = h
  end_transaction-Returned Q s (err e) s' h = tt

  pub transaction-Returned :
      (Q : A → S → Type 0) (m : Exec S A) (s : S) → Returned Q (m s) → Returned Q (transaction m s)
  unfolding transaction
  transaction-Returned Q m s h = let (r, s') = m s in end_transaction-Returned Q s r s' h

module _ {S A B : Type 0} where
  -- after a part that writes all or nothing, only a part that does not raise may follow
  pub continue-Atomic :
      (s : S) (f : A → Exec S B) (p : Result A × S)
      → Atomic s p
      → Returned (λ a s'. Succeeds (f a s')) p
      → Atomic s (continue p.0 f p.1)
  continue-Atomic s f (ok a, s') h g = after (f a s') g
    where
      after : (q : Result B × S) → Succeeds q → Atomic s q
      after (ok b, t) h = tt
      after (err e, t) h = elim h [ ]
  continue-Atomic s f (err e, s') h g = h

  pub continue-Returned :
      (Q : B → S → Type 0) (f : A → Exec S B) (p : Result A × S)
      → Returned (λ a s'. Returned Q (f a s')) p
      → Returned Q (continue p.0 f p.1)
  continue-Returned Q f (ok a, s') h = h
  continue-Returned Q f (err e, s') h = tt

module _ {S A : Type 0} where
  pub raise_if-Atomic :
      (b : Bool) (e : Error) (m : Exec S A) (s : S)
      → Atomic s (m s)
      → Atomic s ((raise_if b e >>= λ _. m) s)
  raise_if-Atomic true e m s h = refl
  raise_if-Atomic false e m s h = h

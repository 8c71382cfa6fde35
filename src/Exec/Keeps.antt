-- ===== src/Exec/Keeps.antt =====
-- What an action leaves true of the state: one rule for each of the ways in which Exec builds actions.
use family_assistant_kernel.Prelude.{Bool, true, false, Option, none, some, if◌then◌else◌}
use family_assistant_kernel.Exec.{
  Error, Result, ok, err, Exec, pure, raise, gets, or_raise, raise_if, continue, ◌>>=◌, transaction,
  end_transaction,
}

-- the state satisfies `P` after `m` when it did before, raising included
pub record Keeps {ℓ} {St R : Type ℓ} (P : St → Type ℓ) (action : Exec St R) : Type ℓ where
  pub at : (st : St) → P st → P (action st).1

module _ {St : Type 0} {P : St → Type 0} where
  pub Keeps-raise_if : (b : Bool) (e : Error) → Keeps P (raise_if b e)
  Keeps-raise_if true e = record { at = λ _ kept. kept }
  Keeps-raise_if false e = record { at = λ _ kept. kept }

module _ {ℓ} {St R R2 : Type ℓ} where
  Keeps-continue :
      (Q : St → Type ℓ) (r : Result R) (f : R → Exec St R2)
      → ((x : R) → Keeps Q (f x))
      → (s : St) → Q s
      → Q (continue r f s).1
  Keeps-continue Q (ok x) f kf s h = (kf x).at s h
  Keeps-continue Q (err e) f kf s h = h

module _ {ℓ} {St R R2 : Type ℓ} {P : St → Type ℓ} where
  pub Keeps-bind :
      (m : Exec St R) (f : R → Exec St R2)
      → Keeps P m
      → ((x : R) → Keeps P (f x))
      → Keeps P (m >>= f)
  Keeps-bind m f km kf = record {
    at = λ s h. let (r, s') = m s in Keeps-continue P r f kf s' (km.at s h);
  }

module _ {ℓ} {St R : Type ℓ} where
  Keeps-end :
      (Q : St → Type ℓ) (s : St) (r : Result R) (s' : St)
      → Q s
      → Q s'
      → Q (end_transaction s r s').1
  unfolding end_transaction
  Keeps-end Q s (ok x) s' h h' = h'
  Keeps-end Q s (err e) s' h h' = h

module _ {ℓ} {St R : Type ℓ} {P : St → Type ℓ} where
  pub Keeps-transaction : (m : Exec St R) → Keeps P m → Keeps P (transaction m)
  unfolding transaction
  Keeps-transaction m km = record {
    at = λ s h. let (r, s') = m s in Keeps-end P s r s' h (km.at s h);
  }

  pub Keeps-if : (b : Bool) (m n : Exec St R) → Keeps P m → Keeps P n → Keeps P (if b then m else n)
  Keeps-if true m n km kn = km
  Keeps-if false m n km kn = kn

  pub Keeps-or_raise : (e : Error) (o : Option R) → Keeps P (or_raise e o)
  Keeps-or_raise e none = record { at = λ _ kept. kept }
  Keeps-or_raise e (some x) = record { at = λ _ kept. kept }

  pub Keeps-gets : (f : St → R) → Keeps P (gets f)
  Keeps-gets f = record { at = λ _ kept. kept }

  pub Keeps-raise : (e : Error) → Keeps P (raise {R = R} e)
  Keeps-raise e = record { at = λ _ kept. kept }

  pub Keeps-pure : (x : R) → Keeps P (pure x)
  Keeps-pure x = record { at = λ _ kept. kept }

pub ruleset keeps_rules = (
  Keeps-bind, Keeps-transaction, Keeps-if, Keeps-or_raise, Keeps-raise_if, Keeps-gets, Keeps-raise,
  Keeps-pure,
)

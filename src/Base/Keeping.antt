-- ===== src/Base/Keeping.antt =====
-- Methods that change their receiver: relations between the states before and after a step.
use cnnic_gmtls.Base.Results.{Outcome, ok, err, panic, stuck, Error}
use cnnic_gmtls.Base.State.{Action, after, lift, raise_if}
use cnnic_gmtls.Base.Runs.{Runs, Runs-weaken, Runs-if, Runs-after, NotStuck}
use cnnic_gmtls.Base.Tests.{if◌then◌else◌}
use mathlib.Core.Bool.{Bool, true, false}

-- A preorder on states.
pub record Preorder (S : Type 0) : Type 1 where
  pub rel : S → S → Type 0
  pub rel_refl : (s : S) → rel s s
  pub rel_trans : {s t u : S} → rel s t → rel t u → rel s u

-- The method comes to an end, in a state that the relation allows.
abbrev pub Keeping : {S A : Type 0} → Preorder S → Action S A → S → Type 0
Keeping R m s = Runs (m s) (R.rel s) (λ _. R.rel s)

module _ {S : Type 0} (R : Preorder S) where
  -- What runs in a later state runs in the earlier one.
  pub Runs-from :
      {A : Type 0} (s t : S) (P Q : A → S → Type 0) (r : Outcome A × S)
      → R.rel s t
      → Runs r (R.rel t) P
      → ((a : A) (u : S) → P a u → Q a u)
      → Runs r (R.rel s) Q
  Runs-from s t P Q r k h q = Runs-weaken (R.rel t) (R.rel s) P Q r h (λ u. R.rel_trans k) q

  pub Keeping-from :
      {A : Type 0} (s t : S) (r : Outcome A × S)
      → R.rel s t
      → Runs r (R.rel t) (λ _. R.rel t)
      → Runs r (R.rel s) (λ _. R.rel s)
  Keeping-from s t r k h = Runs-from s t _ _ r k h (λ a u. R.rel_trans k)

  -- A step and what follows it.
  pub Keeping-bind :
      {A B : Type 0} (s : S) (r : Outcome A × S) (f : A → Action S B)
      → Runs r (R.rel s) (λ _. R.rel s)
      → ((a : A) (t : S) → Runs (f a t) (R.rel t) (λ _. R.rel t))
      → Runs (after f r) (R.rel s) (λ _. R.rel s)
  Keeping-bind s r f h k =
      Runs-after (R.rel s) (λ _. R.rel s) (λ _. R.rel s) r f h
        (λ a t l. Keeping-from s t (f a t) l (k a t))

  pub Keeping-lift : {A : Type 0} (m : Outcome A) (s : S) → NotStuck m → Keeping R (lift m) s
  unfolding NotStuck
  Keeping-lift (ok a) s h = R.rel_refl s
  Keeping-lift (err x) s h = R.rel_refl s
  Keeping-lift panic s h = R.rel_refl s
  Keeping-lift stuck s h = elim h [ ]

  pub Keeping-raise_if : (test : Bool) (x : Error) (s : S) → Keeping R (raise_if test x) s
  Keeping-raise_if true x s = R.rel_refl s
  Keeping-raise_if false x s = R.rel_refl s

  pub Keeping-if :
      {A : Type 0} (s : S) (test : Bool) (r r' : Outcome A × S)
      → Runs r (R.rel s) (λ _. R.rel s)
      → Runs r' (R.rel s) (λ _. R.rel s)
      → Runs (if test then r else r') (R.rel s) (λ _. R.rel s)
  Keeping-if s test r r' h k = Runs-if (R.rel s) (λ _. R.rel s) test r r' (λ _. h) (λ _. k)

-- A step of a part of the state.
pub Keeping-part :
    {S T A : Type 0} (R : Preorder S) (E : T → Type 0) (into : T → S) (r : Outcome A × T) (s : S)
    → Runs r E (λ _. E)
    → ((t : T) → E t → R.rel s (into t))
    → Runs (r.0, into r.1) (R.rel s) (λ _. R.rel s)
Keeping-part R E into (ok a, t) s h k = k t h
Keeping-part R E into (err x, t) s h k = k t h
Keeping-part R E into (panic, t) s h k = k t h
Keeping-part R E into (stuck, t) s h k = elim h [ ]

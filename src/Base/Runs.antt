-- ===== src/Base/Runs.antt =====
-- Methods that change their receiver: what holds of the state however the method ends.
use Prim.Native.String.{String}
use cnnic_gmtls.Base.Results.{Outcome, ok, err, panic, stuck, Error, Returns, fail_if, ◌>>=◌, ◌>>◌}
use cnnic_gmtls.Base.State.{Action, after, raise_if, Ends}
use cnnic_gmtls.Base.Tests.{if◌then◌else◌}
use native.Mathlib.Omega.{arith}
use mathlib.Core.Bool.{Bool, true, false}
use mathlib.Core.Path.{◌≡◌, refl}

-- A method that comes to an end: after an error or a panic the state satisfies `E`, and a value
-- that it returns without an error satisfies `P` with the state.
abbrev pub Runs : {S A : Type 0} → Outcome A × S → (S → Type 0) → (A → S → Type 0) → Type 0
Runs (ok a, s) E P = P a s
Runs (err e, s) E P = E s
Runs (panic, s) E P = E s
Runs (stuck, s) E P = ⊥

-- A call that may panic and has fuel enough.
unfoldable pub NotStuck : {A : Type 0} → Outcome A → Type 0
NotStuck stuck = ⊥
NotStuck _ = Unit

-- The same with what a value that it returns satisfies.
abbrev pub Yields : {A : Type 0} → Outcome A → (A → Type 0) → Type 0
Yields (ok a) P = P a
Yields (err x) P = Unit
Yields panic P = Unit
Yields stuck P = ⊥

module _ {S A : Type 0} (E : S → Type 0) where
  pub Runs-weaken :
      (F : S → Type 0) (P Q : A → S → Type 0) (r : Outcome A × S)
      → Runs r E P
      → ((s : S) → E s → F s)
      → ((a : A) (s : S) → P a s → Q a s)
      → Runs r F Q
  Runs-weaken F P Q (ok a, s) h e k = k a s h
  Runs-weaken F P Q (err x, s) h e k = e s h
  Runs-weaken F P Q (panic, s) h e k = e s h
  Runs-weaken F P Q (stuck, s) h e k = elim h [ ]

  pub Runs-if :
      (P : A → S → Type 0) (test : Bool) (r r' : Outcome A × S)
      → (test ≡ true → Runs r E P)
      → (test ≡ false → Runs r' E P)
      → Runs (if test then r else r') E P
  Runs-if P true r r' h k = h refl
  Runs-if P false r r' h k = k refl

  pub Runs-after :
      {B : Type 0} (P : A → S → Type 0) (Q : B → S → Type 0) (r : Outcome A × S)
      (f : A → Action S B)
      → Runs r E P
      → ((a : A) (s : S) → P a s → Runs (f a s) E Q)
      → Runs (after f r) E Q
  Runs-after P Q (ok a, s) f h k = k a s h
  Runs-after P Q (err x, s) f h k = h
  Runs-after P Q (panic, s) f h k = h
  Runs-after P Q (stuck, s) f h k = elim h [ ]

  -- A call that does not touch the state.
  pub Runs-lift :
      {B : Type 0} (Q : B → S → Type 0) (m : Outcome A) (s : S) (f : A → Action S B)
      → NotStuck m
      → E s
      → ((a : A) → m ≡ ok a → Runs (f a s) E Q)
      → Runs (after f (m, s)) E Q
  unfolding NotStuck
  Runs-lift Q (ok a) s f n e k = k a refl
  Runs-lift Q (err x) s f n e k = e
  Runs-lift Q panic s f n e k = e
  Runs-lift Q stuck s f n e k = elim n [ ]

pub Runs-yields :
    {S A B : Type 0} (E : S → Type 0) (P : A → Type 0) (Q : B → S → Type 0) (m : Outcome A) (s : S)
    (f : A → Action S B)
    → Yields m P
    → E s
    → ((a : A) → P a → Runs (f a s) E Q)
    → Runs (after f (m, s)) E Q
Runs-yields E P Q (ok a) s f n e k = k a n
Runs-yields E P Q (err x) s f n e k = e
Runs-yields E P Q panic s f n e k = e
Runs-yields E P Q stuck s f n e k = elim n [ ]

-- A guard: the rest runs where the test is false.
pub Runs-guard :
    {S B : Type 0} (E : S → Type 0) (Q : B → S → Type 0) (test : Bool) (x : Error) (s : S)
    (k : Unit {0} → Action S B)
    → E s
    → (test ≡ false → Runs (k tt s) E Q)
    → Runs (after k (raise_if test x s)) E Q
Runs-guard E Q true x s k e h = e
Runs-guard E Q false x s k e h = h refl

pub IsReturn-NotStuck : {A : Type 0} (P : A → Type 0) (m : Outcome A) → Returns m P → NotStuck m
unfolding NotStuck
IsReturn-NotStuck P (ok a) h = tt
IsReturn-NotStuck P (err x) h = tt
IsReturn-NotStuck P panic h = elim h [ ]
IsReturn-NotStuck P stuck h = elim h [ ]

pub Runs-Ends :
    {S A : Type 0} (E : S → Type 0) (P Q : A → S → Type 0) (r : Outcome A × S)
    → Runs r E P
    → ((a : A) (s : S) → P a s → Q a s)
    → Ends r Q
Runs-Ends E P Q (ok a, s) h k = k a s h
Runs-Ends E P Q (err x, s) h k = tt
Runs-Ends E P Q (panic, s) h k = tt
Runs-Ends E P Q (stuck, s) h k = elim h [ ]

-- A step of a part of the state, and what follows it.
pub Runs-into :
    {S T A B : Type 0} (E : T → Type 0) (P : A → T → Type 0) (F : S → Type 0) (Q : B → S → Type 0)
    (into : T → S) (r : Outcome A × T) (f : A → Action S B)
    → Runs r E P
    → ((t : T) → E t → F (into t))
    → ((a : A) (t : T) → P a t → Runs (f a (into t)) F Q)
    → Runs (after f (r.0, into r.1)) F Q
Runs-into E P F Q into (ok a, t) f h e k = k a t h
Runs-into E P F Q into (err x, t) f h e k = e t h
Runs-into E P F Q into (panic, t) f h e k = e t h
Runs-into E P F Q into (stuck, t) f h e k = elim h [ ]

pub NotStuck-Runs :
    {S A : Type 0} (r : Outcome A × S) → NotStuck r.0 → Runs r (λ _. Unit {0}) (λ _ _. Unit {0})
unfolding NotStuck
NotStuck-Runs (ok a, s) h = tt
NotStuck-Runs (err x, s) h = tt
NotStuck-Runs (panic, s) h = tt
NotStuck-Runs (stuck, s) h = h

pub Yields-NotStuck : {A : Type 0} (P : A → Type 0) (m : Outcome A) → Yields m P → NotStuck m
unfolding NotStuck
Yields-NotStuck P (ok a) h = tt
Yields-NotStuck P (err x) h = tt
Yields-NotStuck P panic h = tt
Yields-NotStuck P stuck h = h

pub NotStuck-ok : {A : Type 0} (a : A) → NotStuck (ok a)
unfolding NotStuck
NotStuck-ok a = tt

pub NotStuck-err : (A : Type 0) (x : Error) → NotStuck {A = A} (err x)
unfolding NotStuck
NotStuck-err A x = tt

-- A chain of calls.
pub NotStuck-bind :
    {A B : Type 0} (m : Outcome A) (f : A → Outcome B)
    → NotStuck m
    → ((a : A) → NotStuck (f a))
    → NotStuck (m >>= f)
unfolding NotStuck
NotStuck-bind (ok a) f h k = k a
NotStuck-bind (err x) f h k = tt
NotStuck-bind panic f h k = tt
NotStuck-bind stuck f h k = elim h [ ]

pub NotStuck-guard :
    {B : Type 0} (test : Bool) (text : String) (k : Outcome B)
    → NotStuck k
    → NotStuck (fail_if test text >> k)
unfolding NotStuck
NotStuck-guard true text k h = tt
NotStuck-guard false text k h = h

pub Yields-weaken :
    {A : Type 0} (P Q : A → Type 0) (m : Outcome A)
    → Yields m P
    → ((a : A) → P a → Q a)
    → Yields m Q
Yields-weaken P Q (ok a) h k = k a h
Yields-weaken P Q (err x) h k = tt
Yields-weaken P Q panic h k = tt
Yields-weaken P Q stuck h k = h

-- A check that a flag switches off.
pub Runs-unless :
    {S B : Type 0} (E : S → Type 0) (P : Type 0) (Q : B → S → Type 0) (skip : Bool)
    (m : Outcome (Unit {0})) (s : S) (f : Unit {0} → Action S B)
    → Yields m (λ _. P)
    → E s
    → ((skip ≡ false → P) → Runs (f tt s) E Q)
    → Runs (after f (if skip then (ok tt, s) else (m, s))) E Q
Runs-unless E P Q true m s f h e k = k (λ impossible. ground arith)
Runs-unless E P Q false m s f h e k = Runs-yields E (λ _. P) Q m s f h e (λ _ p. k (λ _. p))

pub NotStuck-if :
    {A : Type 0} (test : Bool) (m n : Outcome A)
    → NotStuck m
    → NotStuck n
    → NotStuck (if test then m else n)
NotStuck-if true m n h k = h
NotStuck-if false m n h k = k

-- A check that a flag switches on.
pub Runs-when :
    {S B : Type 0} (E : S → Type 0) (Q : B → S → Type 0) (test : Bool) (m : Outcome (Unit {0}))
    (s : S) (f : Unit {0} → Action S B)
    → NotStuck m
    → E s
    → ((test ≡ true → m ≡ ok tt) → Runs (f tt s) E Q)
    → Runs (after f (if test then (m, s) else (ok tt, s))) E Q
unfolding NotStuck
Runs-when E Q false m s f h e k = k (λ impossible. ground arith)
Runs-when E Q true (ok u) s f h e k = k (λ _. refl)
Runs-when E Q true (err x) s f h e k = e
Runs-when E Q true panic s f h e k = e
Runs-when E Q true stuck s f h e k = elim h [ ]

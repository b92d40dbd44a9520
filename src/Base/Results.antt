-- ===== src/Base/Results.antt =====
-- What a Go function returns: a value, an error, or no return at all.

use mathlib.Core.Bool.{Bool, true, false}
use mathlib.Core.Logic.{inl, inr}
use Prim.Native.Nat.{ℕ, ◌≤◌}
use Prim.Native.String.{String}
use cnnic_gmtls.Base.Tests.{ltb, ltb→le, Bool-cases}

-- The text of `errors.New` and `fmt.Errorf` without the formatted arguments, and the two error
-- values that the code compares with.
pub data Error : Type 0 where
  message : String → Error
  eof hello_retry_request : Error

-- `panic` is a run-time panic, such as an index out of range or a call of `panic`. `stuck` is no
-- Go outcome: the fuel of a modelled loop ran out.
pub data Outcome {ℓ} (A : Type ℓ) : Type ℓ where
  ok : A → Outcome A
  err : Error → Outcome A
  panic stuck : Outcome A

infixl 5 ◌>>=◌ ◌>>◌
abbrev pub ◌>>=◌ {ℓ κ} : {A : Type ℓ} {B : Type κ} → Outcome A → (A → Outcome B) → Outcome B
ok a >>= f = f a
err e >>= f = err e
panic >>= f = panic
stuck >>= f = stuck

abbrev pub ◌>>◌ {ℓ} : {B : Type ℓ} → Outcome (Unit {0}) → Outcome B → Outcome B
m >> k = m >>= λ _. k

-- `if test { return errors.New(text) }`
abbrev pub fail_if : Bool → String → Outcome (Unit {0})
fail_if true text = err (message text)
fail_if false text = ok tt

abbrev pub fail {ℓ} : {A : Type ℓ} → String → Outcome A
fail text = err (message text)

-- A Go call that comes back: no panic, the modelled loops had fuel enough, and a value that it
-- returns without an error satisfies `P`.
abbrev pub Returns {ℓ} : {A : Type ℓ} → Outcome A → (A → Type 0) → Type 0
Returns (ok a) P = P a
Returns (err e) P = Unit
Returns panic P = ⊥
Returns stuck P = ⊥

abbrev pub IsReturn {ℓ} : {A : Type ℓ} → Outcome A → Type 0
IsReturn m = Returns m (λ _. Unit)

pub Returns-bind {ℓ κ} :
    {A : Type ℓ} {B : Type κ} (P : A → Type 0) (Q : B → Type 0) (m : Outcome A) (f : A → Outcome B)
    → Returns m P
    → ((a : A) → P a → Returns (f a) Q)
    → Returns (m >>= f) Q
Returns-bind P Q (ok a) f h k = k a h
Returns-bind P Q (err e) f h k = tt
Returns-bind P Q panic f h k = elim h [ ]
Returns-bind P Q stuck f h k = elim h [ ]

-- After a guard on a length the code goes on with enough bytes.
pub Returns-need {ℓ} :
    {B : Type ℓ} (Q : B → Type 0) (a b : ℕ) (text : String) (k : Outcome B)
    → (b ≤ a → Returns k Q)
    → Returns (fail_if (ltb a b) text >> k) Q
Returns-need Q a b text k h = elim (Bool-cases (ltb a b)) [
  | inl short ↦ rw short tt
  | inr enough ↦ rw enough (h (ltb→le a b enough))
]

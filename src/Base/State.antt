-- ===== src/Base/State.antt =====
-- Methods that change their receiver, with the state also where the method fails.
use cnnic_gmtls.Base.Results.{Outcome, ok, err, panic, stuck, Error, Returns}
use cnnic_gmtls.Base.Tests.{if◌then◌else◌}
use mathlib.Core.Bool.{Bool, true, false}
use mathlib.Core.Path.{◌≡◌, refl, ap, ◌∙◌}

abbrev pub Action : Type 0 → Type 0 → Type 0
Action S A = S → Outcome A × S

-- What follows a step: a step that fails ends the method, and its state stays.
abbrev pub after : {S A B : Type 0} → (A → Action S B) → Outcome A × S → Outcome B × S
after f (ok a, s) = f a s
after f (err e, s) = (err e, s)
after f (panic, s) = (panic, s)
after f (stuck, s) = (stuck, s)

infixl 5 ◌>>=◌ ◌>>◌
abbrev pub ◌>>=◌ : {S A B : Type 0} → Action S A → (A → Action S B) → Action S B
◌>>=◌ m f s = after f (m s)

abbrev pub ◌>>◌ : {S B : Type 0} → Action S (Unit {0}) → Action S B → Action S B
m >> k = m >>= λ _. k

abbrev pub pure : {S A : Type 0} → A → Action S A
pure a s = (ok a, s)

abbrev pub raise : {S A : Type 0} → Error → Action S A
raise e s = (err e, s)

abbrev pub gets : {S A : Type 0} → (S → A) → Action S A
gets f s = (ok (f s), s)

abbrev pub modify : {S : Type 0} → (S → S) → Action S (Unit {0})
modify f s = (ok tt, f s)

-- A call that does not touch the state.
abbrev pub lift : {S A : Type 0} → Outcome A → Action S A
lift m s = (m, s)

abbrev pub raise_if : {S : Type 0} → Bool → Error → Action S (Unit {0})
raise_if test e s = (if test then err e else ok tt, s)

-- A step that succeeds hands over its value and its state; one that fails ends the method.
pub >>=-ok :
    {S A B : Type 0} (m : Action S A) (f : A → Action S B) (s : S) (a : A) (s' : S)
    {r : Outcome B × S}
    → m s ≡ (ok a, s')
    → f a s' ≡ r
    → (m >>= f) s ≡ r
>>=-ok m f s a s' e h = ap (after f) e ∙ h

pub >>=-err :
    {S A B : Type 0} (m : Action S A) (f : A → Action S B) (s : S) (x : Error) (s' : S)
    → m s ≡ (err x, s')
    → (m >>= f) s ≡ (err x, s')
>>=-err m f s x s' e = ap (after f) e

-- A method that comes to an end, be it with an error or a panic: the modelled loops have fuel
-- enough, and a value that it returns without an error satisfies `P` with the state.
abbrev pub Ends : {S A : Type 0} → Outcome A × S → (A → S → Type 0) → Type 0
Ends (ok a, s) P = P a s
Ends (err e, s) P = Unit
Ends (panic, s) P = Unit
Ends (stuck, s) P = ⊥

pub Ends-after :
    {S A B : Type 0} (P : A → S → Type 0) (Q : B → S → Type 0) (r : Outcome A × S)
    (f : A → Action S B)
    → Ends r P
    → ((a : A) (s : S) → P a s → Ends (f a s) Q)
    → Ends (after f r) Q
Ends-after P Q (ok a, s) f h k = k a s h
Ends-after P Q (err e, s) f h k = tt
Ends-after P Q (panic, s) f h k = tt
Ends-after P Q (stuck, s) f h k = elim h [ ]

pub Ends-lift :
    {S A : Type 0} (P : A → Type 0) (Q : A → S → Type 0) (m : Outcome A) (s : S)
    → Returns m P
    → ((a : A) → P a → Q a s)
    → Ends (m, s) Q
Ends-lift P Q (ok a) s h k = k a h
Ends-lift P Q (err e) s h k = tt
Ends-lift P Q panic s h k = elim h [ ]
Ends-lift P Q stuck s h k = elim h [ ]

pub Ends-raise_if :
    {S : Type 0} (P : Unit {0} → S → Type 0) (test : Bool) (e : Error) (s : S)
    → P tt s
    → Ends (raise_if test e s) P
Ends-raise_if P true e s h = tt
Ends-raise_if P false e s h = h

pub Ends-weaken :
    {S A : Type 0} (P Q : A → S → Type 0) (r : Outcome A × S)
    → Ends r P
    → ((a : A) (s : S) → P a s → Q a s)
    → Ends r Q
Ends-weaken P Q (ok a, s) h k = k a s h
Ends-weaken P Q (err e, s) h k = tt
Ends-weaken P Q (panic, s) h k = tt
Ends-weaken P Q (stuck, s) h k = elim h [ ]

pub Ends-if :
    {S A : Type 0} (P : A → S → Type 0) (test : Bool) (r r' : Outcome A × S)
    → (test ≡ true → Ends r P)
    → (test ≡ false → Ends r' P)
    → Ends (if test then r else r') P
Ends-if P true r r' h k = h refl
Ends-if P false r r' h k = k refl

-- ===== src/Prelude/Faults.antt =====
-- How a call can end: it returns, or the process dies by `LOGGER_FATAL`, by a failed `assert`, or
-- in an operation that C++ leaves undefined.
use mathlib.Core.Path.{◌≡◌, refl}
use mathlib.Core.Bool.{Bool, true, false}

pub data Fault : Type 0 where
  fatal assertion undefined : Fault

pub data Outcome {ℓ} (A : Type ℓ) : Type ℓ where
  ok : A → Outcome A
  dies : Fault → Outcome A

-- What follows a call that returned; it is computed as soon as the call is.
infixl 5 ◌>>=◌
abbrev pub ◌>>=◌ {ℓ κ} : {X : Type ℓ} {Y : Type κ} → Outcome X → (X → Outcome Y) → Outcome Y
dies why >>= k = dies why
ok x >>= k = k x

infixl 5 ◌>>◌
abbrev pub ◌>>◌ {κ} : {Y : Type κ} → Outcome (Unit {0}) → Outcome Y → Outcome Y
first >> next = first >>= λ _. next

-- `assert(b)`, in a build that keeps its assertions.
abbrev pub check : Bool → Outcome (Unit {0})
check true = ok tt
check false = dies assertion

-- `if (b) LOGGER_FATAL(...)`.
abbrev pub fatal_if : Bool → Outcome (Unit {0})
fatal_if true = dies fatal
fatal_if false = ok tt

-- A value that the program may compute on only where it is defined.
abbrev pub Returns {ℓ} : {A : Type ℓ} → (A → Type 0) → Outcome A → Type 0
Returns P (ok a) = P a
Returns P (dies e) = ⊥

-- Where two calls in a row return, the first one did, and what it gave is what the second had.
pub >>=-eq-ok {ℓ κ} :
    {X : Type ℓ} {Y : Type κ} (m : Outcome X) (k : X → Outcome Y) {y : Y}
    → (m >>= k) ≡ ok y
    → (x : X) × (m ≡ ok x) × (k x ≡ ok y)
>>=-eq-ok (dies why) k h = cc
>>=-eq-ok (ok x) k h = (x, refl, h)

pub ok-injective {ℓ} : {A : Type ℓ} {a b : A} → ok a ≡ ok b → a ≡ b
ok-injective h = cc

pub >>=-assoc {ℓ κ ι} :
    {X : Type ℓ} {Y : Type κ} {Z : Type ι} (m : Outcome X) (k : X → Outcome Y) (l : Y → Outcome Z)
    → (m >>= λ x. k x >>= l) ≡ (m >>= k >>= l)
>>=-assoc (ok x) k l = refl
>>=-assoc (dies why) k l = refl

-- What holds of the value of a call that returns.
pub Returns-map {ℓ} :
    {A : Type ℓ} (P Q : A → Type 0)
    → ((a : A) → P a → Q a)
    → (m : Outcome A) → Returns P m
    → Returns Q m
Returns-map P Q f (ok a) h = f a h
Returns-map P Q f (dies e) h = h

pub Returns->>= {ℓ κ} :
    {A : Type ℓ} {B : Type κ} {P : A → Type 0} (Q : B → Type 0) (m : Outcome A) (k : A → Outcome B)
    → Returns P m
    → ((a : A) → P a → Returns Q (k a))
    → Returns Q (m >>= k)
Returns->>= Q (ok a) k h f = f a h
Returns->>= Q (dies e) k h f = h

-- A value, where the call returns one.
abbrev pub Allows {ℓ} : {A : Type ℓ} → (A → Type 0) → Outcome A → Type 0
Allows P (ok a) = P a
Allows P (dies e) = Unit

pub Allows->>= {ℓ κ} :
    {A : Type ℓ} {B : Type κ} {P : A → Type 0} (Q : B → Type 0) (m : Outcome A) (k : A → Outcome B)
    → Allows P m
    → ((a : A) → P a → Allows Q (k a))
    → Allows Q (m >>= k)
Allows->>= Q (ok a) k h f = f a h
Allows->>= Q (dies e) k h f = tt

pub Returns-Allows {ℓ} : {A : Type ℓ} (P : A → Type 0) (m : Outcome A) → Returns P m → Allows P m
Returns-Allows P (ok a) h = h
Returns-Allows P (dies e) h = tt

pub Allows-of {ℓ} :
    {A : Type ℓ} (P : A → Type 0) (m : Outcome A) → ((a : A) → m ≡ ok a → P a) → Allows P m
Allows-of P (ok a) f = f a refl
Allows-of P (dies e) f = tt

pub Allows-any {ℓ} : {A : Type ℓ} (m : Outcome A) → Allows (λ _. Unit {0}) m
Allows-any (ok a) = tt
Allows-any (dies e) = tt

pub Allows-map {ℓ} :
    {A : Type ℓ} (P Q : A → Type 0)
    → ((a : A) → P a → Q a)
    → (m : Outcome A) → Allows P m
    → Allows Q m
Allows-map P Q f (ok a) h = f a h
Allows-map P Q f (dies e) h = tt

-- A call that does not die keeps what is kept wherever it returns.
pub Returns-Allows-both {ℓ} :
    {A : Type ℓ} (P Q R : A → Type 0) (m : Outcome A)
    → Returns P m
    → Allows Q m
    → ((a : A) → P a → Q a → R a)
    → Returns R m
Returns-Allows-both P Q R (ok a) h k f = f a h k
Returns-Allows-both P Q R (dies e) h k f = elim h [ ]

pub checked-Returns {ℓ} :
    {A : Type ℓ} (P : A → Type 0) (b : Bool) (m : Outcome A)
    → b ≡ true
    → Returns P m
    → Returns P (check b >>= λ _. m)
checked-Returns P true m e h = h
checked-Returns P false m e h = cc

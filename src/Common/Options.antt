-- ===== src/Common/Options.antt =====
-- Chains of optional results.
use mathlib.Core.Option.{Option, none, some}

infixl 5 ◌>>=◌
abbrev pub ◌>>=◌ {ℓ κ} : {A : Type ℓ} {B : Type κ} → Option A → (A → Option B) → Option B
none >>= f = none
some a >>= f = f a

-- The value satisfies the predicate, if there is one.
abbrev pub Holds {ℓ κ} : {A : Type ℓ} → (A → Type κ) → Option A → Type κ
Holds P none = Unit
Holds P (some a) = P a

-- There is a value, and it satisfies the predicate.
abbrev pub HasValue {ℓ} : {A : Type ℓ} → (A → Type 0) → Option A → Type 0
HasValue P none = ⊥
HasValue P (some a) = P a

pub Holds-map {ℓ κ μ} :
    {A : Type ℓ} (P : A → Type κ) (Q : A → Type μ) (o : Option A)
    → ((a : A) → P a → Q a)
    → Holds P o
    → Holds Q o
Holds-map P Q none f h = tt
Holds-map P Q (some a) f h = f a h

pub Holds-bind {ℓ κ μ ν} :
    {A : Type ℓ} {B : Type κ} (P : A → Type μ) (Q : B → Type ν) (o : Option A) (f : A → Option B)
    → ((a : A) → P a → Holds Q (f a))
    → Holds P o
    → Holds Q (o >>= f)
Holds-bind P Q none f h p = tt
Holds-bind P Q (some a) f h p = h a p

pub HasValue-bind {ℓ κ} :
    {A : Type ℓ} {B : Type κ} (P : A → Type 0) (Q : B → Type 0) (o : Option A) (f : A → Option B)
    → ((a : A) → P a → HasValue Q (f a))
    → HasValue P o
    → HasValue Q (o >>= f)
HasValue-bind P Q none f h p = elim p [ ]
HasValue-bind P Q (some a) f h p = h a p

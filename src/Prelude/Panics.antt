-- ===== src/Prelude/Panics.antt =====
-- Computations that may panic: `assert!`, `unwrap`, an index out of bounds. A panic stops the
-- processor and yields no value.
use mathlib.Core.Path.{◌≡◌, refl, subst}
use mathlib.Core.Logic.{◌⊎◌, inl, inr}
use mathlib.Core.Bool.{Bool, true, false}
use mathlib.Core.Option.{Option, none, some}

pub data Exec {ℓ} (A : Type ℓ) : Type ℓ where
  ok : A → Exec A
  panic : Exec A

-- What follows a panic is not run.
abbrev pub ◌>>=◌ {κ ℓ} : {B : Type κ} {A : Type ℓ} → Exec A → (A → Exec B) → Exec B
panic >>= k = panic
ok value >>= k = k value

abbrev pub assert : Bool → Exec (Unit {0})
assert false = panic
assert true = ok tt

abbrev pub ◌>>◌ {κ} : {B : Type κ} → Exec (Unit {0}) → Exec B → Exec B
first >> second = first >>= λ done. second

infixl 5 ◌>>=◌ ◌>>◌
abbrev pub unwrap {ℓ} : {A : Type ℓ} → Option A → Exec A
unwrap none = panic
unwrap (some a) = ok a

pub Exec-cases {ℓ} : {A : Type ℓ} (m : Exec A) → (m ≡ panic) ⊎ ((a : A) × (m ≡ ok a))
Exec-cases (ok a) = inr (a, refl)
Exec-cases panic = inl refl

-- The value, if there is one, satisfies `P`.
abbrev pub Satisfies {ℓ κ} : {A : Type ℓ} → (A → Type κ) → Exec A → Type κ
Satisfies P (ok a) = P a
Satisfies P panic = Unit

pub Satisfies->>= {ℓ κ ι} :
    {A : Type ℓ} {B : Type κ} (P : B → Type ι) (m : Exec A) (f : A → Exec B)
    → ((a : A) → m ≡ ok a → Satisfies P (f a))
    → Satisfies P (m >>= f)
Satisfies->>= P (ok a) f h = h a refl
Satisfies->>= P panic f h = tt

-- A sequence satisfies what its second part makes of what the first satisfies.
pub Satisfies-then {ℓ κ ι υ} :
    {A : Type ℓ} {B : Type κ} (P : A → Type ι) (Q : B → Type υ) (m : Exec A) (f : A → Exec B)
    → Satisfies P m
    → ((a : A) → m ≡ ok a → P a → Satisfies Q (f a))
    → Satisfies Q (m >>= f)
Satisfies-then P Q (ok a) f p h = h a refl p
Satisfies-then P Q panic f p h = tt

pub Satisfies-ok {ℓ κ} :
    {A : Type ℓ} (P : A → Type κ) (m : Exec A) {a : A} → Satisfies P m → m ≡ ok a → P a
Satisfies-ok P m h e = subst (λ x. Satisfies P x) e h

pub Satisfies-map {ℓ κ ι} :
    {A : Type ℓ} (P : A → Type κ) (Q : A → Type ι) (m : Exec A)
    → ((a : A) → P a → Q a)
    → Satisfies P m
    → Satisfies Q m
Satisfies-map P Q (ok a) f h = f a h
Satisfies-map P Q panic f h = tt

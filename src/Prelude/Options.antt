-- ===== src/Prelude/Options.antt =====
-- Chains of options: the `?` of a function that returns one.
use attesta_protocol_backend.Prelude.{Bool, true, false, if◌then◌else◌, Option, none, some}

infixl 5 ◌>>=◌
abbrev pub ◌>>=◌ {ℓ κ} : {A : Type ℓ} {B : Type κ} → Option A → (A → Option B) → Option B
some a >>= f = f a
none >>= f = none

abbrev pub option_map {ℓ κ} : {A : Type ℓ} {B : Type κ} → (A → B) → Option A → Option B
option_map f (some a) = some (f a)
option_map f none = none

-- A predicate of the value that an option holds, if it holds one.
abbrev pub Yields {ℓ κ} : {A : Type ℓ} → (A → Type κ) → Option A → Type κ
Yields P none = Unit
Yields P (some a) = P a

pub if_Yields {ℓ κ} :
    {A : Type ℓ} (P : A → Type κ) (b : Bool) (x y : Option A)
    → Yields P x
    → Yields P y
    → Yields P (if b then x else y)
if_Yields P true x y h k = h
if_Yields P false x y h k = k

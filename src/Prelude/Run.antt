-- ===== src/Prelude/Run.antt =====
-- A computation that may panic: an index out of bounds, or arithmetic that Rust refuses.
use attesta_protocol_backend.Prelude.{Option, none, some}

pub data Run {ℓ} (A : Type ℓ) : Type ℓ where
  returns : A → Run A
  panics : Run A

infixl 5 ◌>>=◌
abbrev pub ◌>>=◌ {ℓ κ} : {A : Type ℓ} {B : Type κ} → Run A → (A → Run B) → Run B
returns a >>= f = f a
panics >>= f = panics

-- An index expression: out of bounds it panics.
abbrev pub or_panic {ℓ} : {A : Type ℓ} → Option A → Run A
or_panic (some a) = returns a
or_panic none = panics

-- ===== src/Prelude/Bytes.antt =====
-- Byte strings: a byte is a number, and `==` of arrays compares them item by item.
use attesta_protocol_backend.Prelude.{
  ℕ, ◌<◌, ◌≡◌, refl, ◌⊎◌, inl, inr, ◌↔◌, Bool, true, false, ◌&&◌, List, [], ◌∷◌, arith, ◌==◌, All,
  Bool-cases,
}

abbrev pub Bytes : Type 0
Bytes = List ℕ

abbrev pub IsBytes : Bytes → Type 0
IsBytes b = All (λ x. x < 256) b

unfoldable pub bytes_eq : Bytes → Bytes → Bool
bytes_eq [] [] = true
bytes_eq (x ∷ xs) (y ∷ ys) = (x == y) && bytes_eq xs ys
bytes_eq _ _ = false

pub bytes_eq_iff : (xs ys : Bytes) → (bytes_eq xs ys ≡ true) ↔ (xs ≡ ys)
unfolding bytes_eq
bytes_eq_iff [] [] = ground arith
bytes_eq_iff [] (y ∷ ys) = ground arith
bytes_eq_iff (x ∷ xs) [] = ground arith
bytes_eq_iff (x ∷ xs) (y ∷ ys) = ground (arith, bytes_eq_iff xs ys)

pub bytes_eq_refl : (xs : Bytes) → bytes_eq xs xs ≡ true
bytes_eq_refl xs = (bytes_eq_iff xs xs).1 refl

pub bytes_eq_cases : (xs ys : Bytes) → (xs ≡ ys) ⊎ (¬ (xs ≡ ys))
bytes_eq_cases xs ys = elim (Bool-cases (bytes_eq xs ys)) [
  | inl e ↦ inl ((bytes_eq_iff xs ys).0 e)
  | inr e ↦ inr (λ h. ground (arith, bytes_eq_iff xs ys))
]

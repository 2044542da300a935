-- ===== src/Retention/Batches.antt =====
-- The batches of `sweep` of crates/attesta-api/src/retention.rs.
use attesta_protocol_backend.Prelude.{
  ℕ, zero, suc, ◌+◌, ◌≡◌, refl, sym, subst, inl, inr, Bool, true, false, List, [], ◌∷◌, arith, All,
  Bool-cases, length, ltb, if◌then◌else◌,
}
use attesta_protocol_backend.Database.{CredentialDelivery}
use attesta_protocol_backend.Retention.{delete_batch}

-- The deliveries that a test does not hold of.
unfoldable pub spared :
    (CredentialDelivery → Bool) → List CredentialDelivery → List CredentialDelivery
spared test [] = []
spared test (x ∷ rows) = let rest = spared test rows in if test x then rest else x ∷ rest

less : (m n : ℕ) → ltb (suc m) (suc n) ≡ true → ltb m n ≡ true
less m n b = ground arith

module _ (p : CredentialDelivery → Bool) where
  pub delete_batch-spared :
      (q : CredentialDelivery → Bool) (n : ℕ) (rows : List CredentialDelivery)
      → ((d : CredentialDelivery) → p d ≡ true → q d ≡ true)
      → spared q (delete_batch p n rows).1 ≡ spared q rows
  unfolding delete_batch spared
  delete_batch-spared q n [] k = refl
  delete_batch-spared q zero (x ∷ rows) k = refl
  delete_batch-spared q (suc n) (x ∷ rows) k = elim (Bool-cases (p x)) [
    | inl e ↦ rw (e, k x e) (delete_batch-spared q n rows k)
    | inr e ↦ rw (e, delete_batch-spared q (suc n) rows k) refl
  ]

  pub delete_batch-length :
      (n : ℕ) (rows : List CredentialDelivery)
      → (delete_batch p n rows).0 + length (delete_batch p n rows).1 ≡ length rows
  unfolding delete_batch
  delete_batch-length n [] = omega arith
  delete_batch-length zero (x ∷ rows) = omega arith
  delete_batch-length (suc n) (x ∷ rows) =
      ground (arith, delete_batch-length n rows, delete_batch-length (suc n) rows)

  pub delete_batch-All :
      (q : CredentialDelivery → Bool) (n : ℕ) (rows : List CredentialDelivery)
      → All (λ d. q d ≡ false) rows
      → All (λ d. q d ≡ false) (delete_batch p n rows).1
  unfolding delete_batch
  delete_batch-All q n [] a = tt
  delete_batch-All q zero (x ∷ rows) a = a
  delete_batch-All q (suc n) (x ∷ rows) a = elim (Bool-cases (p x)) [
    | inl e ↦ rw e (delete_batch-All q n rows a.1)
    | inr e ↦ rw e (a.0, delete_batch-All q (suc n) rows a.1)
  ]

  -- A row that is deleted, and one that is not.
  deleted :
      (n : ℕ) (x : CredentialDelivery) (rows : List CredentialDelivery)
      → p x ≡ true
      → delete_batch p (suc n) (x ∷ rows)
        ≡ (suc (delete_batch p n rows).0, (delete_batch p n rows).1)
  unfolding delete_batch
  deleted n x rows e = rw e refl

  not_deleted :
      (n : ℕ) (x : CredentialDelivery) (rows : List CredentialDelivery)
      → p x ≡ false
      → delete_batch p (suc n) (x ∷ rows)
        ≡ ((delete_batch p (suc n) rows).0, x ∷ (delete_batch p (suc n) rows).1)
  unfolding delete_batch
  not_deleted n x rows e = rw e refl

  -- What a batch that was not full leaves.
  abbrev Done : ℕ → ℕ × List CredentialDelivery → Type 0
  Done n r = ltb r.0 n ≡ true → All (λ d. p d ≡ false) r.1

  none_left :
      (x : CredentialDelivery) (rows : List CredentialDelivery)
      → Done 0 (delete_batch p 0 (x ∷ rows))
  unfolding delete_batch
  none_left x rows b = absurd (cc)

  pub delete_batch-Done : (n : ℕ) (rows : List CredentialDelivery) → Done n (delete_batch p n rows)
  unfolding delete_batch
  delete_batch-Done n [] = λ b. tt
  delete_batch-Done zero (x ∷ rows) = none_left x rows
  delete_batch-Done (suc n) (x ∷ rows) = elim (Bool-cases (p x)) [
    | inl e ↦
        subst (Done (suc n)) (sym (deleted n x rows e))
          (λ b. delete_batch-Done n rows (less (delete_batch p n rows).0 n b))
    | inr e ↦
        subst (Done (suc n)) (sym (not_deleted n x rows e))
          (λ b. (e, delete_batch-Done (suc n) rows b))
  ]

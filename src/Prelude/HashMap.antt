-- ===== src/Prelude/HashMap.antt =====
-- `HashMap`, as an association list with one entry for each key.
use attesta_protocol_backend.Prelude.{
  ◌≡◌, ◌≢◌, refl, Bool, Option, none, some, List, [], ◌∷◌, arith, if◌then◌else◌,
}
use attesta_protocol_backend.Prelude.Keys.{Eq, ◌==◌}

abbrev pub HashMap : Type 0 → Type 0 → Type 0
HashMap K V = List (K × V)

module _ {K V : Type 0} ⦃e : Eq K⦄ where
  unfoldable pub find : K → HashMap K V → Option V
  find k [] = none
  find k ((j, v) ∷ m) = if j == k then some v else find k m

  unfoldable pub insert : K → V → HashMap K V → HashMap K V
  insert k v [] = (k, v) ∷ []
  insert k v ((j, w) ∷ m) = if j == k then (k, v) ∷ m else (j, w) ∷ insert k v m

  unfoldable pub remove : K → HashMap K V → HashMap K V
  remove k [] = []
  remove k ((j, w) ∷ m) = if j == k then m else (j, w) ∷ remove k m

  -- One entry for each key.
  abbrev pub Unique : HashMap K V → Type 0
  Unique [] = Unit
  Unique ((j, w) ∷ m) = (find j m ≡ none) × Unique m

  pub find-insert :
      (k j : K) (v : V) (m : HashMap K V)
      → find j (insert k v m) ≡ (if k == j then some v else find j m)
  unfolding find insert
  find-insert k j v [] = refl
  find-insert k j v ((i, w) ∷ m) =
      ground (arith, e.beq_iff k j, e.beq_iff i k, e.beq_iff i j, find-insert k j v m)

  pub insert-Unique : (k : K) (v : V) (m : HashMap K V) → Unique m → Unique (insert k v m)
  unfolding find insert
  insert-Unique k v [] u = (refl, tt)
  insert-Unique k v ((i, w) ∷ m) u =
      ground (arith, e.beq_iff i k, e.beq_iff k i, find-insert k i v m, insert-Unique k v m u.1)

  pub find-remove_ne : (k j : K) (m : HashMap K V) → k ≢ j → find j (remove k m) ≡ find j m
  unfolding find remove
  find-remove_ne k j [] h = refl
  find-remove_ne k j ((i, w) ∷ m) h =
      ground (arith, e.beq_iff i k, e.beq_iff i j, find-remove_ne k j m h)

  pub find-remove_self : (k : K) (m : HashMap K V) → Unique m → find k (remove k m) ≡ none
  unfolding find remove
  find-remove_self k [] u = refl
  find-remove_self k ((i, w) ∷ m) u = ground (arith, e.beq_iff i k, find-remove_self k m u.1)

  find-remove-none : (k j : K) (m : HashMap K V) → find j m ≡ none → find j (remove k m) ≡ none
  unfolding find remove
  find-remove-none k j [] h = refl
  find-remove-none k j ((i, w) ∷ m) h = ground (arith, find-remove-none k j m)

  pub remove-Unique : (k : K) (m : HashMap K V) → Unique m → Unique (remove k m)
  unfolding remove find
  remove-Unique k [] u = tt
  remove-Unique k ((i, w) ∷ m) u = ground (arith, remove-Unique k m u.1, find-remove-none k i m u.0)

abbrev pub keep_if : {V : Type 0} → (V → Bool) → Option V → Option V
keep_if p none = none
keep_if p (some v) = if p v then some v else none

-- `retain` with a test of the value.
unfoldable pub retain : {K V : Type 0} → (V → Bool) → HashMap K V → HashMap K V
retain p [] = []
retain p ((j, w) ∷ m) = let rest = retain p m in if p w then (j, w) ∷ rest else rest

module _ {K V : Type 0} ⦃e : Eq K⦄ where
  find-retain-none :
      (p : V → Bool) (k : K) (m : HashMap K V) → find k m ≡ none → find k (retain p m) ≡ none
  unfolding find retain
  find-retain-none p k [] h = refl
  find-retain-none p k ((i, w) ∷ m) h = ground (arith, find-retain-none p k m)

  pub find-retain :
      (p : V → Bool) (k : K) (m : HashMap K V)
      → Unique m
      → find k (retain p m) ≡ keep_if p (find k m)
  unfolding find retain
  find-retain p k [] u = refl
  find-retain p k ((i, w) ∷ m) u =
      ground (arith, e.beq_iff i k, find-retain p k m u.1, find-retain-none p k m)

  pub retain-Unique : (p : V → Bool) (m : HashMap K V) → Unique m → Unique (retain p m)
  unfolding find retain
  retain-Unique p [] u = tt
  retain-Unique p ((i, w) ∷ m) u = ground (arith, retain-Unique p m u.1, find-retain-none p i m u.0)

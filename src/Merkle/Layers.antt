-- ===== src/Merkle/Layers.antt =====
-- The levels of a tree as they would be rebuilt from the leaves, one layer from the one below, and
-- what a change of the last item of a layer does to the layer above.
use attesta_protocol_backend.Prelude.{
  ℕ, zero, suc, ◌+◌, ◌*◌, ◌/◌, ◌≤◌, ◌<◌, ◌≡◌, refl, ap, some, List, [], ◌∷◌, ◌++◌, arith, length,
  get_elem?, get_or, set, max, get_elem?-eq-get_or,
}
use attesta_protocol_backend.Prelude.Run.{returns}
use attesta_protocol_backend.Merkle.{Node, TreeHasher, push_zeros, put_parent}

-- The parents of a layer whose empty nodes are `z`, as `chunks(2)` pairs them up.
abbrev pub layer : TreeHasher → Node → List Node → List Node
layer h z [] = []
layer h z (x ∷ []) = h.hash_pair x z ∷ []
layer h z (x ∷ y ∷ rest) = h.hash_pair x y ∷ layer h z rest

-- The layers above `xs`, `rounds` of them.
unfoldable pub layers_above : TreeHasher → ℕ → Node → List Node → List (List Node)
layers_above h zero z xs = []
layers_above h (suc rounds) z xs =
    let up = layer h z xs in up ∷ layers_above h rounds (h.hash_pair z z) up

-- The layer `rounds` above `xs`, and the empty node there.
unfoldable pub top_layer : TreeHasher → ℕ → Node → List Node → List Node
top_layer h zero z xs = xs
top_layer h (suc rounds) z xs = top_layer h rounds (h.hash_pair z z) (layer h z xs)

unfoldable pub top_zero : TreeHasher → ℕ → Node → Node
top_zero h zero z = z
top_zero h (suc rounds) z = top_zero h rounds (h.hash_pair z z)

pub length-layer :
    (h : TreeHasher) (z : Node) (xs : List Node) → length (layer h z xs) ≡ (length xs + 1) / 2
length-layer h z [] = omega arith
length-layer h z (x ∷ []) = omega arith
length-layer h z (x ∷ y ∷ rest) = omega (arith, length-layer h z rest)

pub get-layers_above :
    (h : TreeHasher) (rounds : ℕ) (z : Node) (xs : List Node)
    → get_elem? (xs ∷ layers_above h rounds z xs) rounds ≡ some (top_layer h rounds z xs)
unfolding layers_above top_layer
get-layers_above h zero z xs = refl
get-layers_above h (suc rounds) z xs = get-layers_above h rounds (h.hash_pair z z) (layer h z xs)

pub get-push_zeros :
    (h : TreeHasher) (rounds : ℕ) (z : Node)
    → get_elem? (z ∷ push_zeros h rounds z) rounds ≡ some (top_zero h rounds z)
unfolding push_zeros top_zero
get-push_zeros h zero z = refl
get-push_zeros h (suc rounds) z = get-push_zeros h rounds (h.hash_pair z z)

-- Overwrite item `i`, or push it behind the last.
abbrev pub upsert : List Node → ℕ → Node → List Node
upsert [] i v = v ∷ []
upsert (x ∷ xs) zero v = v ∷ xs
upsert (x ∷ xs) (suc i) v = x ∷ upsert xs i v

pub upsert-push : (xs : List Node) (v : Node) → upsert xs (length xs) v ≡ xs ++ v ∷ []
upsert-push [] v = refl
upsert-push (x ∷ xs) v = ap (◌∷◌ x) (upsert-push xs v)

pub upsert-set : (xs : List Node) (i : ℕ) (v : Node) → i < length xs → upsert xs i v ≡ set xs i v
upsert-set [] i v h = absurd (omega arith)
upsert-set (x ∷ xs) zero v h = refl
upsert-set (x ∷ xs) (suc i) v h = ap (◌∷◌ x) (upsert-set xs i v (omega arith))

pub put_parent-upsert :
    (xs : List Node) (i : ℕ) (v : Node)
    → i ≤ length xs
    → put_parent xs i v ≡ returns (upsert xs i v)
unfolding put_parent
put_parent-upsert xs i v h = ground (arith, upsert-push xs v, upsert-set xs i v)

-- The last item of a layer, or one just behind it.
abbrev pub AtEnd : List Node → ℕ → Type 0
AtEnd xs i = (i ≤ length xs) × (length xs ≤ i + 1)

pub AtEnd-layer :
    (h : TreeHasher) (z : Node) (xs : List Node) (i : ℕ) → AtEnd xs i → AtEnd (layer h z xs) (i / 2)
AtEnd-layer h z xs i e = omega (arith, length-layer h z xs)

length-upsert :
    (xs : List Node) (i : ℕ) (v : Node)
    → i ≤ length xs
    → length (upsert xs i v) ≡ max (length xs) (i + 1)
length-upsert [] i v e = omega arith
length-upsert (x ∷ xs) zero v e = omega arith
length-upsert (x ∷ xs) (suc i) v e = omega (arith, length-upsert xs i v (omega arith))

half_suc : (i : ℕ) → suc (suc i) / 2 ≡ suc (i / 2)
half_suc i = omega arith

pub double_suc : (k : ℕ) → 2 * suc k ≡ suc (suc (2 * k))
double_suc k = omega arith

pub suc-suc_one : (k : ℕ) → suc (suc k) + 1 ≡ suc (suc (k + 1))
suc-suc_one k = omega arith

-- The left child that the loop reads is there.
pub get-upsert_left :
    (xs : List Node) (i : ℕ) (v : Node)
    → AtEnd xs i
    → get_elem? (upsert xs i v) (2 * (i / 2)) ≡ some (get_or (upsert xs i v) (2 * (i / 2)) v)
get-upsert_left xs i v e =
    get_elem?-eq-get_or (upsert xs i v) _ v (omega (arith, length-upsert xs i v e.0))

-- Changing the last node of a layer changes the last node above, to the hash of its children.
pub layer-upsert :
    (h : TreeHasher) (z : Node) (xs : List Node) (i : ℕ) (v : Node)
    → AtEnd xs i
    → let xs' = upsert xs i v in
      layer h z xs'
      ≡ upsert
          (layer h z xs)
          (i / 2)
          (h.hash_pair (get_or xs' (2 * (i / 2)) v) (get_or xs' (2 * (i / 2) + 1) z))
layer-upsert h z [] zero v e = refl
layer-upsert h z [] (suc i) v e = absurd (omega arith)
layer-upsert h z (x ∷ []) zero v e = refl
layer-upsert h z (x ∷ []) (suc zero) v e = refl
layer-upsert h z (x ∷ []) (suc (suc i)) v e = absurd (omega arith)
layer-upsert h z (x ∷ y ∷ rest) zero v e = absurd (omega arith)
layer-upsert h z (x ∷ y ∷ rest) (suc zero) v e = refl
layer-upsert h z (x ∷ y ∷ rest) (suc (suc i)) v e =
    rw (half_suc i, double_suc (i / 2), suc-suc_one (2 * (i / 2)))
      (ap (◌∷◌ (h.hash_pair x y)) (layer-upsert h z rest i v (omega arith)))

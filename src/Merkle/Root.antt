-- ===== src/Merkle/Root.antt =====
-- The root of crates/attesta-core/src/merkle.rs as the root of a complete binary tree, read from the
-- top down, whose places behind the leaves hold the empty leaf.
use attesta_protocol_backend.Prelude.{
  ℕ, zero, suc, ◌*◌, ◌^◌, ◌≡◌, refl, sym, ap, ◌∙◌, List, [], ◌∷◌, arith, get_or, take, drop,
  take-nil, drop-nil, ap₂,
}
use native.Mathlib.Nat.{pow-suc}
use attesta_protocol_backend.Prelude.Run.{returns, ◌>>=◌}
use attesta_protocol_backend.Merkle.{Node, TreeHasher, tree_depth, from_leaves, root}
use attesta_protocol_backend.Merkle.Layers.{layer, double_suc, top_layer, top_zero}
use attesta_protocol_backend.Merkle.Append.{root-mirror, from_leaves-mirror}

-- The root of the complete tree of depth `d` whose first leaves are `xs` and whose others are `z`.
unfoldable pub subtree : TreeHasher → Node → ℕ → List Node → Node
subtree h z zero xs = get_or xs 0 z
subtree h z (suc d) xs =
    h.hash_pair (subtree h z d (take (2 ^ d) xs)) (subtree h z d (drop (2 ^ d) xs))

layer-take :
    (h : TreeHasher) (z : Node) (n : ℕ) (xs : List Node)
    → layer h z (take (2 * n) xs) ≡ take n (layer h z xs)
layer-take h z zero xs = refl
layer-take h z (suc n) [] = rw (double_suc n)
layer-take h z (suc n) (x ∷ []) = rw (double_suc n, take-nil)
layer-take h z (suc n) (x ∷ y ∷ rest) = rw (double_suc n, layer-take h z n rest)

layer-drop :
    (h : TreeHasher) (z : Node) (n : ℕ) (xs : List Node)
    → layer h z (drop (2 * n) xs) ≡ drop n (layer h z xs)
layer-drop h z zero xs = refl
layer-drop h z (suc n) [] = rw (double_suc n)
layer-drop h z (suc n) (x ∷ []) = rw (double_suc n, drop-nil)
layer-drop h z (suc n) (x ∷ y ∷ rest) = rw (double_suc n, layer-drop h z n rest)

two_pow : (d : ℕ) → 2 ^ suc d ≡ 2 * 2 ^ d
two_pow d = omega (arith, pow-suc 2 d)

-- Peeling off the lowest layer.
subtree-layer :
    (h : TreeHasher) (z : Node) (d : ℕ) (xs : List Node)
    → subtree h z (suc d) xs ≡ subtree h (h.hash_pair z z) d (layer h z xs)
unfolding subtree
subtree-layer h z zero [] = refl
subtree-layer h z zero (x ∷ []) = refl
subtree-layer h z zero (x ∷ y ∷ rest) = refl
subtree-layer h z (suc d) xs =
    ap₂ h.hash_pair
      (subtree-layer h z d (take (2 ^ suc d) xs)
        ∙ ap (subtree h (h.hash_pair z z) d) (rw (two_pow d) (layer-take h z (2 ^ d) xs)))
      (subtree-layer h z d (drop (2 ^ suc d) xs)
        ∙ ap (subtree h (h.hash_pair z z) d) (rw (two_pow d) (layer-drop h z (2 ^ d) xs)))

subtree-top_layer :
    (h : TreeHasher) (z : Node) (d : ℕ) (xs : List Node)
    → get_or (top_layer h d z xs) 0 (top_zero h d z) ≡ subtree h z d xs
unfolding top_layer top_zero subtree
subtree-top_layer h z zero xs = refl
subtree-top_layer h z (suc d) xs =
    subtree-top_layer h (h.hash_pair z z) d (layer h z xs) ∙ sym (subtree-layer h z d xs)

-- Building a tree from leaves never panics, and its root is the root of the complete tree of depth 32
-- over the leaves (over the first 2^32 of them, if there are more).
pub from_leaves-root :
    (h : TreeHasher) (leaves : List Node)
    → (from_leaves h leaves >>= root) ≡ returns (subtree h h.empty_leaf tree_depth leaves)
from_leaves-root h leaves =
    rw (from_leaves-mirror, root-mirror, subtree-top_layer h h.empty_leaf tree_depth leaves)

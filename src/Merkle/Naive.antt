-- ===== src/Merkle/Naive.antt =====
-- The reference of the tests in crates/attesta-core/src/merkle.rs: a full rebuild, level by level.
use attesta_protocol_backend.Prelude.{
  ℕ, zero, suc, ◌≡◌, refl, List, [], ◌∷◌, get_or, get_or_of_get, ap,
}
use attesta_protocol_backend.Prelude.Run.{Run, returns, panics, ◌>>=◌}
use attesta_protocol_backend.Merkle.{Node, TreeHasher, tree_depth, push_zeros, from_leaves, root}
use attesta_protocol_backend.Merkle.Layers.{layer, top_layer, top_zero, get-push_zeros}
use attesta_protocol_backend.Merkle.Append.{root-mirror, from_leaves-mirror}

-- `for pair in level.chunks(2)`
unfoldable pub hash_chunks : TreeHasher → Node → List Node → List Node
hash_chunks h zero_node [] = []
hash_chunks h zero_node (x ∷ []) = h.hash_pair x zero_node ∷ []
hash_chunks h zero_node (x ∷ y ∷ rest) = h.hash_pair x y ∷ hash_chunks h zero_node rest

-- The rounds of the outer loop; `empty_root` is the `zeros[TREE_DEPTH]` of an early return.
unfoldable pub naive_rounds : TreeHasher → Node → ℕ → List Node → List Node → Run Node
naive_rounds h empty_root rounds zeros [] = elim rounds [
  | zero ↦ panics
  | suc r ↦ returns empty_root
]
naive_rounds h empty_root zero zeros (x ∷ level) = returns x
naive_rounds h empty_root (suc rounds) [] (x ∷ level) = panics
naive_rounds h empty_root (suc rounds) (z ∷ zeros) (x ∷ level) =
    naive_rounds h empty_root rounds zeros (hash_chunks h z (x ∷ level))

unfoldable pub naive_root : TreeHasher → List Node → Run Node
naive_root h leaves =
    let zeros = h.empty_leaf ∷ push_zeros h tree_depth h.empty_leaf in
    naive_rounds h (get_or zeros tree_depth h.empty_leaf) tree_depth zeros leaves

hash_chunks-layer : (h : TreeHasher) (z : Node) (xs : List Node) → hash_chunks h z xs ≡ layer h z xs
unfolding hash_chunks
hash_chunks-layer h z [] = refl
hash_chunks-layer h z (x ∷ []) = refl
hash_chunks-layer h z (x ∷ y ∷ rest) = rw (hash_chunks-layer h z rest)

naive_rounds-top :
    (h : TreeHasher) (r : Node) (rounds : ℕ) (z x : Node) (xs : List Node)
    → naive_rounds h r rounds (z ∷ push_zeros h rounds z) (x ∷ xs)
      ≡ returns (get_or (top_layer h rounds z (x ∷ xs)) 0 (top_zero h rounds z))
unfolding naive_rounds hash_chunks top_layer top_zero push_zeros
naive_rounds-top h r zero z x xs = refl
naive_rounds-top h r (suc rounds) z x [] =
    rw (hash_chunks-layer h z (x ∷ []))
      (naive_rounds-top h r rounds (h.hash_pair z z) (h.hash_pair x z) [])
naive_rounds-top h r (suc rounds) z x (y ∷ rest) =
    rw (hash_chunks-layer h z (x ∷ y ∷ rest))
      (naive_rounds-top h r rounds (h.hash_pair z z) (h.hash_pair x y) (layer h z rest))

top_layer-nil : (h : TreeHasher) (rounds : ℕ) (z : Node) → top_layer h rounds z [] ≡ []
unfolding top_layer
top_layer-nil h zero z = refl
top_layer-nil h (suc rounds) z = top_layer-nil h rounds (h.hash_pair z z)

naive_root-top :
    (h : TreeHasher) (leaves : List Node)
    → naive_root h leaves
      ≡ returns (
          get_or
            (top_layer h tree_depth h.empty_leaf leaves)
            0
            (top_zero h tree_depth h.empty_leaf))
unfolding naive_root naive_rounds
naive_root-top h [] = rw top_layer-nil (
    ap returns (
      get_or_of_get (h.empty_leaf ∷ push_zeros h tree_depth h.empty_leaf) tree_depth h.empty_leaf
        (get-push_zeros h tree_depth h.empty_leaf)))
naive_root-top h (x ∷ xs) = naive_rounds-top h _ tree_depth h.empty_leaf x xs

-- After any leaves the incremental tree has the root of the full rebuild.
pub from_leaves-naive_root :
    (h : TreeHasher) (leaves : List Node) → (from_leaves h leaves >>= root) ≡ naive_root h leaves
from_leaves-naive_root h leaves = rw (from_leaves-mirror, root-mirror, naive_root-top)

-- ===== src/Merkle/Append.antt =====
-- `append`, `from_leaves` and `root` of crates/attesta-core/src/merkle.rs against the tree that is
-- rebuilt from its leaves.
use attesta_protocol_backend.Prelude.{
  ℕ, zero, suc, ◌+◌, ◌*◌, ◌/◌, ◌≡◌, refl, List, [], ◌∷◌, ◌++◌, arith, length, get_or,
}
use mathlib.Core.List.{append_assoc, append-nil}
use attesta_protocol_backend.Prelude.Run.{returns}
use attesta_protocol_backend.Merkle.{
  Node, TreeHasher, MerkleTree, tree_depth, push_zeros, new, update_ancestors, append, append_all,
  from_leaves, len, root, push_leaf,
}
use attesta_protocol_backend.Merkle.Layers.{
  layer, layers_above, top_layer, top_zero, upsert, upsert-push, AtEnd, AtEnd-layer,
  put_parent-upsert, get-upsert_left, layer-upsert, get-layers_above, get-push_zeros,
}

-- The loop rebuilds every layer above a level whose last node was changed or added.
pub update_ancestors_lem :
    (h : TreeHasher) (rounds : ℕ) (z : Node) (xs : List Node) (i : ℕ) (v : Node)
    → AtEnd xs i
    → update_ancestors h rounds
        (z ∷ push_zeros h rounds z)
        (upsert xs i v ∷ layers_above h rounds z xs)
        i
      ≡ returns (upsert xs i v ∷ layers_above h rounds z (upsert xs i v))
unfolding update_ancestors push_zeros layers_above
update_ancestors_lem h zero z xs i v e = refl
update_ancestors_lem h (suc rounds) z xs i v e =
    let xs' = upsert xs i v in
    let parent = h.hash_pair (get_or xs' (2 * (i / 2)) v) (get_or xs' (2 * (i / 2) + 1) z) in
    let up = AtEnd-layer h z xs i e in
    rw (
      get-upsert_left xs i v e,
      put_parent-upsert (layer h z xs) (i / 2) parent up.0,
      update_ancestors_lem h rounds (h.hash_pair z z) (layer h z xs) (i / 2) parent up,
      layer-upsert h z xs i v e,
    )

-- The tree of these leaves, rebuilt level by level.
unfoldable pub mirror : TreeHasher → List Node → MerkleTree
mirror h leaves = record {
  hasher = h;
  levels = leaves ∷ layers_above h tree_depth h.empty_leaf leaves;
  zeros = h.empty_leaf ∷ push_zeros h tree_depth h.empty_leaf;
}

-- A new tree is the tree of no leaves.
pub new-mirror : (h : TreeHasher) → new h ≡ mirror h []
unfolding new mirror layers_above
new-mirror h = refl

-- Appending to the tree of `leaves` never panics, returns the number of leaves as the index, and
-- leaves the tree of `leaves` and the new leaf.
pub append-mirror :
    (h : TreeHasher) (leaves : List Node) (leaf : Node)
    → append (mirror h leaves) leaf ≡ returns (length leaves, mirror h (leaves ++ leaf ∷ []))
unfolding append push_leaf mirror
append-mirror h leaves leaf =
    let e = h.empty_leaf in
    rw (
      ← upsert-push leaves leaf,
      update_ancestors_lem h tree_depth e leaves (length leaves) leaf at_end,
    )
  where
    at_end : AtEnd leaves (length leaves)
    at_end = omega arith

pub append_all-mirror :
    (h : TreeHasher) (leaves more : List Node)
    → append_all (mirror h leaves) more ≡ returns (mirror h (leaves ++ more))
unfolding append_all
append_all-mirror h leaves [] = rw append-nil
append_all-mirror h leaves (leaf ∷ more) =
    rw (append-mirror h leaves leaf, append_all-mirror h (leaves ++ leaf ∷ []) more, append_assoc)

-- Building a tree from leaves never panics, and is the level by level rebuild.
pub from_leaves-mirror :
    (h : TreeHasher) (leaves : List Node) → from_leaves h leaves ≡ returns (mirror h leaves)
unfolding from_leaves
from_leaves-mirror h leaves = rw (new-mirror, append_all-mirror)

pub len-mirror : (h : TreeHasher) (leaves : List Node) → len (mirror h leaves) ≡ length leaves
unfolding len mirror
len-mirror h leaves = refl

pub root-mirror :
    (h : TreeHasher) (leaves : List Node)
    → root (mirror h leaves)
      ≡ returns (
          get_or
            (top_layer h tree_depth h.empty_leaf leaves)
            0
            (top_zero h tree_depth h.empty_leaf))
unfolding root mirror
root-mirror h leaves =
    rw (get-layers_above h tree_depth h.empty_leaf leaves, get-push_zeros h tree_depth h.empty_leaf)

-- ===== src/Tree/Served.antt =====
-- The handlers of crates/attesta-api/src/routes/tree.rs: no panic, and paths that verify.
use attesta_protocol_backend.Prelude.{
  get_elem?, ℕ, ◌≤◌, ◌^◌, ap, ◌≡◌, sym, ◌∙◌, true, String, some, List, length,
}
use attesta_protocol_backend.Prelude.Keys.{String_eq, Bytes_eq}
use attesta_protocol_backend.Prelude.Exec.{ok, Exec}
use attesta_protocol_backend.Prelude.Run.{returns, ◌>>=◌}
use attesta_protocol_backend.Merkle.{Node, TreeHasher, PathElement, root, path, verify_path}
use attesta_protocol_backend.Merkle.Root.{subtree, from_leaves-root}
use attesta_protocol_backend.Merkle.Append.{from_leaves-mirror}
use attesta_protocol_backend.Api.{Hex}
use attesta_protocol_backend.Tree.{
  PoolTree, Server, sync_pool_tree, parse_node, PathResponse, path_response,
}
use attesta_protocol_backend.Tree.Mirror.{MirrorOf}

module _ (h : TreeHasher) where
  -- A response for this commitment that is taken from the tree `t`: `t` is the tree of some leaves, the
  -- commitment is the leaf at the index of the response, the path is the one of `t` at that index, with 32
  -- elements, the root is that of the complete binary tree over the leaves, and the path verifies.
  abbrev pub Proves : Hex → String → Node → PoolTree → PathResponse → Type 0
  Proves hex pool commitment t response =
      (leaves : List Node) × (i : ℕ) × (p : List PathElement) × (r : Node) × (response
        ≡ path_response hex pool t i p r)
      × MirrorOf h t leaves
      × (get_elem? leaves i ≡ some commitment)
      × (path t.tree i ≡ returns (some p))
      × (length p ≡ 32)
      × (root t.tree ≡ returns r)
      × (r ≡ subtree h h.empty_leaf 32 leaves)
      × (verify_path t.tree commitment p r ≡ true)

  module _ (hex : Hex) (pool : String) (commitment : Node) (t : PoolTree) (leaves : List Node)
      (m : MirrorOf h t leaves) (fits : length leaves ≤ 2 ^ 32) where
    pub complete : (r : Node) → root t.tree ≡ returns r → r ≡ subtree h h.empty_leaf 32 leaves
    complete r re =
        let e : returns r ≡ returns (subtree h h.empty_leaf 32 leaves) =
          sym re
          ∙ ap root m.tree
          ∙ sym (ap (λ m. m >>= root) (from_leaves-mirror h leaves))
          ∙ from_leaves-root h leaves in
        cc

-- The same for the commitment that a request asks for, and the tree that the sync before it returns.
abbrev pub Answer : TreeHasher → Hex → String → String → Server → PathResponse → Type 0
Answer h hex pool q s response =
    (commitment : Node) × (t : PoolTree) × (s' : Server) × (parse_node hex q s ≡ (ok commitment, s))
    × (sync_pool_tree h pool s ≡ (ok t, s'))
    × Proves h hex pool commitment t response

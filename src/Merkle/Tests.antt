-- ===== src/Merkle/Tests.antt =====
-- Runs of crates/attesta-core/src/merkle.rs on small inputs, and its theorems at such inputs.
use attesta_protocol_backend.Prelude.{
  ℕ, ◌+◌, ◌*◌, ◌%◌, ◌^◌, ◌≡◌, ◌≢◌, refl, Bool, true, false, none, some, List, [], ◌∷◌, arith,
  length, replicate,
}
use attesta_protocol_backend.Prelude.Bytes.{Bytes, bytes_eq}
use attesta_protocol_backend.Prelude.Run.{Run, returns, ◌>>=◌}
use attesta_protocol_backend.Merkle.{
  Node, TreeHasher, PathElement, MerkleTree, sha256_hasher, push_zeros, new, put_parent,
  update_ancestors, append, append_all, push_leaf, from_leaves, len, root, siblings, path, climb,
  verify_path,
}
use attesta_protocol_backend.Merkle.Append.{mirror, append-mirror, from_leaves-mirror}
use attesta_protocol_backend.Merkle.Root.{subtree, from_leaves-root}
use attesta_protocol_backend.Merkle.Paths.{paths_verify, path_missing}
use attesta_protocol_backend.Merkle.Naive.{naive_root, from_leaves-naive_root}
use attesta_protocol_backend.Merkle.Binding.{Collides, verify_path-binding}

-- A digest of four bytes' worth, in place of SHA-256.
toy_digest : Bytes → ℕ → Bytes
toy_digest [] acc = acc ∷ []
toy_digest (b ∷ bs) acc = toy_digest bs ((acc * 31 + b + 7) % 2 ^ 32)

toy : TreeHasher
toy = sha256_hasher (λ bs. toy_digest bs 0)

abbrev leaf : ℕ → Node
leaf n = n ∷ replicate 31 0

abbrev two_leaves : List Node
two_leaves = leaf 1 ∷ leaf 2 ∷ []

append-mirror_example :
    append (mirror toy two_leaves) (leaf 3)
    ≡ returns (2, mirror toy (leaf 1 ∷ leaf 2 ∷ leaf 3 ∷ []))
append-mirror_example = append-mirror toy two_leaves (leaf 3)

from_leaves-root_example :
    (from_leaves toy two_leaves >>= root) ≡ returns (subtree toy toy.empty_leaf 32 two_leaves)
from_leaves-root_example = from_leaves-root toy two_leaves

from_leaves-naive_root_example : (from_leaves toy two_leaves >>= root) ≡ naive_root toy two_leaves
from_leaves-naive_root_example = from_leaves-naive_root toy two_leaves

paths_verify_example :
    (p : List PathElement) × (r : Node) × (path (mirror toy two_leaves) 1 ≡ returns (some p))
    × (length p ≡ 32)
    × (root (mirror toy two_leaves) ≡ returns r)
    × (verify_path (mirror toy two_leaves) (leaf 2) p r ≡ true)
paths_verify_example =
    paths_verify toy two_leaves (mirror toy two_leaves) 1 (leaf 2)
      (from_leaves-mirror toy two_leaves) refl (omega arith)

path_missing_example : path (mirror toy two_leaves) 2 ≡ returns none
path_missing_example =
    path_missing toy two_leaves (mirror toy two_leaves) 2 (from_leaves-mirror toy two_leaves)
      (omega arith)

abbrev first : Node → ℕ
first [] = 0
first (b ∷ bs) = b

-- A hash with collisions: the sum of the first bytes.
abbrev weak : MerkleTree
weak = record {
  hasher = record { hash_pair = λ l r. (first l + first r) ∷ []; empty_leaf = 0 ∷ [] };
  levels = [];
  zeros = [];
}

-- Two paths of two levels with different siblings.
abbrev path_of_1 : List PathElement
path_of_1 =
    record { sibling = 5 ∷ []; sibling_on_right = true }
    ∷ record { sibling = 3 ∷ []; sibling_on_right = false }
    ∷ []

abbrev path_of_2 : List PathElement
path_of_2 =
    record { sibling = 2 ∷ []; sibling_on_right = true }
    ∷ record { sibling = 5 ∷ []; sibling_on_right = false }
    ∷ []

leaves_differ : ◌≢◌ {A = Node} (1 ∷ []) (2 ∷ [])
leaves_differ h = ground arith

verify_path-binding_example : Collides weak.hasher (1 ∷ []) (2 ∷ []) path_of_1 path_of_2
unfolding verify_path climb bytes_eq
verify_path-binding_example =
    verify_path-binding weak (1 ∷ []) (2 ∷ []) (9 ∷ []) path_of_1 path_of_2 leaves_differ refl refl
      refl

-- Three leaves, as the program runs.
three : Run (ℕ × Bool)
three = do
  t ← from_leaves toy (leaf 1 ∷ leaf 2 ∷ leaf 3 ∷ [])
  r ← root t
  p ← path t 2
  returns (len t, elim p [ none ↦ false | some els ↦ verify_path t (leaf 3) els r ])

three_runs : three ≡ returns (3, true)
unfolding three toy toy_digest sha256_hasher push_zeros new put_parent update_ancestors append
    append_all from_leaves len root push_leaf siblings path climb verify_path bytes_eq
three_runs = refl

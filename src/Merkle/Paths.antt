-- ===== src/Merkle/Paths.antt =====
-- `path` and `verify_path` of crates/attesta-core/src/merkle.rs: the served paths lead to the root.
use Prim.Native.Nat.{bit_xor}
use attesta_protocol_backend.Prelude.{
  ℕ, zero, suc, ◌+◌, ◌-◌, ◌*◌, ◌/◌, ◌%◌, ◌^◌, ◌≤◌, ◌<◌, ◌≡◌, refl, ap, ◌∙◌, true, none, some, List,
  [], ◌∷◌, arith, length, get_elem?, get_or, get_elem?-lt, get_elem?-eq-get_or, Bool-cases, inl,
  inr, ◌==◌, leb, if◌then◌else◌,
}
use native.Mathlib.Nat.{pow-suc}
use attesta_protocol_backend.Prelude.Bits.{bit_xor-one}
use attesta_protocol_backend.Prelude.Bytes.{bytes_eq_refl}
use attesta_protocol_backend.Prelude.Run.{returns}
use attesta_protocol_backend.Merkle.{
  Node, TreeHasher, PathElement, MerkleTree, tree_depth, push_zeros, siblings, path, climb,
  verify_path, root, from_leaves,
}
use attesta_protocol_backend.Merkle.Layers.{
  layer, layers_above, top_layer, top_zero, double_suc, suc-suc_one,
}
use attesta_protocol_backend.Merkle.Append.{mirror, root-mirror, from_leaves-mirror, len-mirror}

-- The siblings of node `idx`, layer by layer.
unfoldable pub spec_path : TreeHasher → ℕ → Node → List Node → ℕ → List PathElement
spec_path h zero z xs idx = []
spec_path h (suc rounds) z xs idx =
    record { sibling = get_or xs (bit_xor idx 1) z; sibling_on_right = idx % 2 == 0 }
    ∷ spec_path h rounds (h.hash_pair z z) (layer h z xs) (idx / 2)

siblings-spec_path :
    (h : TreeHasher) (rounds : ℕ) (z : Node) (xs : List Node) (idx : ℕ)
    → siblings rounds (z ∷ push_zeros h rounds z) (xs ∷ layers_above h rounds z xs) idx
      ≡ returns (spec_path h rounds z xs idx)
unfolding siblings push_zeros layers_above spec_path
siblings-spec_path h zero z xs idx = refl
siblings-spec_path h (suc rounds) z xs idx =
    rw (siblings-spec_path h rounds (h.hash_pair z z) (layer h z xs) (idx / 2))

length-spec_path :
    (h : TreeHasher) (rounds : ℕ) (z : Node) (xs : List Node) (idx : ℕ)
    → length (spec_path h rounds z xs idx) ≡ rounds
unfolding spec_path
length-spec_path h zero z xs idx = refl
length-spec_path h (suc rounds) z xs idx =
    ap suc (length-spec_path h rounds (h.hash_pair z z) (layer h z xs) (idx / 2))

-- Node `k` of a layer is the hash of the two nodes below, empty ones included.
get-layer_pair :
    (h : TreeHasher) (z : Node) (xs : List Node) (k : ℕ)
    → get_or (layer h z xs) k (h.hash_pair z z)
      ≡ h.hash_pair (get_or xs (2 * k) z) (get_or xs (2 * k + 1) z)
get-layer_pair h z [] k = refl
get-layer_pair h z (x ∷ []) zero = refl
get-layer_pair h z (x ∷ []) (suc k) = rw (double_suc k, suc-suc_one (2 * k))
get-layer_pair h z (x ∷ y ∷ rest) zero = refl
get-layer_pair h z (x ∷ y ∷ rest) (suc k) =
    rw (double_suc k, suc-suc_one (2 * k)) (get-layer_pair h z rest k)

-- The node above `idx` is the hash of node `idx` and its sibling, each on its side.
get-layer :
    (h : TreeHasher) (z : Node) (xs : List Node) (idx : ℕ)
    → (if idx % 2 == 0
        then h.hash_pair (get_or xs idx z) (get_or xs (bit_xor idx 1) z)
        else h.hash_pair (get_or xs (bit_xor idx 1) z) (get_or xs idx z))
      ≡ get_or (layer h z xs) (idx / 2) (h.hash_pair z z)
get-layer h z xs idx = rw (get-layer_pair h z xs (idx / 2)) (elim (Bool-cases (idx % 2 == 0)) [
  | inl e ↦ let even : 2 * (idx / 2) ≡ idx = ground arith in rw (bit_xor-one idx, e, even)
  | inr e ↦
      let odd : 2 * (idx / 2) + 1 ≡ idx = ground arith in
      let before : 2 * (idx / 2) ≡ idx - 1 = ground arith in rw (bit_xor-one idx, e, odd, before)
])

climb-spec_path :
    (h : TreeHasher) (rounds : ℕ) (z : Node) (xs : List Node) (idx : ℕ)
    → idx < 2 ^ rounds
    → climb h (get_or xs idx z) (spec_path h rounds z xs idx)
      ≡ get_or (top_layer h rounds z xs) 0 (top_zero h rounds z)
unfolding climb spec_path top_layer top_zero
climb-spec_path h zero z xs idx b = let first : idx ≡ 0 = omega arith in rw first
climb-spec_path h (suc rounds) z xs idx b =
    ap (λ n. climb h n (spec_path h rounds (h.hash_pair z z) (layer h z xs) (idx / 2)))
      (get-layer h z xs idx)
    ∙ climb-spec_path h rounds (h.hash_pair z z) (layer h z xs) (idx / 2)
        (omega (arith, pow-suc 2 rounds))

-- `path` never panics: the siblings of a leaf, and nothing for a missing one.
pub path-mirror :
    (h : TreeHasher) (leaves : List Node) (idx : ℕ)
    → path (mirror h leaves) idx
      ≡ returns (
          if leb (length leaves) idx
          then none
          else some (spec_path h tree_depth h.empty_leaf leaves idx))
unfolding path mirror
path-mirror h leaves idx =
    rw (len-mirror h leaves, siblings-spec_path h tree_depth h.empty_leaf leaves idx) (ground arith)

verify-mirror :
    (h : TreeHasher) (leaves : List Node) (idx : ℕ)
    → idx < 2 ^ tree_depth
    → verify_path
        (mirror h leaves)
        (get_or leaves idx h.empty_leaf)
        (spec_path h tree_depth h.empty_leaf leaves idx)
        (get_or (top_layer h tree_depth h.empty_leaf leaves) 0 (top_zero h tree_depth h.empty_leaf))
      ≡ true
unfolding verify_path mirror
verify-mirror h leaves idx b =
    rw (climb-spec_path h tree_depth h.empty_leaf leaves idx b) (bytes_eq_refl _)

-- In a tree built from at most 2^32 leaves, `path` serves 32 siblings for each leaf, and
-- `verify_path` accepts that leaf with them against the tree's root.
pub paths_verify :
    (h : TreeHasher) (leaves : List Node) (t : MerkleTree) (idx : ℕ) (leaf : Node)
    → from_leaves h leaves ≡ returns t
    → get_elem? leaves idx ≡ some leaf
    → length leaves ≤ 2 ^ tree_depth
    → (p : List PathElement) × (r : Node) × (path t idx ≡ returns (some p))
      × (length p ≡ tree_depth)
      × (root t ≡ returns r)
      × (verify_path t leaf p r ≡ true)
paths_verify h leaves t idx leaf built at fits =
    let here : idx < length leaves = get_elem?-lt leaves idx leaf at in
    let t_eq : mirror h leaves ≡ t = cc (from_leaves-mirror h leaves) in
    let leaf_eq : get_or leaves idx h.empty_leaf ≡ leaf =
      cc (get_elem?-eq-get_or leaves idx h.empty_leaf here) in
    let z = h.empty_leaf in
    rw (← t_eq, ← leaf_eq)
      (
        spec_path h tree_depth z leaves idx,
        get_or (top_layer h tree_depth z leaves) 0 (top_zero h tree_depth z),
        ground (arith, path-mirror h leaves idx),
        length-spec_path h tree_depth z leaves idx,
        root-mirror h leaves,
        verify-mirror h leaves idx (omega arith),
      )

-- A tree built from leaves serves no path at an index behind the last of them.
pub path_missing :
    (h : TreeHasher) (leaves : List Node) (t : MerkleTree) (idx : ℕ)
    → from_leaves h leaves ≡ returns t
    → length leaves ≤ idx
    → path t idx ≡ returns none
path_missing h leaves t idx built b =
    let t_eq : mirror h leaves ≡ t = cc (from_leaves-mirror h leaves) in
    rw (← t_eq) (ground (arith, path-mirror h leaves idx))

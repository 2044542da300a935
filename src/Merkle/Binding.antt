-- ===== src/Merkle/Binding.antt =====
-- What `verify_path` of crates/attesta-core/src/merkle.rs proves to its caller: a second leaf at the
-- same place can only be accepted against the same root through a collision of the pair hash.
use attesta_protocol_backend.Prelude.{
  ap, ◌≡◌, sym, ◌∙◌, ◌≢◌, ◌⊎◌, inl, inr, Bool, true, List, [], ◌∷◌, map, arith, Bool-cases,
  if◌then◌else◌,
}
use attesta_protocol_backend.Prelude.Bytes.{bytes_eq_iff, bytes_eq_cases}
use attesta_protocol_backend.Merkle.{Node, TreeHasher, PathElement, MerkleTree, climb, verify_path}

-- The sides of a path: they say at which index of the tree its leaf stands.
abbrev pub sides : List PathElement → List Bool
sides p = map (λ el. el.sibling_on_right) p

-- What `verify_path` hashes at an element of a path: the left node and the right node.
abbrev pub pair_at : Node → PathElement → Node × Node
pair_at node el = if el.sibling_on_right then (node, el.sibling) else (el.sibling, node)

abbrev pub hash_of : TreeHasher → Node × Node → Node
hash_of h (left, right) = h.hash_pair left right

-- At one level of the two paths, the climbs from `a` and from `b` hash two different pairs of nodes to the
-- same node.
abbrev pub Collides : TreeHasher → Node → Node → List PathElement → List PathElement → Type 0
Collides h a b (x ∷ p) (y ∷ q) =
    (pair_at a x ≢ pair_at b y) × (hash_of h (pair_at a x) ≡ hash_of h (pair_at b y))
    ⊎ Collides h (hash_of h (pair_at a x)) (hash_of h (pair_at b y)) p q
Collides h a b p q = ⊥

parent-pair_at :
    (h : TreeHasher) (a : Node) (x : PathElement)
    → (if x.sibling_on_right then h.hash_pair a x.sibling else h.hash_pair x.sibling a)
      ≡ hash_of h (pair_at a x)
parent-pair_at h a x = elim (Bool-cases x.sibling_on_right) [
  | inl right ↦ rw right
  | inr left ↦ rw left
]

pair_at-ne :
    (a b : Node) (x y : PathElement)
    → a ≢ b
    → x.sibling_on_right ≡ y.sibling_on_right
    → pair_at a x ≢ pair_at b y
pair_at-ne a b x y ne same e = elim (Bool-cases x.sibling_on_right) [
  | inl right ↦ ne (ground arith)
  | inr left ↦ ne (ground arith)
]

climb-Collides :
    (h : TreeHasher) (a b : Node) (p q : List PathElement)
    → a ≢ b
    → sides p ≡ sides q
    → climb h a p ≡ climb h b q
    → Collides h a b p q
unfolding climb
climb-Collides h a b [] [] ne same e = absurd (ne e)
climb-Collides h a b [] (y ∷ q) ne same e = absurd (cc)
climb-Collides h a b (x ∷ p) [] ne same e = absurd (cc)
climb-Collides h a b (x ∷ p) (y ∷ q) ne same e =
    let up = climb-Collides h (hash_of h (pair_at a x)) (hash_of h (pair_at b y)) p q in
    elim (bytes_eq_cases (hash_of h (pair_at a x)) (hash_of h (pair_at b y))) [
      | inl met ↦ inl (pair_at-ne a b x y ne (cc), met)
      | inr apart ↦ inr (
          up apart (cc) (
            sym (ap (λ n. climb h n p) (parent-pair_at h a x))
            ∙ e
            ∙ ap (λ n. climb h n q) (parent-pair_at h b y)))
    ]

-- If one tree accepts two different leaves at the same place (with the siblings on the same sides) against
-- the same root, then at some level of the two given paths their climbs hash two different pairs of nodes
-- to the same node. The siblings may differ.
pub verify_path-binding :
    (t : MerkleTree) (a b root : Node) (p q : List PathElement)
    → a ≢ b
    → sides p ≡ sides q
    → verify_path t a p root ≡ true
    → verify_path t b q root ≡ true
    → Collides t.hasher a b p q
unfolding verify_path
verify_path-binding t a b root p q ne same va vb =
    climb-Collides t.hasher a b p q ne same
      ((bytes_eq_iff _ root).0 va ∙ sym ((bytes_eq_iff _ root).0 vb))

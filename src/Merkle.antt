-- ===== src/Merkle.antt =====
-- crates/attesta-core/src/merkle.rs: the incremental append-only Merkle tree over note commitments.
-- A loop over `depth in 0..TREE_DEPTH` is a recursion on the rounds left that walks `levels` and
-- `zeros` from that depth on; an index out of bounds is the `panics` of `Run`.
pub mod Layers
pub mod Append
pub mod Root
pub mod Paths
pub mod Binding
pub mod Naive
mod Tests
use Prim.Native.Nat.{bit_xor}
use attesta_protocol_backend.Prelude.{
  ℕ, zero, suc, ◌+◌, ◌*◌, ◌/◌, ◌%◌, Bool, Option, none, some, List, [], ◌∷◌, ◌++◌, length,
  get_elem?, get_or, set, replicate, leb, ltb, ◌==◌, if◌then◌else◌,
}
use attesta_protocol_backend.Prelude.Bytes.{Bytes, bytes_eq}
use attesta_protocol_backend.Prelude.Run.{Run, returns, panics, ◌>>=◌, or_panic}

abbrev pub tree_depth : ℕ
tree_depth = 32

-- `[u8; 32]`; the length is not part of the type here.
abbrev pub Node : Type 0
Node = Bytes

-- The trait: the code behind it is a parameter of all that follows.
pub record TreeHasher : Type 0 where
  pub hash_pair : Node → Node → Node
  pub empty_leaf : Node

-- SHA-256 of the two nodes' bytes in turn; the digest itself is the `sha2` crate's.
unfoldable pub sha256_hasher : (Bytes → Bytes) → TreeHasher
sha256_hasher sha256 = record {
  hash_pair = λ left right. sha256 (left ++ right);
  empty_leaf = replicate 32 0;
}

pub record PathElement : Type 0 where
  pub sibling : Node
  pub sibling_on_right : Bool

pub record MerkleTree : Type 0 where
  pub hasher : TreeHasher
  pub levels : List (List Node)
  pub zeros : List Node

-- The `zeros` pushed after `z`, one a round.
unfoldable pub push_zeros : TreeHasher → ℕ → Node → List Node
push_zeros h zero z = []
push_zeros h (suc rounds) z = let next = h.hash_pair z z in next ∷ push_zeros h rounds next

unfoldable pub new : TreeHasher → MerkleTree
new hasher = record {
  hasher = hasher;
  levels = replicate (tree_depth + 1) [];
  zeros = hasher.empty_leaf ∷ push_zeros hasher tree_depth hasher.empty_leaf;
}

-- `if parent_idx == parents.len() { parents.push(parent) } else { parents[parent_idx] = parent }`
unfoldable pub put_parent : List Node → ℕ → Node → Run (List Node)
put_parent parents parent_idx parent =
    if parent_idx == length parents
    then returns (parents ++ parent ∷ [])
    else if ltb parent_idx (length parents)
    then returns (set parents parent_idx parent)
    else panics

-- The rounds of the loop in `append`: each reads its level and writes the one above.
unfoldable pub update_ancestors :
    TreeHasher → ℕ → List Node → List (List Node) → ℕ → Run (List (List Node))
update_ancestors h zero zeros levels idx = returns levels
update_ancestors h (suc rounds) (z ∷ zeros) (level ∷ parents ∷ above) idx = do
  let parent_idx = idx / 2
  left ← or_panic (get_elem? level (2 * parent_idx))
  let right = get_or level (2 * parent_idx + 1) z
  parents' ← put_parent parents parent_idx (h.hash_pair left right)
  above' ← update_ancestors h rounds zeros (parents' ∷ above) parent_idx
  returns (level ∷ above')
update_ancestors h (suc rounds) zeros levels idx = panics

unfoldable pub push_leaf : List (List Node) → Node → Run (ℕ × List (List Node))
push_leaf [] leaf = panics
push_leaf (leaves ∷ above) leaf = returns (length leaves, (leaves ++ leaf ∷ []) ∷ above)

-- The index of the new leaf, and the tree after the call.
unfoldable pub append : MerkleTree → Node → Run (ℕ × MerkleTree)
append t leaf = do
  pushed ← push_leaf t.levels leaf
  levels ← update_ancestors t.hasher tree_depth t.zeros pushed.1 pushed.0
  returns (pushed.0, record t { levels = levels })

unfoldable pub append_all : MerkleTree → List Node → Run MerkleTree
append_all t [] = returns t
append_all t (leaf ∷ leaves) = do appended ← append t leaf; append_all appended.1 leaves

unfoldable pub from_leaves : TreeHasher → List Node → Run MerkleTree
from_leaves hasher leaves = append_all (new hasher) leaves

unfoldable pub len : MerkleTree → ℕ
len t = length (get_or t.levels 0 [])

unfoldable pub is_empty : MerkleTree → Bool
unfolding len
is_empty t = len t == 0

unfoldable pub root : MerkleTree → Run Node
root t = do
  top ← or_panic (get_elem? t.levels tree_depth)
  zero_root ← or_panic (get_elem? t.zeros tree_depth)
  returns (get_or top 0 zero_root)

-- The rounds of the loop in `path`, siblings bottom-up.
unfoldable pub siblings : ℕ → List Node → List (List Node) → ℕ → Run (List PathElement)
siblings zero zeros levels idx = returns []
siblings (suc rounds) (z ∷ zeros) (level ∷ above) idx = do
  rest ← siblings rounds zeros above (idx / 2)
  returns
      (record { sibling = get_or level (bit_xor idx 1) z; sibling_on_right = idx % 2 == 0 } ∷ rest)
siblings (suc rounds) zeros levels idx = panics

unfoldable pub path : MerkleTree → ℕ → Run (Option (List PathElement))
path t index =
    if leb (len t) index
    then returns none
    else do p ← siblings tree_depth t.zeros t.levels index; returns (some p)

-- The loop of `verify_path`: the node reached from `node` along the path.
unfoldable pub climb : TreeHasher → Node → List PathElement → Node
climb h node [] = node
climb h node (el ∷ els) =
    climb h
      (if el.sibling_on_right then h.hash_pair node el.sibling else h.hash_pair el.sibling node) els

unfoldable pub verify_path : MerkleTree → Node → List PathElement → Node → Bool
verify_path t leaf p root = bytes_eq (climb t.hasher leaf p) root

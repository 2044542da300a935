-- ===== src/Tree/Mirror.antt =====
-- The cached trees of crates/attesta-api/src/routes/tree.rs stay trees of lists of leaves.
use attesta_protocol_backend.Prelude.{
  ℕ, zero, suc, ◌≡◌, refl, sym, ◌∙◌, Bool, true, false, String, Option, none, some, List, [], ◌∷◌,
  ◌++◌, length, get_elem?, arith, if◌then◌else◌,
}
use attesta_protocol_backend.Prelude.Int.{ℤ, as_i64}
use attesta_protocol_backend.Prelude.Keys.{◌==◌, ℤ_eq, Bytes_eq, String_eq}
use attesta_protocol_backend.Prelude.HashMap.{find, find-insert}
use attesta_protocol_backend.Prelude.Exec.{Result, ok, err, Exec, resume}
use attesta_protocol_backend.Database.{CommitmentRow, TreeRoot}
use attesta_protocol_backend.Events.Values.{to_32}
use attesta_protocol_backend.Merkle.{Node, TreeHasher, len}
use attesta_protocol_backend.Merkle.Append.{mirror, append-mirror, root-mirror, new-mirror}
use attesta_protocol_backend.Api.{ApiError, Fault, answers_error, panicked, or_error}
use attesta_protocol_backend.Tree.{PoolTree, new_pool_tree, append_node, append_rows, or_default}

-- A cached tree is the tree of these leaves, and every indexed commitment stands at its index.
pub record MirrorOf (h : TreeHasher) (t : PoolTree) (leaves : List Node) : Type 0 where
  pub tree : t.tree ≡ mirror h leaves
  pub index :
      (node : Node) (i : ℕ)
      → find node t.index_by_commitment ≡ some i
      → get_elem? leaves i ≡ some node

abbrev pub IsMirror : TreeHasher → PoolTree → Type 0
IsMirror h t = (leaves : List Node) × MirrorOf h t leaves

get_elem?-snoc_last : (xs : List Node) (x : Node) → get_elem? (xs ++ x ∷ []) (length xs) ≡ some x
get_elem?-snoc_last [] x = refl
get_elem?-snoc_last (y ∷ xs) x = get_elem?-snoc_last xs x

get_elem?-snoc :
    (xs : List Node) (x : Node) (i : ℕ) (a : Node)
    → get_elem? xs i ≡ some a
    → get_elem? (xs ++ x ∷ []) i ≡ some a
get_elem?-snoc [] x i a h = absurd (cc)
get_elem?-snoc (y ∷ xs) x zero a h = h
get_elem?-snoc (y ∷ xs) x (suc i) a h = get_elem?-snoc xs x i a h

-- A step on a cached tree never panics, and leaves a tree of leaves.
abbrev pub TreeEnds : {A : Type 0} → TreeHasher → Result Fault A × PoolTree → Type 0
TreeEnds h (ok a, t) = IsMirror h t
TreeEnds h (err (answers_error e), t) = IsMirror h t
TreeEnds h (err panicked, t) = ⊥

module _ (h : TreeHasher) where
  resume-TreeEnds :
      {A B : Type 0} (r : Result Fault A × PoolTree) (f : A → Exec PoolTree Fault B)
      → TreeEnds h r
      → ((a : A) (t : PoolTree) → IsMirror h t → TreeEnds h (f a t))
      → TreeEnds h (resume r f)
  resume-TreeEnds (ok a, t) f m k = k a t m
  resume-TreeEnds (err (answers_error e), t) f m k = m
  resume-TreeEnds (err panicked, t) f m k = m

  append_node-TreeEnds :
      (pool : String) (node : Node) (ledger : ℤ) (t : PoolTree)
      → IsMirror h t
      → TreeEnds h (append_node pool node ledger t)
  unfolding append_node
  append_node-TreeEnds pool node ledger t (leaves, m) =
      rw (m.tree, append-mirror h leaves node, root-mirror h (leaves ++ node ∷ []))
        (
          leaves ++ node ∷ [],
          record {
            tree = refl;
            index = λ other i e.
                indexed other i
                  (sym (find-insert node other (length leaves) t.index_by_commitment) ∙ e);
          },
        )
    where
      indexed :
          (other : Node) (i : ℕ)
          → (if node == other then some (length leaves) else find other t.index_by_commitment)
            ≡ some i
          → get_elem? (leaves ++ node ∷ []) i ≡ some other
      indexed other i e = ground (
        arith,
        Bytes_eq.beq_iff node other,
        get_elem?-snoc_last leaves node,
        get_elem?-snoc leaves node i other,
        m.index other i,
      )

  or_error-TreeEnds :
      {A : Type 0} (e : ApiError) (o : Option A) (t : PoolTree)
      → IsMirror h t
      → TreeEnds h (or_error e o t)
  or_error-TreeEnds e (some a) t m = m
  or_error-TreeEnds e none t m = m

  if-TreeEnds :
      (b : Bool) (r : Result Fault (List TreeRoot) × PoolTree) (t : PoolTree)
      → IsMirror h t
      → TreeEnds h r
      → TreeEnds h (if b then r else (ok [], t))
  if-TreeEnds true r t m k = k
  if-TreeEnds false r t m k = m

  pub append_rows-TreeEnds :
      (pool : String) (rows : List CommitmentRow) (t : PoolTree)
      → IsMirror h t
      → TreeEnds h (append_rows pool rows t)
  unfolding append_rows
  append_rows-TreeEnds pool [] t m = m
  append_rows-TreeEnds pool (row ∷ rows) t m =
      if-TreeEnds (row.leaf_index == as_i64 (len t.tree)) _ t m (
        resume-TreeEnds (or_error _ (to_32 row.commitment) t) _
          (or_error-TreeEnds _ (to_32 row.commitment) t m)
          λ node t m.
            resume-TreeEnds (append_node pool node row.ledger t) _
              (append_node-TreeEnds pool node row.ledger t m)
              λ new_root t m.
                resume-TreeEnds (append_rows pool rows t)
                  (λ new_roots t. (ok (new_root ∷ new_roots), t))
                  (append_rows-TreeEnds pool rows t m) λ new_roots t m. m)

  pub or_default-IsMirror :
      (o : Option PoolTree)
      → ((t : PoolTree) → o ≡ some t → IsMirror h t)
      → IsMirror h (or_default h o)
  unfolding or_default new_pool_tree find
  or_default-IsMirror (some t) k = k t refl
  or_default-IsMirror none k =
      ([], record { tree = new-mirror h; index = λ node i e. absurd (empty node i e) })
    where
      empty : (node : Node) (i : ℕ) → find node [] ≡ some i → ⊥
      empty node i e = ground arith

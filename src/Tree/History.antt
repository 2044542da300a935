-- ===== src/Tree/History.antt =====
-- The rows of the root history that crates/attesta-api/src/routes/tree.rs gathers while it tops up a tree.
use attesta_protocol_backend.Prelude.{
  suc, ◌≤◌, ◌≡◌, refl, sym, ◌∙◌, ap, subst, true, String, Option, none, some, List, [], ◌∷◌, ◌++◌,
  map, arith, All, Bool-cases, inl, inr, length,
}
use mathlib.Core.List.{append_assoc, append-nil}
use attesta_protocol_backend.Prelude.Int.{ℤ, as_i64, max_ℤ, ltb_ℤ}
use attesta_protocol_backend.Prelude.Keys.{◌==◌, ℤ_eq, String_eq, Bytes_eq}
use attesta_protocol_backend.Prelude.HashMap.{insert}
use attesta_protocol_backend.Prelude.Run.{returns, ◌>>=◌}
use attesta_protocol_backend.Prelude.Exec.{Result, ok, err, Exec, resume}
use attesta_protocol_backend.Database.{CommitmentRow, TreeRoot}
use attesta_protocol_backend.Events.Values.{to_32}
use attesta_protocol_backend.Merkle.{Node, TreeHasher, tree_depth, len, root}
use attesta_protocol_backend.Merkle.Append.{mirror, append-mirror, from_leaves-mirror}
use attesta_protocol_backend.Merkle.Root.{subtree, from_leaves-root}
use attesta_protocol_backend.Api.{ApiError, Fault, or_error}
use attesta_protocol_backend.Tree.{
  PoolTree, append_node, append_rows, if_next, insert_by_leaf, select_leaves,
}

-- A leaf and the ledger that it came with.
abbrev pub Entry : Type 0
Entry = Node × ℤ

abbrev pub nodes : List Entry → List Node
nodes ls = map (λ (e : Entry). e.0) ls

unfoldable pub top : TreeHasher → List Node → Node
top h leaves = subtree h h.empty_leaf tree_depth leaves

-- The row for the tree of these leaves.
abbrev pub row_of : TreeHasher → String → List Node → ℤ → TreeRoot
row_of h pool leaves ledger = record {
  pool = pool;
  leaf_count = as_i64 (length leaves);
  root = top h leaves;
  ledger = ledger;
}

-- The history of a tree of `leaves` that these entries are added to, one row for each.
unfoldable pub history : TreeHasher → String → List Node → List Entry → List TreeRoot
history h pool leaves [] = []
history h pool leaves (e ∷ ls) =
    row_of h pool (leaves ++ e.0 ∷ []) e.1 ∷ history h pool (leaves ++ e.0 ∷ []) ls

-- The anchor of a tree of these entries.
unfoldable pub anchor : ℤ → List Entry → ℤ
anchor a [] = a
anchor a (e ∷ ls) = anchor (max_ℤ a e.1) ls

pub root-top :
    (h : TreeHasher) (leaves : List Node) → root (mirror h leaves) ≡ returns (top h leaves)
unfolding top
root-top h leaves =
    sym (ap (λ r. r >>= root) (from_leaves-mirror h leaves)) ∙ from_leaves-root h leaves

module _ (h : TreeHasher) (pool : String) where
  append_node-row :
      (node : Node) (ledger : ℤ) (t : PoolTree) (leaves : List Node)
      → t.tree ≡ mirror h leaves
      → append_node pool node ledger t ≡ (
        ok (row_of h pool (leaves ++ node ∷ []) ledger),
        record {
          tree = mirror h (leaves ++ node ∷ []);
          index_by_commitment = insert node (length leaves) t.index_by_commitment;
          anchored_ledger = max_ℤ t.anchored_ledger ledger;
        },
      )
  unfolding append_node len mirror
  append_node-row node ledger t leaves m =
      rw (m, append-mirror h leaves node, root-top h (leaves ++ node ∷ [])) refl

  -- The tree was extended by entries whose history was gathered, at most one for each row.
  pub record Gathers (leaves : List Node) (t : PoolTree) (rows : List CommitmentRow)
      (new_roots : List TreeRoot) (t' : PoolTree) : Type 0 where
    pub entries : List Entry
    pub gathered : new_roots ≡ history h pool leaves entries
    pub tree : t'.tree ≡ mirror h (leaves ++ nodes entries)
    pub anchored : t'.anchored_ledger ≡ anchor t.anchored_ledger entries
    pub few : length entries ≤ length rows
    pub later :
        (a : ℤ)
        → All (λ (r : CommitmentRow). ltb_ℤ a r.ledger ≡ true) rows
        → All (λ (e : Entry). ltb_ℤ a e.1 ≡ true) entries

  abbrev pub GathersIf :
      List Node → PoolTree → List CommitmentRow → Result Fault (List TreeRoot) × PoolTree → Type 0
  GathersIf leaves t rows (ok new_roots, t') = Gathers leaves t rows new_roots t'
  GathersIf leaves t rows (err e, t') = Unit

  or_error-GathersIf :
      {A : Type 0} (e : ApiError) (o : Option A) (f : A → Exec PoolTree Fault (List TreeRoot))
      (leaves : List Node) (t : PoolTree) (rows : List CommitmentRow)
      → ((a : A) → GathersIf leaves t rows (f a t))
      → GathersIf leaves t rows (resume (or_error e o t) f)
  or_error-GathersIf e (some a) f leaves t rows k = k a
  or_error-GathersIf e none f leaves t rows k = tt

  -- One more entry, and then what the rest of the rows gathers.
  gather :
      (leaves : List Node) (row : CommitmentRow) (node : Node) (t t' t'' : PoolTree)
      (rows : List CommitmentRow) (new_roots : List TreeRoot)
      → t'.anchored_ledger ≡ max_ℤ t.anchored_ledger row.ledger
      → Gathers (leaves ++ node ∷ []) t' rows new_roots t''
      → Gathers leaves t
          (row ∷ rows)
          (row_of h pool (leaves ++ node ∷ []) row.ledger ∷ new_roots)
          t''
  unfolding history anchor
  gather leaves row node t t' t'' rows new_roots a g = record {
    entries = (node, row.ledger) ∷ g.entries;
    gathered = ap (◌∷◌ (row_of h pool (leaves ++ node ∷ []) row.ledger)) g.gathered;
    tree = g.tree ∙ ap (mirror h) (append_assoc leaves (node ∷ []) (nodes g.entries));
    anchored = g.anchored ∙ ap (λ a. anchor a g.entries) a;
    few = omega (arith, g.few);
    later = λ a b. (b.0, g.later a b.1);
  }

  nothing :
      (leaves : List Node) (t : PoolTree) (rows : List CommitmentRow)
      → t.tree ≡ mirror h leaves
      → Gathers leaves t rows [] t
  unfolding history anchor
  nothing leaves t rows m = record {
    entries = [];
    gathered = refl;
    tree = m ∙ ap (mirror h) (sym (append-nil leaves));
    anchored = refl;
    few = omega arith;
    later = λ a b. tt;
  }

  if_next-GathersIf :
      (row : CommitmentRow) (t : PoolTree) (r : Result Fault (List TreeRoot) × PoolTree)
      (leaves : List Node) (rows : List CommitmentRow)
      → t.tree ≡ mirror h leaves
      → GathersIf leaves t rows r
      → GathersIf leaves t rows (if_next row t r)
  if_next-GathersIf row t r leaves rows m g =
      elim (Bool-cases (row.leaf_index == as_i64 (len t.tree))) [
        | inl e ↦ rw e g
        | inr e ↦ rw e (nothing leaves t rows m)
      ]

  more-GathersIf :
      (leaves : List Node) (row : CommitmentRow) (node : Node) (t t' : PoolTree)
      (rows : List CommitmentRow) (r : Result Fault (List TreeRoot) × PoolTree)
      → t'.anchored_ledger ≡ max_ℤ t.anchored_ledger row.ledger
      → GathersIf (leaves ++ node ∷ []) t' rows r
      → GathersIf leaves t (row ∷ rows) (
          resume r
            (λ new_roots t. (ok (row_of h pool (leaves ++ node ∷ []) row.ledger ∷ new_roots), t)))
  more-GathersIf leaves row node t t' rows (ok new_roots, t'') a g =
      gather leaves row node t t' t'' rows new_roots a g
  more-GathersIf leaves row node t t' rows (err x, t'') a g = tt

  pub append_rows-GathersIf :
      (rows : List CommitmentRow) (t : PoolTree) (leaves : List Node)
      → t.tree ≡ mirror h leaves
      → GathersIf leaves t rows (append_rows pool rows t)
  unfolding append_rows
  append_rows-GathersIf [] t leaves m = nothing leaves t [] m
  append_rows-GathersIf (row ∷ rows) t leaves m = if_next-GathersIf row t _ leaves (row ∷ rows) m (
      or_error-GathersIf _ (to_32 row.commitment) _ leaves t (row ∷ rows) λ node.
        subst
          (λ r. GathersIf leaves t (row ∷ rows) (
            resume r λ new_root t.
              resume (append_rows pool rows t) λ new_roots t. (ok (new_root ∷ new_roots), t)))
          (sym (append_node-row node row.ledger t leaves m))
          (more-GathersIf leaves row node t _ rows (append_rows pool rows _) refl
            (append_rows-GathersIf rows _ (leaves ++ node ∷ []) refl)))

  insert_by_leaf-length :
      (r : CommitmentRow) (rows : List CommitmentRow)
      → length (insert_by_leaf r rows) ≡ suc (length rows)
  unfolding insert_by_leaf
  insert_by_leaf-length r [] = refl
  insert_by_leaf-length r (x ∷ rows) = ground (arith, insert_by_leaf-length r rows)

  pub select_leaves-length :
      (start : ℤ) (rows : List CommitmentRow) → length (select_leaves pool start rows) ≤ length rows
  unfolding select_leaves
  select_leaves-length start [] = omega arith
  select_leaves-length start (x ∷ rows) = ground (
    arith,
    select_leaves-length start rows,
    insert_by_leaf-length x (select_leaves pool start rows),
  )

-- ===== src/Tree.antt =====
-- crates/attesta-api/src/routes/tree.rs, with `PoolTree` of crates/attesta-api/src/state.rs: the cached trees, topped up
-- from the `commitments` table on every request. Metrics and log lines are left out; the lock on
-- the trees makes a request one step.
pub mod Queries
pub mod Mirror
pub mod Synced
pub mod Served
pub mod Found
pub mod Roots
pub mod History
pub mod Rows
pub mod Newest
pub mod Recorded
pub mod Past
pub mod Cached
pub mod Samples
pub mod Runs
mod Tests
use Prim.Native.String.{◌++◌ as str_append}
use attesta_protocol_backend.Prelude.{
  ℕ, ◌+◌, ◌≡◌, Bool, true, false, ◌&&◌, ◌||◌, not, String, Option, none, some, List, [], ◌∷◌, ◌++◌,
  map, length, ltb, leb, ◌==◌ as nat_eq, if◌then◌else◌,
}
use attesta_protocol_backend.Prelude.Int.{ℤ, pos, ltb_ℤ, as_i64, max_ℤ}
use attesta_protocol_backend.Prelude.Bytes.{Bytes}
use attesta_protocol_backend.Prelude.Keys.{◌==◌, String_eq, Bytes_eq, ℤ_eq}
use attesta_protocol_backend.Prelude.HashMap.{HashMap, find, insert}
use attesta_protocol_backend.Prelude.Text.{trim_start_0x}
use attesta_protocol_backend.Prelude.Exec.{Result, ok, err, Exec, pure, fail, resume, ◌>>=◌, ◌>>◌}
use attesta_protocol_backend.Database.{Database, CommitmentRow, TreeRoot}
use attesta_protocol_backend.Events.Values.{to_32}
use attesta_protocol_backend.Merkle.{
  Node, TreeHasher, MerkleTree, PathElement, new, append, len, is_empty, root, path,
}
use attesta_protocol_backend.Api.{
  ApiError, not_found, bad_request, internal_error, Fault, answers_error, lift, or_error, Hex,
}

pub record PoolTree : Type 0 where
  pub tree : MerkleTree
  pub index_by_commitment : HashMap Node ℕ
  pub anchored_ledger : ℤ

unfoldable pub new_pool_tree : TreeHasher → PoolTree
new_pool_tree h = record { tree = new h; index_by_commitment = []; anchored_ledger = pos 0 }

-- The state of the handlers, and whether the database carries out the next queries.
pub record Server : Type 0 where
  pub db : Database
  pub answers : List Bool
  pub trees : HashMap String PoolTree

unfoldable pub answered : {A : Type 0} → List Bool → Exec Server Fault A → Exec Server Fault A
answered [] m s = m s
answered (true ∷ answers) m s = m (record s { answers = answers })
answered (false ∷ answers) m s =
    (err (answers_error internal_error), record s { answers = answers })

unfoldable pub fetch : {A : Type 0} → (Database → A) → Exec Server Fault A
unfolding answered
fetch select s = answered s.answers (λ s. (ok (select s.db), s)) s

-- A statement that writes, with what it reports back.
unfoldable pub write : {A : Type 0} → (Database → A × Database) → Exec Server Fault A
unfolding answered
write statement s =
    answered s.answers (λ s. (ok (statement s.db).0, record s { db = (statement s.db).1 })) s

unfoldable pub execute : (Database → Database) → Exec Server Fault (Unit {0})
unfolding write
execute statement = write (λ db. (tt, statement db))

-- ORDER BY leaf_index
unfoldable pub insert_by_leaf : CommitmentRow → List CommitmentRow → List CommitmentRow
insert_by_leaf r [] = r ∷ []
insert_by_leaf r (x ∷ rows) =
    if ltb_ℤ x.leaf_index r.leaf_index then x ∷ insert_by_leaf r rows else r ∷ x ∷ rows

-- SELECT … FROM commitments WHERE pool = $1 AND leaf_index >= $2 ORDER BY leaf_index
unfoldable pub select_leaves : String → ℤ → List CommitmentRow → List CommitmentRow
unfolding insert_by_leaf
select_leaves pool start [] = []
select_leaves pool start (x ∷ rows) =
    let rest = select_leaves pool start rows in
    if x.pool == pool && not (ltb_ℤ x.leaf_index start) then insert_by_leaf x rest else rest

-- `pool_tree.tree.append(node)` and what is recorded with it.
unfoldable pub append_node : String → Node → ℤ → Exec PoolTree Fault TreeRoot
append_node pool node ledger t = resume (lift (append t.tree node) t) λ appended _.
    let t' : PoolTree = record {
      tree = appended.1;
      index_by_commitment = insert node appended.0 t.index_by_commitment;
      anchored_ledger = max_ℤ t.anchored_ledger ledger;
    } in
    resume (lift (root t'.tree) t') λ r s.
      (ok (record { pool = pool; leaf_count = as_i64 (len t'.tree); root = r; ledger = ledger }), s)

-- The leaves must be contiguous: the loop stops at the first gap.
abbrev pub if_next :
    CommitmentRow
    → PoolTree
    → Result Fault (List TreeRoot) × PoolTree
    → Result Fault (List TreeRoot) × PoolTree
if_next row t more = if row.leaf_index == as_i64 (len t.tree) then more else (ok [], t)

-- The loop over the rows, with the rows of the root history that it gathers.
unfoldable pub append_rows : String → List CommitmentRow → Exec PoolTree Fault (List TreeRoot)
unfolding append_node
append_rows pool [] t = (ok [], t)
append_rows pool (row ∷ rows) t = if_next row t (
    resume (or_error (bad_request "corrupt commitment in index") (to_32 row.commitment) t) λ node t.
      resume (append_node pool node row.ledger t) λ new_root t.
        resume (append_rows pool rows t) λ new_roots t. (ok (new_root ∷ new_roots), t))

-- ON CONFLICT (pool, leaf_count) DO NOTHING
unfoldable pub has_root : TreeRoot → List TreeRoot → Bool
has_root r [] = false
has_root r (x ∷ rows) = (x.pool == r.pool && x.leaf_count == r.leaf_count) || has_root r rows

-- INSERT INTO tree_roots …
unfoldable pub insert_roots : List TreeRoot → List TreeRoot → List TreeRoot
unfolding has_root
insert_roots [] rows = rows
insert_roots (r ∷ new_roots) rows =
    insert_roots new_roots (if has_root r rows then rows else rows ++ r ∷ [])

-- `if !new_roots.is_empty()`
unfoldable pub flush_roots : List TreeRoot → Exec Server Fault (Unit {0})
unfolding execute insert_roots
flush_roots [] = pure tt
flush_roots (r ∷ new_roots) =
    execute (λ db. record db { tree_roots = insert_roots (r ∷ new_roots) db.tree_roots })

-- `trees.entry(pool).or_default()`
unfoldable pub or_default : TreeHasher → Option PoolTree → PoolTree
unfolding new_pool_tree
or_default h (some t) = t
or_default h none = new_pool_tree h

-- What was done to the cached tree stays, also where the loop stops with an error.
unfoldable pub store_tree :
    String → Result Fault (List TreeRoot) × PoolTree → Exec Server Fault (List TreeRoot × PoolTree)
store_tree pool (ok new_roots, t) s =
    (ok (new_roots, t), record s { trees = insert pool t s.trees })
store_tree pool (err e, t) s = (err e, record s { trees = insert pool t s.trees })

unfoldable pub unless_empty : String → PoolTree → Exec Server Fault PoolTree
unless_empty pool t =
    if is_empty t.tree
    then fail (answers_error (not_found (str_append "unknown or empty pool: " pool)))
    else pure t

unfoldable pub sync_pool_tree : TreeHasher → String → Exec Server Fault PoolTree
unfolding or_default fetch select_leaves append_rows store_tree flush_roots unless_empty
sync_pool_tree h pool s =
    let t = or_default h (find pool s.trees) in
    (do
      rows ← fetch (λ db. select_leaves pool (as_i64 (len t.tree)) db.commitments)
      topped_up ← store_tree pool (append_rows pool rows t)
      flush_roots topped_up.0
      unless_empty pool topped_up.1)
      (record s { trees = insert pool t s.trees })

unfoldable pub hex0x : Hex → Node → String
hex0x hex n = str_append "0x" (hex.encode n)

unfoldable pub parse_node : {S : Type 0} → Hex → String → Exec S Fault Node
parse_node hex s =
    or_error (bad_request "commitment must be 0x-hex") (hex.decode (trim_start_0x s)) >>= λ bytes.
    or_error (bad_request "commitment must be 32 bytes") (to_32 bytes)

pub record PathElementJson : Type 0 where
  pub sibling : String
  pub sibling_on_right : Bool

pub record PathResponse : Type 0 where
  pub pool : String
  pub leaf_index : ℤ
  pub root : String
  pub leaf_count : ℤ
  pub anchored_ledger : ℤ
  pub path : List PathElementJson

unfoldable pub path_json : Hex → PathElement → PathElementJson
unfolding hex0x
path_json hex el = record { sibling = hex0x hex el.sibling; sibling_on_right = el.sibling_on_right }

unfoldable pub path_response : Hex → String → PoolTree → ℕ → List PathElement → Node → PathResponse
unfolding path_json hex0x
path_response hex pool t leaf_index p r = record {
  pool = pool;
  leaf_index = as_i64 leaf_index;
  root = hex0x hex r;
  leaf_count = as_i64 (len t.tree);
  anchored_ledger = t.anchored_ledger;
  path = map (path_json hex) p;
}

-- `get_path` once the tree and the index of the leaf are there.
unfoldable pub serve_found : Hex → String → PoolTree → ℕ → Exec Server Fault PathResponse
unfolding path_response
serve_found hex pool t leaf_index = do
  found ← lift (path t.tree leaf_index)
  p ← or_error (not_found "commitment not found in tree") found
  r ← lift (root t.tree)
  pure (path_response hex pool t leaf_index p r)

unfoldable pub serve_path : Hex → String → Node → PoolTree → Exec Server Fault PathResponse
unfolding serve_found
serve_path hex pool commitment t = do
  leaf_index ←
      or_error (not_found "commitment not found in tree") (find commitment t.index_by_commitment)
  serve_found hex pool t leaf_index

unfoldable pub get_path : TreeHasher → Hex → String → String → Exec Server Fault PathResponse
unfolding parse_node sync_pool_tree serve_path
get_path h hex pool q = do
  commitment ← parse_node hex q
  t ← sync_pool_tree h pool
  serve_path hex pool commitment t

-- ===== src/Tree/Roots.antt =====
-- `get_root` of crates/attesta-api/src/routes/tree.rs: the current root of a tree, or one of its history.
use attesta_protocol_backend.Prelude.{
  Bool, true, false, ◌&&◌, not, String, Option, none, some, List, [], ◌∷◌, if◌then◌else◌,
}
use attesta_protocol_backend.Prelude.Int.{ℤ, ltb_ℤ, as_i64}
use attesta_protocol_backend.Prelude.Keys.{◌==◌, String_eq}
use attesta_protocol_backend.Prelude.Exec.{Exec, pure, fail, ◌>>=◌}
use attesta_protocol_backend.Database.{TreeRoot}
use attesta_protocol_backend.Events.Values.{to_32}
use attesta_protocol_backend.Merkle.{TreeHasher, len, root}
use attesta_protocol_backend.Api.{not_found, bad_request, Fault, answers_error, lift, or_error, Hex}
use attesta_protocol_backend.Tree.{PoolTree, Server, fetch, sync_pool_tree, hex0x}

pub record RootResponse : Type 0 where
  pub pool : String
  pub root : String
  pub leaf_count : ℤ
  pub anchored_ledger : ℤ

pub record RootQuery : Type 0 where
  pub at_ledger : Option ℤ
  pub at_leaf_count : Option ℤ

-- ORDER BY leaf_count DESC LIMIT 1
unfoldable pub newer : TreeRoot → Option TreeRoot → Option TreeRoot
newer r none = some r
newer r (some x) = if ltb_ℤ x.leaf_count r.leaf_count then some r else some x

-- SELECT root, leaf_count, ledger FROM tree_roots WHERE …
unfoldable pub newest_root : (TreeRoot → Bool) → List TreeRoot → Option TreeRoot
unfolding newer
newest_root test [] = none
newest_root test (r ∷ rows) =
    let rest = newest_root test rows in if test r then newer r rest else rest

-- `WHERE pool = $1 AND ledger <= $2`
abbrev pub by_ledger : String → ℤ → TreeRoot → Bool
by_ledger pool at r = r.pool == pool && not (ltb_ℤ at r.ledger)

-- `WHERE pool = $1 AND leaf_count <= $2`
abbrev pub by_leaf_count : String → ℤ → TreeRoot → Bool
by_leaf_count pool at r = r.pool == pool && not (ltb_ℤ at r.leaf_count)

unfoldable pub current_root : Hex → String → PoolTree → Exec Server Fault RootResponse
unfolding hex0x
current_root hex pool t = do
  r ← lift (root t.tree)
  pure (record {
    pool = pool;
    root = hex0x hex r;
    leaf_count = as_i64 (len t.tree);
    anchored_ledger = t.anchored_ledger;
  })

unfoldable pub recorded_root : Hex → String → Option TreeRoot → Exec Server Fault RootResponse
unfolding hex0x
recorded_root hex pool found = do
  row ← or_error (not_found "no root recorded at or before that point") found
  r ← or_error (bad_request "corrupt root in history") (to_32 row.root)
  pure (record {
    pool = pool;
    root = hex0x hex r;
    leaf_count = row.leaf_count;
    anchored_ledger = row.ledger;
  })

unfoldable pub past_root : Hex → String → (TreeRoot → Bool) → Exec Server Fault RootResponse
unfolding newest_root recorded_root
past_root hex pool test = fetch (λ db. newest_root test db.tree_roots) >>= recorded_root hex pool

-- What is answered from the tree that was topped up.
unfoldable pub root_at :
    Hex → String → Option ℤ → Option ℤ → PoolTree → Exec Server Fault RootResponse
unfolding current_root past_root
root_at hex pool none none t = current_root hex pool t
root_at hex pool (some at_ledger) at_leaf_count t = past_root hex pool (by_ledger pool at_ledger)
root_at hex pool none (some at_leaf_count) t = past_root hex pool (by_leaf_count pool at_leaf_count)

-- `q.at_ledger.is_some() && q.at_leaf_count.is_some()`
unfoldable pub both_given : Option ℤ → Option ℤ → Bool
both_given (some l) (some n) = true
both_given (some l) none = false
both_given none n = false

unfoldable pub get_root : TreeHasher → Hex → String → RootQuery → Exec Server Fault RootResponse
unfolding both_given sync_pool_tree root_at
get_root h hex pool q =
    if both_given q.at_ledger q.at_leaf_count
    then fail (answers_error (bad_request "at_ledger and at_leaf_count are mutually exclusive"))
    else sync_pool_tree h pool >>= root_at hex pool q.at_ledger q.at_leaf_count

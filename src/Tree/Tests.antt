-- ===== src/Tree/Tests.antt =====
-- Runs of the handlers of crates/attesta-api/src/routes/tree.rs, with a toy hash.
use attesta_protocol_backend.Prelude.{List, ◌++◌, none, ℕ, ◌≡◌, refl, ap, some, [], ◌∷◌, arith}
use attesta_protocol_backend.Prelude.Int.{pos}
use attesta_protocol_backend.Prelude.Exec.{Result, ok, err, resume}
use attesta_protocol_backend.Merkle.{len, new, root}
use attesta_protocol_backend.Events.Values.{to_32}
use attesta_protocol_backend.Api.{answers_error, bad_request, Fault}
use attesta_protocol_backend.Tree.{fetch, answered, PoolTree, Server, hex0x}
use attesta_protocol_backend.Tree.Samples.{toy, toy_hex, leaf, grown, two_tree, two_synced}
use attesta_protocol_backend.Tree.Runs.{two_sync, grown-Recorded, two-Recorded, toy_returns_32}
use attesta_protocol_backend.Tree.Roots.{
  get_root, both_given, root_at, past_root, recorded_root, newest_root, newer,
}
use attesta_protocol_backend.Tree.Recorded.{Recorded, cached, sync_pool_tree-Recorded}
use attesta_protocol_backend.Tree.Past.{get_root-at_leaf_count}
use attesta_protocol_backend.Tree.History.{Entry, nodes, top}

-- The length of the tree that a sync returns.
abbrev synced_len : Result Fault PoolTree × Server → ℕ
synced_len (ok t, s) = len t.tree
synced_len (err e, s) = 0

one_of_two :
    get_root toy toy_hex "POOL" (record { at_ledger = some (pos 7); at_leaf_count = none }) grown
    ≡ (
      ok (record { pool = "POOL"; root = "0x07"; leaf_count = pos 1; anchored_ledger = pos 5 }),
      two_synced,
    )
unfolding get_root both_given root_at past_root recorded_root newest_root newer hex0x fetch answered
    to_32
one_of_two = ap (λ r. resume r (root_at toy_hex "POOL" (some (pos 7)) none)) two_sync

both_points :
    get_root toy toy_hex "POOL"
      (record { at_ledger = some (pos 7); at_leaf_count = some (pos 1) })
      grown
    ≡ (
      err (answers_error (bad_request "at_ledger and at_leaf_count are mutually exclusive")),
      grown,
    )
unfolding get_root both_given
both_points = refl

sync_pool_tree-Recorded_example :
    (new : List Entry) × Recorded toy "POOL" two_synced ((leaf, pos 5) ∷ [] ++ new)
    × (cached toy "POOL" two_synced ≡ two_tree)
sync_pool_tree-Recorded_example =
    sync_pool_tree-Recorded toy "POOL" grown ((leaf, pos 5) ∷ []) two_tree two_synced grown-Recorded
      refl (omega arith) two_sync

get_root-at_leaf_count_example :
    get_root toy toy_hex "POOL" (record { at_ledger = none; at_leaf_count = some (pos 1) }) grown
    ≡ (
      ok (record {
        pool = "POOL";
        root = hex0x toy_hex (top toy (nodes ((leaf, pos 5) ∷ [])));
        leaf_count = pos 1;
        anchored_ledger = pos 5;
      }),
      two_synced,
    )
get_root-at_leaf_count_example =
    get_root-at_leaf_count toy toy_hex "POOL" grown two_tree two_synced [] (leaf, pos 5)
      ((leaf, pos 9) ∷ []) toy_returns_32 two_sync two-Recorded refl (omega arith)

-- ===== src/Tree/Runs.antt =====
-- Top-ups of the sample server of crates/attesta-api/src/routes/tree.rs.
use attesta_protocol_backend.Prelude.{
  List, length-take, length-append, length-replicate, ◌++◌, ℕ, ◌≡◌, refl, sym, ap, ◌∙◌, [], ◌∷◌,
  replicate, arith,
}
use attesta_protocol_backend.Prelude.Bytes.{bytes_eq}
use attesta_protocol_backend.Prelude.Int.{pos, as_i64, max_ℤ}
use attesta_protocol_backend.Prelude.HashMap.{find, insert}
use attesta_protocol_backend.Prelude.Exec.{ok}
use attesta_protocol_backend.Merkle.{
  Node, len, new, push_zeros, append, push_leaf, update_ancestors, put_parent, root, is_empty,
}
use attesta_protocol_backend.Events.Values.{to_32}
use attesta_protocol_backend.Tree.{
  append_rows, append_node, select_leaves, insert_by_leaf, store_tree, flush_roots, insert_roots,
  has_root, execute, write, fetch, answered, or_default, new_pool_tree, unless_empty,
  sync_pool_tree,
}
use attesta_protocol_backend.Tree.Samples.{
  toy, server, leaf, one_tree, one_synced, grown, two_tree, two_synced, toy_row,
}
use attesta_protocol_backend.Tree.Recorded.{Recorded}
use attesta_protocol_backend.Tree.Past.{Returns32}
use attesta_protocol_backend.Tree.Rows.{of_pool}
use attesta_protocol_backend.Prelude.Run.{Run, returns, panics}
use attesta_protocol_backend.Tree.History.{Entry, top, history, anchor, root-top}
use attesta_protocol_backend.Merkle.Append.{mirror}
use attesta_protocol_backend.Merkle.Layers.{layers_above}

pub one_sync : sync_pool_tree toy "POOL" server ≡ (ok one_tree, one_synced)
unfolding sync_pool_tree len as_i64 find insert new push_zeros to_32 append push_leaf
    update_ancestors put_parent root append_rows append_node select_leaves insert_by_leaf store_tree
    flush_roots insert_roots has_root execute write fetch answered or_default new_pool_tree
    unless_empty is_empty max_ℤ mirror layers_above
one_sync = refl

pub two_sync : sync_pool_tree toy "POOL" grown ≡ (ok two_tree, two_synced)
unfolding sync_pool_tree len as_i64 find insert new push_zeros to_32 append push_leaf
    update_ancestors put_parent root append_rows append_node select_leaves insert_by_leaf store_tree
    flush_roots insert_roots has_root execute write fetch answered or_default new_pool_tree
    unless_empty is_empty max_ℤ mirror layers_above bytes_eq
two_sync = refl

abbrev pub toy_entries : List Entry
toy_entries = (leaf, pos 5) ∷ (leaf, pos 9) ∷ []

root_of : Run Node → Node
root_of (returns r) = r
root_of panics = []

top_one : top toy (leaf ∷ []) ≡ leaf
unfolding root_of root mirror layers_above push_zeros
top_one = sym (ap root_of (root-top toy (leaf ∷ [])))

top_two : top toy (leaf ∷ leaf ∷ []) ≡ leaf
unfolding root_of root mirror layers_above push_zeros
top_two = sym (ap root_of (root-top toy (leaf ∷ leaf ∷ [])))

history_one :
    (ledger : ℕ) (ls : List Entry)
    → history toy "POOL" [] ((leaf, pos ledger) ∷ ls)
      ≡ toy_row 1 ledger ∷ history toy "POOL" (leaf ∷ []) ls
unfolding history as_i64
history_one ledger ls =
    ap
      (λ r.
        record { pool = "POOL"; leaf_count = pos 1; root = r; ledger = pos ledger }
        ∷ history toy "POOL" (leaf ∷ []) ls)
      top_one

history_two :
    (ledger : ℕ) → history toy "POOL" (leaf ∷ []) ((leaf, pos ledger) ∷ []) ≡ toy_row 2 ledger ∷ []
unfolding history as_i64
history_two ledger =
    ap (λ r. record { pool = "POOL"; leaf_count = pos 2; root = r; ledger = pos ledger } ∷ [])
      top_two

history_none : history toy "POOL" (leaf ∷ []) [] ≡ []
unfolding history
history_none = refl

pub grown-Recorded : Recorded toy "POOL" grown ((leaf, pos 5) ∷ [])
unfolding or_default find of_pool anchor max_ℤ
grown-Recorded = record {
  tree = refl;
  anchored = refl;
  rows = sym (history_one 5 [] ∙ ap (◌∷◌ (toy_row 1 5)) history_none);
}

pub one-Recorded : Recorded toy "POOL" one_synced ((leaf, pos 5) ∷ [])
unfolding or_default find of_pool anchor max_ℤ
one-Recorded = record {
  tree = refl;
  anchored = refl;
  rows = sym (history_one 5 [] ∙ ap (◌∷◌ (toy_row 1 5)) history_none);
}

pub two-Recorded : Recorded toy "POOL" two_synced toy_entries
unfolding or_default find of_pool anchor max_ℤ
two-Recorded = record {
  tree = refl;
  anchored = refl;
  rows = sym (history_one 5 ((leaf, pos 9) ∷ []) ∙ ap (◌∷◌ (toy_row 1 5)) (history_two 9));
}

pub toy_returns_32 : Returns32 toy
toy_returns_32 a b = omega (
  arith,
  length-take 32 (a ++ replicate 32 0),
  length-append a (replicate 32 0),
  length-replicate {A = ℕ} 32 0,
)

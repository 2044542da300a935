-- ===== src/Tree/Samples.antt =====
-- A server with a toy hash, before and after its first top-ups.
use attesta_protocol_backend.Prelude.{ℕ, some, [], ◌∷◌, ◌++◌, replicate, take}
use attesta_protocol_backend.Prelude.Int.{pos}
use attesta_protocol_backend.Database.{CommitmentRow, TreeRoot, empty_database}
use attesta_protocol_backend.Merkle.{Node, TreeHasher}
use attesta_protocol_backend.Merkle.Append.{mirror}
use attesta_protocol_backend.Api.{Hex}
use attesta_protocol_backend.Tree.{Server, PoolTree}

abbrev pub toy : TreeHasher
toy = record { hash_pair = λ l r. take 32 (l ++ replicate 32 0); empty_leaf = replicate 32 0 }

abbrev pub toy_hex : Hex
toy_hex = record { encode = λ _. "07"; decode = λ _. some (replicate 32 7) }

abbrev pub one_leaf : CommitmentRow
one_leaf = record {
  pool = "POOL";
  leaf_index = pos 0;
  commitment = replicate 32 7;
  ledger = pos 5;
  tx_hash = "tx";
}

abbrev pub next_leaf : CommitmentRow
next_leaf = record one_leaf { leaf_index = pos 1; ledger = pos 9 }

abbrev pub server : Server
server = record {
  db = record empty_database { commitments = one_leaf ∷ [] };
  answers = [];
  trees = [];
}

abbrev pub leaf : Node
leaf = replicate 32 7

abbrev pub one_tree : PoolTree
one_tree = record {
  tree = mirror toy (leaf ∷ []);
  index_by_commitment = (leaf, 0) ∷ [];
  anchored_ledger = pos 5;
}

-- The row of the history for a number of leaves.
abbrev pub toy_row : ℕ → ℕ → TreeRoot
toy_row n ledger = record { pool = "POOL"; leaf_count = pos n; root = leaf; ledger = pos ledger }

abbrev pub one_synced : Server
one_synced = record {
  db = record empty_database { commitments = one_leaf ∷ []; tree_roots = toy_row 1 5 ∷ [] };
  answers = [];
  trees = ("POOL", one_tree) ∷ [];
}

-- After another deposit,
abbrev pub grown : Server
grown = record one_synced { db = record one_synced.db { commitments = one_leaf ∷ next_leaf ∷ [] } }

-- and its top-up.
abbrev pub two_tree : PoolTree
two_tree = record {
  tree = mirror toy (leaf ∷ leaf ∷ []);
  index_by_commitment = (leaf, 1) ∷ [];
  anchored_ledger = pos 9;
}

abbrev pub two_synced : Server
two_synced = record grown {
  db = record grown.db { tree_roots = toy_row 1 5 ∷ toy_row 2 9 ∷ [] };
  trees = ("POOL", two_tree) ∷ [];
}

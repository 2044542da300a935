-- ===== src/Tree/Found.antt =====
-- What `get_path` of crates/attesta-api/src/routes/tree.rs answers once the tree is synced: a commitment
-- that the index holds is served, and any other is not found.
use attesta_protocol_backend.Prelude.{ℕ, ◌≡◌, String, Option, none, some}
use attesta_protocol_backend.Prelude.Keys.{Bytes_eq}
use attesta_protocol_backend.Prelude.Exec.{Result, ok, err}
use attesta_protocol_backend.Merkle.{Node, TreeHasher}
use attesta_protocol_backend.Api.{Fault, answers_error, not_found, Hex}
use attesta_protocol_backend.Tree.{PoolTree, Server, PathResponse}
use attesta_protocol_backend.Tree.Served.{Proves}

-- The answer for a commitment: the response that proves it where it has an index, and 404 otherwise.
abbrev pub Answers :
    TreeHasher
    → Hex
    → String
    → Node
    → PoolTree
    → Server
    → Option ℕ
    → Result Fault PathResponse × Server
    → Type 0
Answers h hex pool c t s none r =
    r ≡ (err (answers_error (not_found "commitment not found in tree")), s)
Answers h hex pool c t s (some i) r =
    (response : PathResponse) × (r ≡ (ok response, s)) × Proves h hex pool c t response

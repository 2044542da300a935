-- ===== src/Stats/Tests.antt =====
-- Runs of the cache of crates/attesta-api/src/routes/stats.rs.
use attesta_protocol_backend.Prelude.{ℕ, ◌*◌, ◌^◌, ◌≡◌, refl, false, none, List, [], ◌∷◌, map}
use attesta_protocol_backend.Prelude.Int.{ℤ, pos}
use attesta_protocol_backend.Prelude.Exec.{Result, ok, err}
use attesta_protocol_backend.Database.{CommitmentRow, empty_database}
use attesta_protocol_backend.Api.{Fault}
use attesta_protocol_backend.Tree.{fetch, answered}
use attesta_protocol_backend.Stats.{
  Texts, sorted_by_pool, pool_stats, count_active, compute_stats, StatsResponse, with_cache_header,
  cached_stats, store_stats, answer_computed, answer_cached, get_stats, Turn, serve,
}
use attesta_protocol_backend.Stats.Fresh.{AllFresh, serve-fresh}

abbrev texts : Texts
texts = record { collates = λ a b. false; of_numeric = λ n. "0"; of_u32 = λ n. "10" }

abbrev row : CommitmentRow
row = record { pool = "POOL"; leaf_index = pos 0; commitment = []; ledger = pos 1; tx_hash = "tx" }

-- A commitment arrives after the first request.
abbrev at : ℕ → List CommitmentRow → Turn
at seconds rows = record {
  server = record { db = record empty_database { commitments = rows }; answers = []; trees = [] };
  started = seconds * 10 ^ 9;
  finished = seconds * 10 ^ 9;
}

abbrev turns : List Turn
turns = at 1 [] ∷ at 5 (row ∷ []) ∷ at 11 (row ∷ []) ∷ []

abbrev commitments_of : Turn × Result Fault StatsResponse → ℤ
commitments_of (turn, ok response) = response.stats.total_commitments
commitments_of (turn, err e) = pos 0

-- The second request is answered from the cache, the third is not.
cached_once : map commitments_of (serve texts 10 none turns) ≡ pos 0 ∷ pos 0 ∷ pos 1 ∷ []
unfolding serve get_stats answer_cached answer_computed compute_stats cached_stats store_stats
    with_cache_header fetch answered sorted_by_pool pool_stats count_active
cached_once = refl

serve-fresh_example : AllFresh texts 10 [] (serve texts 10 none turns)
serve-fresh_example = serve-fresh texts 10 turns

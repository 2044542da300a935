-- ===== src/Stats.antt =====
-- crates/attesta-api/src/routes/stats.rs: the public statistics, and the cache in front of them. The order of the
-- texts in the database and its text of a number are parameters. An `Instant` is a count of nanoseconds.
pub mod Fresh
mod Tests
use Prim.Native.String.{◌++◌ as str_append}
use attesta_protocol_backend.Prelude.{
  ℕ, zero, suc, ◌-◌, ◌/◌, ◌^◌, Bool, true, false, String, Option, none, some, List, [], ◌∷◌, map,
  length, ltb, if◌then◌else◌,
}
use attesta_protocol_backend.Prelude.Int.{ℤ, pos, ◌-ℤ◌}
use attesta_protocol_backend.Prelude.Keys.{◌==◌, String_eq}
use attesta_protocol_backend.Prelude.Exec.{Result, ok, err, Exec, pure, resume, ◌>>=◌}
use attesta_protocol_backend.Database.{Database, IssuerRow, PoolTotal}
use attesta_protocol_backend.Api.{Fault}
use attesta_protocol_backend.Tree.{Server, fetch}

pub record PoolStats : Type 0 where
  pub pool : String
  pub asset : String
  pub tvl : String

pub record ProtocolStats : Type 0 where
  pub pools : List PoolStats
  pub total_commitments : ℤ
  pub total_nullifiers : ℤ
  pub active_issuers : ℤ
  pub credentials_delivered : ℤ

-- `collates a b`, that `a` comes before `b`, and `NUMERIC::text`; and the decimal text of a u32.
pub record Texts : Type 0 where
  pub collates : String → String → Bool
  pub of_numeric : ℤ → String
  pub of_u32 : ℕ → String

-- ORDER BY pool
unfoldable pub insert_by_pool : Texts → PoolTotal → List PoolTotal → List PoolTotal
insert_by_pool texts r [] = r ∷ []
insert_by_pool texts r (x ∷ rows) =
    if texts.collates x.pool r.pool then x ∷ insert_by_pool texts r rows else r ∷ x ∷ rows

unfoldable pub sorted_by_pool : Texts → List PoolTotal → List PoolTotal
unfolding insert_by_pool
sorted_by_pool texts [] = []
sorted_by_pool texts (x ∷ rows) = insert_by_pool texts x (sorted_by_pool texts rows)

-- SELECT pool, asset, (total_in - total_out)::text AS tvl
unfoldable pub pool_stats : Texts → PoolTotal → PoolStats
unfolding ◌-ℤ◌
pool_stats texts r = record {
  pool = r.pool;
  asset = r.asset;
  tvl = texts.of_numeric (r.total_in -ℤ r.total_out);
}

-- SELECT COUNT(*) FROM issuers WHERE status = 'active'
unfoldable pub count_active : List IssuerRow → ℕ
count_active [] = 0
count_active (x ∷ rows) =
    let rest = count_active rows in if x.status == "active" then suc rest else rest

unfoldable pub compute_stats : Texts → Exec Server Fault ProtocolStats
unfolding sorted_by_pool pool_stats count_active
compute_stats texts = do
  pools ← fetch (λ db. map (pool_stats texts) (sorted_by_pool texts db.pool_totals))
  total_commitments ← fetch (λ db. pos (length db.commitments))
  total_nullifiers ← fetch (λ db. pos (length db.nullifiers))
  active_issuers ← fetch (λ db. pos (count_active db.issuers))
  credentials_delivered ← fetch (λ db. pos (length db.credential_deliveries))
  pure (record {
    pools = pools;
    total_commitments = total_commitments;
    total_nullifiers = total_nullifiers;
    active_issuers = active_issuers;
    credentials_delivered = credentials_delivered;
  })

pub record StatsResponse : Type 0 where
  pub stats : ProtocolStats
  pub cache_control : Option String

unfoldable pub with_cache_header : Texts → ProtocolStats → ℕ → StatsResponse
with_cache_header texts stats zero = record { stats = stats; cache_control = none }
with_cache_header texts stats (suc ttl) = record {
  stats = stats;
  cache_control = some (str_append "public, max-age=" (texts.of_u32 (suc ttl)));
}

abbrev pub StatsCache : Type 0
StatsCache = Option (ℕ × ProtocolStats)

-- `computed_at.elapsed().as_secs() < ttl`
abbrev pub is_fresh : ℕ → ℕ → ℕ → Bool
is_fresh ttl now computed_at = ltb ((now - computed_at) / 10 ^ 9) ttl

-- The cached statistics, if they are to be served.
unfoldable pub cached_stats : ℕ → ℕ → StatsCache → Option ProtocolStats
cached_stats zero now cache = none
cached_stats (suc ttl) now none = none
cached_stats (suc ttl) now (some (computed_at, cached)) =
    if is_fresh (suc ttl) now computed_at then some cached else none

-- `if ttl > 0 { *state.stats_cache… = Some((Instant::now(), stats.clone())) }`
unfoldable pub store_stats : ℕ → ℕ → ProtocolStats → StatsCache → StatsCache
store_stats zero now stats cache = cache
store_stats (suc ttl) now stats cache = some (now, stats)

-- The state of the handler.
pub record StatsState : Type 0 where
  pub server : Server
  pub stats_cache : StatsCache

unfoldable pub answer_computed :
    Texts
    → ℕ
    → ℕ
    → StatsCache
    → Result Fault ProtocolStats × Server
    → Result Fault StatsResponse × StatsState
unfolding with_cache_header store_stats
answer_computed texts ttl finished cache (ok stats, server) = (
  ok (with_cache_header texts stats ttl),
  record { server = server; stats_cache = store_stats ttl finished stats cache },
)
answer_computed texts ttl finished cache (err e, server) =
    (err e, record { server = server; stats_cache = cache })

unfoldable pub answer_cached :
    Texts → ℕ → ℕ → StatsState → Option ProtocolStats → Result Fault StatsResponse × StatsState
unfolding with_cache_header compute_stats answer_computed
answer_cached texts ttl finished s (some cached) = (ok (with_cache_header texts cached ttl), s)
answer_cached texts ttl finished s none =
    answer_computed texts ttl finished s.stats_cache (compute_stats texts s.server)

-- A request that looks at the clock when it starts, and when its queries are finished.
unfoldable pub get_stats : Texts → ℕ → ℕ → ℕ → Exec StatsState Fault StatsResponse
unfolding cached_stats answer_cached
get_stats texts ttl started finished s =
    answer_cached texts ttl finished s (cached_stats ttl started s.stats_cache)

-- A request with the server as it finds it: what the database holds by then, and which queries fail.
pub record Turn : Type 0 where
  pub server : Server
  pub started : ℕ
  pub finished : ℕ

-- The answers to a sequence of requests.
unfoldable pub serve : Texts → ℕ → StatsCache → List Turn → List (Turn × Result Fault StatsResponse)
unfolding get_stats
serve texts ttl cache [] = []
serve texts ttl cache (turn ∷ turns) =
    let answered =
      get_stats texts ttl turn.started turn.finished
        (record { server = turn.server; stats_cache = cache }) in
    (turn, answered.0) ∷ serve texts ttl answered.1.stats_cache turns

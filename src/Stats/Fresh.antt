-- ===== src/Stats/Fresh.antt =====
-- No answer of crates/attesta-api/src/routes/stats.rs is older than the time to live of the cache.
use attesta_protocol_backend.Prelude.{
  ℕ, zero, suc, ◌-◌, ◌/◌, ◌^◌, ◌<◌, ◌≡◌, refl, sym, ◌∙◌, ap, subst, ◌⊎◌, inl, inr, Option, none,
  some, List, [], ◌∷◌, map, length, ltb→lt, Bool-cases, if◌then◌else◌,
}
use attesta_protocol_backend.Prelude.Int.{pos}
use attesta_protocol_backend.Prelude.Exec.{Result, ok, err, Exec, resume}
use attesta_protocol_backend.Database.{Database}
use attesta_protocol_backend.Api.{Fault}
use attesta_protocol_backend.Tree.{Server, fetch}
use attesta_protocol_backend.Tree.Queries.{Fetched, fetch-Fetched}
use attesta_protocol_backend.Stats.{
  ProtocolStats, Texts, sorted_by_pool, pool_stats, count_active, compute_stats, StatsResponse,
  with_cache_header, StatsCache, is_fresh, cached_stats, store_stats, StatsState, answer_computed,
  answer_cached, get_stats, Turn, serve,
}

-- The statistics of a database.
unfoldable pub stats_of : Texts → Database → ProtocolStats
unfolding sorted_by_pool pool_stats count_active
stats_of texts db = record {
  pools = map (pool_stats texts) (sorted_by_pool texts db.pool_totals);
  total_commitments = pos (length db.commitments);
  total_nullifiers = pos (length db.nullifiers);
  active_issuers = pos (count_active db.issuers);
  credentials_delivered = pos (length db.credential_deliveries);
}

-- A result, if there is one, and the database left alone.
abbrev Gives : {A : Type 0} → A → Database → Result Fault A × Server → Type 0
Gives v db (ok a, s) = (a ≡ v) × (s.db ≡ db)
Gives v db (err e, s) = Unit

fetched-Gives :
    {A B : Type 0} (select : Database → A) (w : B) (f : A → Exec Server Fault B) (s : Server)
    (db : Database)
    → s.db ≡ db
    → ((s' : Server) → s'.db ≡ db → Gives w db (f (select db) s'))
    → Gives w db (resume (fetch select s) f)
fetched-Gives {A} select w f s db e k = go (fetch select s) (fetch-Fetched select s)
  where
    go : (r : Result Fault A × Server) → Fetched select s r → Gives w db (resume r f)
    go (ok a, s') g = subst (λ a. Gives w db (f a s')) (sym (g.0 ∙ ap select e)) (k s' (g.1 ∙ e))
    go (err x, s') g = tt

compute_stats-Gives :
    (texts : Texts) (s : Server) → Gives (stats_of texts s.db) s.db (compute_stats texts s)
unfolding compute_stats stats_of
compute_stats-Gives texts s =
    let w = stats_of texts s.db in
    fetched-Gives (λ db. map (pool_stats texts) (sorted_by_pool texts db.pool_totals)) w _ s s.db
      refl
      λ s e.
        fetched-Gives (λ db. pos (length db.commitments)) w _ s _ e
          λ s e.
            fetched-Gives (λ db. pos (length db.nullifiers)) w _ s _ e
              λ s e.
                fetched-Gives (λ db. pos (count_active db.issuers)) w _ s _ e
                  λ s e.
                    fetched-Gives (λ db. pos (length db.credential_deliveries)) w _ s _ e
                      λ s e. (refl, e)

some_inj : {a b : ProtocolStats} → some a ≡ some b → a ≡ b
some_inj e = cc

none-some : {a : ProtocolStats} → none ≡ some a → ⊥
none-some e = absurd (cc)

-- A turn among others.
abbrev pub Among : Turn → List Turn → Type 0
Among turn [] = ⊥
Among turn (t ∷ turns) = (turn ≡ t) ⊎ Among turn turns

module _ (texts : Texts) (ttl : ℕ) where
  -- The statistics of the database of a turn that was finished at this time.
  Computed : List Turn → ℕ × ProtocolStats → Type 0
  Computed past (at, stats) =
      (turn : Turn) × Among turn past
      × (at ≡ turn.finished)
      × (stats ≡ stats_of texts turn.server.db)

  abbrev Known : List Turn → StatsCache → Type 0
  Known past none = Unit
  Known past (some entry) = Computed past entry

  -- What an answer holds: the statistics of the database as this request found it, or as a request found
  -- it that was finished less than `ttl` seconds before.
  unfoldable pub IsFresh : List Turn → Turn → Result Fault StatsResponse → Type 0
  IsFresh past now (ok response) =
      (turn : Turn) × Among turn (now ∷ past)
      × (response.stats ≡ stats_of texts turn.server.db)
      × ((turn ≡ now) ⊎ ((now.started - turn.finished) / 10 ^ 9 < ttl))
  IsFresh past now (err e) = Unit

  unfoldable pub AllFresh : List Turn → List (Turn × Result Fault StatsResponse) → Type 0
  unfolding IsFresh
  AllFresh past [] = Unit
  AllFresh past ((turn, answer) ∷ rest) = IsFresh past turn answer × AllFresh (turn ∷ past) rest

  stats_kept : (stats : ProtocolStats) (t : ℕ) → (with_cache_header texts stats t).stats ≡ stats
  unfolding with_cache_header
  stats_kept stats zero = refl
  stats_kept stats (suc t) = refl

  older-Known :
      (past : List Turn) (turn : Turn) (cache : StatsCache)
      → Known past cache
      → Known (turn ∷ past) cache
  unfolding Computed
  older-Known past turn none k = tt
  older-Known past turn (some entry) (t, m, at, e) = (t, inr m, at, e)

  cached_stats-some :
      (n now : ℕ) (cache : StatsCache) (stats : ProtocolStats)
      → cached_stats n now cache ≡ some stats
      → (at : ℕ) × (cache ≡ some (at, stats)) × ((now - at) / 10 ^ 9 < n)
  unfolding cached_stats
  cached_stats-some zero now cache stats e = absurd (cc)
  cached_stats-some (suc n) now none stats e = absurd (cc)
  cached_stats-some (suc n) now (some (at, cached)) stats e =
      elim (Bool-cases (is_fresh (suc n) now at)) [
        | inl f ↦
            let same : cached ≡ stats =
              some_inj (sym (ap (λ b. if b then some cached else none) f) ∙ e) in
            (at, ap (λ c. some (at, c)) same, ltb→lt ((now - at) / 10 ^ 9) (suc n) f)
        | inr f ↦ absurd (none-some (sym (ap (λ b. if b then some cached else none) f) ∙ e))
      ]

  -- A turn: its answer is fresh, and the cache that it leaves is of a turn.
  abbrev Kept : List Turn → Turn → Result Fault StatsResponse × StatsState → Type 0
  Kept past turn r = IsFresh past turn r.0 × Known (turn ∷ past) r.1.stats_cache

  module _ (past : List Turn) (turn : Turn) (cache : StatsCache) (k : Known past cache) where
    store_stats-Known :
        (n : ℕ) (stats : ProtocolStats)
        → stats ≡ stats_of texts turn.server.db
        → Known (turn ∷ past) (store_stats n turn.finished stats cache)
    unfolding store_stats Computed
    store_stats-Known zero stats e = older-Known past turn cache k
    store_stats-Known (suc n) stats e = (turn, inl refl, refl, e)

    answer_computed-Kept :
        (r : Result Fault ProtocolStats × Server)
        → Gives (stats_of texts turn.server.db) turn.server.db r
        → Kept past turn (answer_computed texts ttl turn.finished cache r)
    unfolding answer_computed IsFresh
    answer_computed-Kept (ok stats, server) g =
        ((turn, inl refl, stats_kept stats ttl ∙ g.0, inl refl), store_stats-Known ttl stats g.0)
    answer_computed-Kept (err e, server) g = (tt, older-Known past turn cache k)

    abbrev found : StatsState
    found = record { server = turn.server; stats_cache = cache }

    answer_cached-Kept :
        (o : Option ProtocolStats)
        → cached_stats ttl turn.started cache ≡ o
        → Kept past turn (answer_cached texts ttl turn.finished found o)
    unfolding answer_cached IsFresh Computed
    answer_cached-Kept none e =
        answer_computed-Kept (compute_stats texts turn.server)
          (compute_stats-Gives texts turn.server)
    answer_cached-Kept (some stats) e =
        let (at, c, fresh) = cached_stats-some ttl turn.started cache stats e in
        let (earlier, m, when, what) : Computed past (at, stats) = subst (Known past) c k in
        (
          (
            earlier,
            inr m,
            stats_kept stats ttl ∙ what,
            inr (subst (λ at. (turn.started - at) / 10 ^ 9 < ttl) when fresh),
          ),
          older-Known past turn cache k,
        )

  serve-Known :
      (past : List Turn) (cache : StatsCache) (turns : List Turn)
      → Known past cache
      → AllFresh past (serve texts ttl cache turns)
  unfolding serve get_stats AllFresh
  serve-Known past cache [] k = tt
  serve-Known past cache (turn ∷ turns) k =
      let (fresh, known) =
        answer_cached-Kept past turn cache k (cached_stats ttl turn.started cache) refl in
      (fresh, serve-Known (turn ∷ past) _ turns known)

-- Whatever happens to the database between the requests, no answer that is given is stale: it holds the
-- statistics of the database as this request found it, or as an earlier one found it that was finished
-- less than the time to live of the cache, in whole seconds, before this one started.
pub serve-fresh :
    (texts : Texts) (ttl : ℕ) (turns : List Turn)
    → AllFresh texts ttl [] (serve texts ttl none turns)
serve-fresh texts ttl turns = serve-Known texts ttl [] none turns tt

-- ===== src/Serving/Health.antt =====
-- `health_ready` of crates/attesta-api/src/routes/mod.rs. The answers of its two queries are given: whether the database
-- answers, and whether an indexer cursor moved recently, which is NULL without cursors.
use attesta_protocol_backend.Prelude.{
  ℕ, zero, suc, ◌≡◌, refl, ◌⊎◌, inl, inr, arith, Bool, true, false, String, Option, none, some,
}

pub record Ready : Type 0 where
  pub status : ℕ
  pub failing : Option String

abbrev pub unavailable : String → Ready
unavailable failing = record { status = 503; failing = some failing }

abbrev pub ready : Ready
ready = record { status = 200; failing = none }

-- `.unwrap_or(Some(false))`, and `fresh != Some(true)`
unfoldable pub if_fresh : Option (Option Bool) → Ready
if_fresh (some (some true)) = ready
if_fresh (some (some false)) = unavailable "indexer_staleness"
if_fresh (some none) = unavailable "indexer_staleness"
if_fresh none = unavailable "indexer_staleness"

unfoldable pub health_ready : ℕ → Bool → Option (Option Bool) → Ready
unfolding if_fresh
health_ready max_staleness false fresh = unavailable "database"
health_ready zero true fresh = ready
health_ready (suc secs) true fresh = if_fresh fresh

-- Ready is only a server whose database answers, and whose indexer moved recently where that is asked for.
pub health_ready-ready :
    (max_staleness : ℕ) (db : Bool) (fresh : Option (Option Bool))
    → (health_ready max_staleness db fresh).status ≡ 200
    → (db ≡ true) × ((max_staleness ≡ 0) ⊎ (fresh ≡ some (some true)))
unfolding health_ready if_fresh
health_ready-ready secs false fresh e = absurd (omega (arith, e))
health_ready-ready zero true fresh e = (refl, inl refl)
health_ready-ready (suc secs) true (some (some true)) e = (refl, inr refl)
health_ready-ready (suc secs) true (some (some false)) e = absurd (omega (arith, e))
health_ready-ready (suc secs) true (some none) e = absurd (omega (arith, e))
health_ready-ready (suc secs) true none e = absurd (omega (arith, e))

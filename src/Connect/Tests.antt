-- ===== src/Connect/Tests.antt =====
-- Runs of `connect` of crates/attesta-core/src/db.rs.
use attesta_protocol_backend.Prelude.{
  ℕ, ◌≡◌, ◌≤◌, ◌<◌, ◌+◌, refl, some, none, ◌==◌, if◌then◌else◌, ◌∷◌, [],
}
use attesta_protocol_backend.Connect.{
  database, other, Attempt, is_retryable, settle, attempt_from, connect, connect_max_attempts,
}
use attesta_protocol_backend.Connect.Backoff.{sum, connect-in_budget, Ended, connect-Ended}

-- A database that comes up for the third attempt.
abbrev slow_start : ℕ → Attempt
slow_start n = record { takes = 7000; result = if n == 3 then none else some other }

third_time :
    connect slow_start
    ≡ record { attempts = 3; waited = 15000; backoffs = 500 ∷ 1000 ∷ []; result = none }
unfolding connect attempt_from settle is_retryable
third_time = refl

-- A wrong password.
abbrev locked_out : ℕ → Attempt
locked_out n = record { takes = 20; result = some (database (some "28P01")) }

no_retry : (connect locked_out).attempts ≡ 1
unfolding connect attempt_from settle is_retryable
no_retry = refl

connect-in_budget_example :
    ((connect slow_start).attempts ≤ connect_max_attempts)
    × ((connect slow_start).waited ≤ 50000)
    × (sum (connect slow_start).backoffs ≤ 55500)
    × ((connect slow_start).waited + sum (connect slow_start).backoffs < 120000)
connect-in_budget_example = connect-in_budget slow_start

connect-Ended_example : Ended locked_out 1 9 (connect locked_out)
connect-Ended_example = connect-Ended locked_out

-- ===== src/Connect.antt =====
-- `connect` of crates/attesta-core/src/db.rs: the first connection to the database, retried with a
-- backoff that doubles. Times are milliseconds. What each attempt of the pool ends with is given, and
-- the sleeps are recorded. Log lines are left out.
pub mod Backoff
mod Tests
use attesta_protocol_backend.Prelude.{
  ℕ, zero, suc, ◌+◌, ◌*◌, ◌-◌, min, Bool, true, false, ◌||◌, not, String, Option, none, some, List,
  [], ◌∷◌, if◌then◌else◌, ◌==◌ as nat_eq,
}
use attesta_protocol_backend.Prelude.Keys.{◌==◌, String_eq}
use attesta_protocol_backend.Prelude.Exec.{Result, ok, err}

abbrev pub connect_max_attempts : ℕ
connect_max_attempts = 10

abbrev pub connect_initial_backoff : ℕ
connect_initial_backoff = 500

abbrev pub connect_max_backoff : ℕ
connect_max_backoff = 10000

abbrev pub connect_attempt_timeout : ℕ
connect_attempt_timeout = 5000

-- `sqlx::Error`, as far as the code tells it apart: a database error with its code, or another.
pub data SqlxError : Type 0 where
  database : Option String → SqlxError
  other : SqlxError

unfoldable pub is_retryable : SqlxError → Bool
is_retryable (database (some code)) = not (code == "28P01" || code == "28000" || code == "3D000")
is_retryable (database none) = true
is_retryable other = true

-- What one attempt ends with: the time that it takes, and the error of one that fails.
pub record Attempt : Type 0 where
  pub takes : ℕ
  pub result : Option SqlxError

-- The attempts made, the time spent in them, the backoffs slept, and the error that is returned.
pub record Outcome : Type 0 where
  pub attempts : ℕ
  pub waited : ℕ
  pub backoffs : List ℕ
  pub result : Option SqlxError

abbrev pub after_attempt : ℕ → ℕ → Outcome → Outcome
after_attempt took backoff o = record o {
  attempts = suc o.attempts;
  waited = took + o.waited;
  backoffs = backoff ∷ o.backoffs;
}

abbrev pub once : ℕ → Option SqlxError → Outcome
once took result = record { attempts = 1; waited = took; backoffs = []; result = result }

-- What an attempt's result leads to: the end, or the retry.
unfoldable pub settle : ℕ → Option SqlxError → Outcome → Outcome
unfolding is_retryable
settle took none retried = once took none
settle took (some e) retried = if is_retryable e then retried else once took (some e)

-- The pool gives up an attempt after its timeout.
abbrev pub time_taken : Attempt → ℕ
time_taken a = min a.takes connect_attempt_timeout

-- The loop from the attempt with this number on, when `n` more may follow it.
unfoldable pub attempt_from : (ℕ → Attempt) → ℕ → ℕ → ℕ → Outcome
unfolding settle
attempt_from pool attempt zero backoff = once (time_taken (pool attempt)) (pool attempt).result
attempt_from pool attempt (suc n) backoff =
    let rest = attempt_from pool (attempt + 1) n (min (backoff * 2) connect_max_backoff) in
    let took = time_taken (pool attempt) in
    settle took (pool attempt).result (after_attempt took backoff rest)

unfoldable pub connect : (ℕ → Attempt) → Outcome
unfolding attempt_from
connect pool = attempt_from pool 1 (connect_max_attempts - 1) connect_initial_backoff

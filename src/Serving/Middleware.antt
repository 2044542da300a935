-- ===== src/Serving/Middleware.antt =====
-- The middleware `limit_reads` and `limit_writes` of crates/attesta-api/src/limits.rs, with the budgets of AppState. What the
-- rest of the router answers is a parameter, and so is the text of a number.
use attesta_protocol_backend.Prelude.{ℕ, ◌≡◌, refl, String, Option, some}
use attesta_protocol_backend.Limits.Buckets.{IpBuckets, Acquired, ok, retry_after, try_acquire}

pub record Response : Type 0 where
  pub status : ℕ
  pub retry_after : Option String
  pub body : String

unfoldable pub too_many_requests : (ℕ → String) → ℕ → Response
too_many_requests text retry_after_secs = record {
  status = 429;
  retry_after = some (text retry_after_secs);
  body = "{\"error\":\"rate limit exceeded\"}";
}

-- The two budgets, and the state of the handlers.
pub record AppState (S : Type 0) : Type 0 where
  pub read_buckets : IpBuckets
  pub write_buckets : IpBuckets
  pub handlers : S

module _ {S : Type 0} where
  unfoldable pub admit :
      (ℕ → String)
      → Acquired
      → (AppState S → Response × AppState S)
      → AppState S
      → Response × AppState S
  unfolding too_many_requests
  admit text ok next s = next s
  admit text (retry_after secs) next s = (too_many_requests text secs, s)

  unfoldable pub limit_reads :
      (ℕ → String)
      → ℕ
      → ℕ
      → (AppState S → Response × AppState S)
      → AppState S
      → Response × AppState S
  unfolding admit
  limit_reads text ip now next s =
      let acquired = try_acquire s.read_buckets ip now in
      admit text acquired.0 next (record s { read_buckets = acquired.1 })

  unfoldable pub limit_writes :
      (ℕ → String)
      → ℕ
      → ℕ
      → (AppState S → Response × AppState S)
      → AppState S
      → Response × AppState S
  unfolding admit
  limit_writes text ip now next s =
      let acquired = try_acquire s.write_buckets ip now in
      admit text acquired.0 next (record s { write_buckets = acquired.1 })

  -- A throttled request does not reach the handlers, and leaves the other budget.
  pub limit_writes-throttled :
      (text : ℕ → String) (ip now secs : ℕ) (next : AppState S → Response × AppState S)
      (s : AppState S)
      → (try_acquire s.write_buckets ip now).0 ≡ retry_after secs
      → limit_writes text ip now next s ≡ (
        too_many_requests text secs,
        record s { write_buckets = (try_acquire s.write_buckets ip now).1 },
      )
  unfolding limit_writes admit
  limit_writes-throttled text ip now secs next s e = rw e refl

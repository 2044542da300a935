-- ===== src/Limits/Buckets.antt =====
-- `IpBuckets` of crates/attesta-api/src/limits.rs. An `Instant` is a count of nanoseconds and
-- `duration_since` stops at 0. A token is 10^9 units, so that the refill `elapsed * per_sec` is exact:
-- the rounding of `f64` is not modelled. An address is a number. The lock serialises the calls.
pub mod Budget
pub mod Rate
use attesta_protocol_backend.Prelude.{
  ℕ, ◌+◌, ◌-◌, ◌*◌, ◌/◌, ◌^◌, min, max, Bool, true, Option, none, some, [], ltb, leb, length,
  if◌then◌else◌,
}
use attesta_protocol_backend.Prelude.Keys.{Eq, ◌==◌, ℕ_eq}
use attesta_protocol_backend.Prelude.HashMap.{HashMap, find, insert, retain}

-- 1.0 token, and the nanoseconds of a second.
abbrev pub token : ℕ
token = 10 ^ 9

pub record Bucket : Type 0 where
  pub tokens : ℕ
  pub last_refill : ℕ

pub record IpBuckets : Type 0 where
  pub per_sec : ℕ
  pub burst : ℕ
  pub buckets : HashMap ℕ Bucket

unfoldable pub new : ℕ → ℕ → IpBuckets
new per_sec burst = record { per_sec = per_sec; burst = max burst per_sec; buckets = [] }

unfoldable pub enabled : IpBuckets → Bool
enabled b = ltb 0 b.per_sec

-- `(b.tokens + now.duration_since(b.last_refill) * per_sec).min(burst)`
abbrev pub refilled : IpBuckets → Bucket → ℕ → ℕ
refilled s b now = min (b.tokens + (now - b.last_refill) * s.per_sec) (s.burst * token)

-- The cleanup: full buckets are forgotten when there are more than 10,000.
unfoldable pub cleanup : IpBuckets → ℕ → HashMap ℕ Bucket
cleanup s now =
    if ltb 10_000 (length s.buckets)
    then retain (λ b. ltb (refilled s b now) (s.burst * token)) s.buckets
    else s.buckets

-- `entry(ip).or_insert(…)`
unfoldable pub entry_or_full : IpBuckets → HashMap ℕ Bucket → ℕ → ℕ → Bucket
entry_or_full s m ip now = elim (find ip m) [
  | some b ↦ b
  | none ↦ record { tokens = s.burst * token; last_refill = now }
]

-- `Ok(())`, or the seconds of `Err`.
pub data Acquired : Type 0 where
  ok : Acquired
  retry_after : ℕ → Acquired

-- `((1.0 - tokens) / per_sec).ceil()`
unfoldable pub retry_secs : ℕ → ℕ → ℕ
retry_secs per_sec tokens = (token - tokens + (token * per_sec - 1)) / (token * per_sec)

unfoldable pub try_acquire : IpBuckets → ℕ → ℕ → Acquired × IpBuckets
try_acquire s ip now =
    if enabled s
    then (let m = cleanup s now in
        let tokens = refilled s (entry_or_full s m ip now) now in
        if leb token tokens
        then (
          ok,
          record s {
            buckets = insert ip (record { tokens = tokens - token; last_refill = now }) m;
          },
        )
        else (
          retry_after (retry_secs s.per_sec tokens),
          record s { buckets = insert ip (record { tokens = tokens; last_refill = now }) m },
        ))
    else (ok, s)

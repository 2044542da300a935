-- ===== src/Limits/Buckets/Rate.antt =====
-- How many requests `IpBuckets` of crates/attesta-api/src/limits.rs lets an address make.
use attesta_protocol_backend.Prelude.{
  ℕ, ◌+◌, ◌-◌, ◌*◌, ◌≤◌, ◌<◌, ◌≡◌, ◌≢◌, ap, ◌∙◌, true, Option, none, some, List, [], ◌∷◌, arith,
  Bool-cases, inl, inr, if◌then◌else◌,
}
use attesta_protocol_backend.Prelude.Keys.{◌==◌, ℕ_eq, ==_refl}
use attesta_protocol_backend.Prelude.HashMap.{find}
use attesta_protocol_backend.Limits.Buckets.{
  token, Bucket, IpBuckets, enabled, Acquired, ok, retry_after, try_acquire,
}
use attesta_protocol_backend.Limits.Buckets.Budget.{
  budget, budget_of, IsValid, try_acquire-IsValid, cost, try_acquire-on, try_acquire-budget_self,
  try_acquire-budget_ne, times_mono,
}

-- The calls of all clients, in the order in which they take the lock: an address and the time.
abbrev pub Calls : Type 0
Calls = List (ℕ × ℕ)

abbrev pub InOrder : ℕ → Calls → Type 0
InOrder t [] = Unit
InOrder t ((ip, now) ∷ calls) = (t ≤ now) × InOrder now calls

abbrev pub last_time : ℕ → Calls → ℕ
last_time t [] = t
last_time t ((ip, now) ∷ calls) = last_time now calls

-- The tokens that the calls of `ip` take.
unfoldable pub spent : IpBuckets → ℕ → Calls → ℕ
spent s ip [] = 0
spent s ip ((j, now) ∷ calls) =
    let (got, s') = try_acquire s j now in (if j == ip then cost got else 0) + spent s' ip calls

budget_of-le_burst : (s : IpBuckets) (o : Option Bucket) (t : ℕ) → budget_of s o t ≤ s.burst * token
budget_of-le_burst s none t = omega arith
budget_of-le_burst s (some b) t = omega arith

pub budget-le_burst : (s : IpBuckets) (ip t : ℕ) → budget s ip t ≤ s.burst * token
unfolding budget
budget-le_burst s ip t = budget_of-le_burst s (find ip s.buckets) t

split_times : (a b c r : ℕ) → a ≤ b → b ≤ c → (b - a) * r + (c - b) * r ≡ (c - a) * r
split_times a b c r h k =
    let sum : (b - a) + (c - b) ≡ c - a = omega arith in rw (← sum) (omega arith)

budget_of-later :
    (s : IpBuckets) (o : Option Bucket) (t now : ℕ)
    → t ≤ now
    → budget_of s o now ≤ budget_of s o t + (now - t) * s.per_sec
budget_of-later s none t now h = omega arith
budget_of-later s (some b) t now h = omega (
  arith,
  times_mono (now - b.last_refill) (t - b.last_refill + (now - t)) s.per_sec (omega arith),
)

budget-later :
    (s : IpBuckets) (ip t now : ℕ)
    → t ≤ now
    → budget s ip now ≤ budget s ip t + (now - t) * s.per_sec
unfolding budget
budget-later s ip t now h = budget_of-later s (find ip s.buckets) t now h

last_time-le : (t : ℕ) (calls : Calls) → InOrder t calls → t ≤ last_time t calls
last_time-le t [] o = omega arith
last_time-le t ((ip, now) ∷ calls) o = omega (arith, o.0, last_time-le now calls o.1)

cost-le_budget :
    (s : IpBuckets) (ip now : ℕ)
    → IsValid s
    → enabled s ≡ true
    → cost (try_acquire s ip now).0 ≤ budget s ip now
cost-le_budget s ip now v on = rw (try_acquire-on s ip now v on) (ground arith)

no_time : (t r : ℕ) → (t - t) * r ≡ 0
no_time t r = let e : t - t ≡ 0 = omega arith in rw e (omega arith)

-- A call takes no more than the budget, and what it takes is gone at once.
spend_once :
    (s : IpBuckets) (ip j now : ℕ)
    → IsValid s
    → enabled s ≡ true
    → (if j == ip then cost (try_acquire s j now).0 else 0) + budget (try_acquire s j now).1 ip now
      ≤ budget s ip now
spend_once s ip j now v on = elim (Bool-cases (j == ip)) [
  | inl same ↦
      let e : ip ≡ j = ground arith in
      rw (e, ==_refl j)
        (omega (
          arith,
          cost-le_budget s j now v on,
          try_acquire-budget_self s j now now v on,
          no_time now s.per_sec,
        ))
  | inr other ↦
      let ne : j ≢ ip = ground arith in
      rw other (omega (arith, try_acquire-budget_ne s j ip now now v on (omega arith) ne))
]

config_kept :
    (s : IpBuckets) (ip now : ℕ)
    → ((try_acquire s ip now).1.per_sec ≡ s.per_sec)
      × (enabled (try_acquire s ip now).1 ≡ enabled s)
unfolding try_acquire enabled
config_kept s ip now = ground arith

spent-le :
    (s : IpBuckets) (ip t : ℕ) (calls : Calls)
    → IsValid s
    → enabled s ≡ true
    → InOrder t calls
    → spent s ip calls ≤ budget s ip t + (last_time t calls - t) * s.per_sec
unfolding spent
spent-le s ip t [] v on o = omega arith
spent-le s ip t ((j, now) ∷ calls) v on o =
    let s' = (try_acquire s j now).1 in
    omega (
      arith,
      o.0,
      spend_once s ip j now v on,
      budget-later s ip t now o.0,
      (config_kept s j now).0,
      ap (λ r. (last_time now calls - now) * r) (config_kept s j now).0,
      split_times t now (last_time now calls) s.per_sec o.0 (last_time-le now calls o.1),
      spent-le s' ip now calls (try_acquire-IsValid s j now v) ((config_kept s j now).1 ∙ on) o.1,
    )

-- Where the limit is on (its rate is above 0): whatever the clients do from a time on, in the order of
-- the clock, the requests of one address that go through take at most the burst and the rate times the
-- time that passed. The state is valid at the start. Tokens are exact numbers here, which the f64
-- tokens of the source are up to rounding.
pub spent-le_rate :
    (s : IpBuckets) (ip t : ℕ) (calls : Calls)
    → IsValid s
    → enabled s ≡ true
    → InOrder t calls
    → spent s ip calls ≤ s.burst * token + (last_time t calls - t) * s.per_sec
spent-le_rate s ip t calls v on o =
    omega (arith, spent-le s ip t calls v on o, budget-le_burst s ip t)

cost_refused : (a : Acquired) (n : ℕ) → a ≡ retry_after n → cost a ≡ 0
cost_refused a n h = ground arith

-- Where the limit is on (its rate is above 0) and the state is valid: a client that was refused and waits
-- the second of its `Retry-After` is let through, if no other call comes between. Tokens are exact numbers
-- here.
pub retry_succeeds :
    (s : IpBuckets) (ip now t secs : ℕ)
    → IsValid s
    → enabled s ≡ true
    → (try_acquire s ip now).0 ≡ retry_after secs
    → now + secs * token ≤ t
    → (try_acquire (try_acquire s ip now).1 ip t).0 ≡ ok
retry_succeeds s ip now t secs v on refused waited =
    let s' = (try_acquire s ip now).1 in
    let low : budget s ip now < token = ground (arith, try_acquire-on s ip now v on) in
    let one : secs ≡ 1 = ground (arith, try_acquire-on s ip now v on) in
    let rate : 0 < s.per_sec = unfold enabled in ground arith in
    let enough : token ≤ budget s' ip t = omega (
      arith,
      try_acquire-budget_self s ip now t v on,
      cost_refused (try_acquire s ip now).0 secs refused,
      times_mono 1 s.per_sec (t - now) rate,
      v.burst_covers,
    ) in
    try_acquire-on s' ip t (try_acquire-IsValid s ip now v) ((config_kept s ip now).1 ∙ on)
    ∙ ground arith

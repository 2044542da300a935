-- ===== src/Limits/Buckets/Budget.antt =====
-- The budget of an address, in 10^-9 tokens: what a client can observe of `IpBuckets` of
-- crates/attesta-api/src/limits.rs. Each call spends from the budget of its own address only, and the
-- cleanup is not observable.
use attesta_protocol_backend.Prelude.{
  ℕ, ◌+◌, ◌-◌, ◌*◌, ◌≤◌, ◌<◌, ◌≡◌, ◌≢◌, refl, min, true, false, Option, none, some, arith, leb, ltb,
  not, ◌||◌, length, Bool-cases, inl, inr, ◌∙◌, if◌then◌else◌,
}
use attesta_protocol_backend.Prelude.Keys.{ℕ_eq, ==_refl, ==_ne}
use attesta_protocol_backend.Prelude.HashMap.{
  find, insert, Unique, keep_if, find-insert, insert-Unique, find-retain, retain-Unique,
}
use attesta_protocol_backend.Limits.Buckets.{
  token, Bucket, IpBuckets, new, enabled, refilled, cleanup, entry_or_full, Acquired, ok,
  retry_after, retry_secs, try_acquire,
}

abbrev pub budget_of : IpBuckets → Option Bucket → ℕ → ℕ
budget_of s none now = s.burst * token
budget_of s (some b) now = refilled s b now

-- What the address could spend at `now`.
unfoldable pub budget : IpBuckets → ℕ → ℕ → ℕ
budget s ip now = budget_of s (find ip s.buckets) now

pub times_mono : (a b r : ℕ) → a ≤ b → a * r ≤ b * r
times_mono a b r h = grind arith

-- Time passes: a budget grows by the rate, up to the burst.
refilled-later :
    (s : IpBuckets) (b : Bucket) (now t : ℕ)
    → now ≤ t
    → s.burst * token ≤ refilled s b now
    → refilled s b t ≡ s.burst * token
refilled-later s b now t h full =
    omega (arith, times_mono (now - b.last_refill) (t - b.last_refill) s.per_sec (omega arith))

cleanup_budget :
    (s : IpBuckets) (now t : ℕ) (o : Option Bucket)
    → now ≤ t
    → budget_of s (keep_if (λ b. ltb (refilled s b now) (s.burst * token)) o) t ≡ budget_of s o t
cleanup_budget s now t none h = refl
cleanup_budget s now t (some b) h = elim (Bool-cases (ltb (refilled s b now) (s.burst * token))) [
  | inl keep ↦ rw keep
  | inr drop ↦ rw (drop, refilled-later s b now t h (ground arith))
]

pub find-cleanup :
    (s : IpBuckets) (ip now t : ℕ)
    → Unique s.buckets
    → now ≤ t
    → budget_of s (find ip (cleanup s now)) t ≡ budget s ip t
unfolding cleanup budget
find-cleanup s ip now t u h = elim (Bool-cases (ltb 10_000 (length s.buckets))) [
  | inl many ↦
      rw (many, find-retain (λ b. ltb (refilled s b now) (s.burst * token)) ip s.buckets u)
        (cleanup_budget s now t (find ip s.buckets) h)
  | inr few ↦ rw few
]

pub cleanup-Unique : (s : IpBuckets) (now : ℕ) → Unique s.buckets → Unique (cleanup s now)
unfolding cleanup
cleanup-Unique s now u =
    ground (arith, retain-Unique (λ b. ltb (refilled s b now) (s.burst * token)) s.buckets u)

-- One bucket for each address, and a burst that covers the rate of one second.
pub record IsValid (s : IpBuckets) : Type 0 where
  pub unique : Unique s.buckets
  pub burst_covers : s.per_sec ≤ s.burst

pub new-IsValid : (per_sec burst : ℕ) → IsValid (new per_sec burst)
unfolding new
new-IsValid per_sec burst = record { unique = tt; burst_covers = omega arith }

pub try_acquire-IsValid :
    (s : IpBuckets) (ip now : ℕ) → IsValid s → IsValid (try_acquire s ip now).1
unfolding try_acquire
try_acquire-IsValid s ip now u =
    let m = cleanup s now in
    let left = refilled s (entry_or_full s m ip now) now in
    ground (
      arith,
      insert-Unique ip (record { tokens = left - token; last_refill = now }) m
          (cleanup-Unique s now u.unique),
      insert-Unique ip (record { tokens = left; last_refill = now }) m
          (cleanup-Unique s now u.unique),
    )

-- A refusal always asks for one second.
retry_secs-eq-one : (r t : ℕ) → 0 < r → t < token → retry_secs r t ≡ 1
unfolding retry_secs
retry_secs-eq-one r t hr ht = grind arith

entry_refilled_of :
    (s : IpBuckets) (o : Option Bucket) (now : ℕ)
    → refilled s
        (elim o [ some b ↦ b | none ↦ record { tokens = s.burst * token; last_refill = now } ])
        now
      ≡ budget_of s o now
entry_refilled_of s none now = omega arith
entry_refilled_of s (some b) now = refl

entry_refilled :
    (s : IpBuckets) (ip now : ℕ)
    → IsValid s
    → refilled s (entry_or_full s (cleanup s now) ip now) now ≡ budget s ip now
unfolding entry_or_full
entry_refilled s ip now u =
    entry_refilled_of s (find ip (cleanup s now)) now
    ∙ find-cleanup s ip now now u.unique (omega arith)

-- The state after a call that leaves `left` in the bucket.
abbrev settled : IpBuckets → ℕ → ℕ → ℕ → IpBuckets
settled s ip now left = record s {
  buckets = insert ip (record { tokens = left; last_refill = now }) (cleanup s now);
}

settled-budget_self :
    (s : IpBuckets) (ip now left t : ℕ)
    → budget (settled s ip now left) ip t ≡ min (left + (t - now) * s.per_sec) (s.burst * token)
unfolding budget
settled-budget_self s ip now left t =
    rw (find-insert ip ip (record { tokens = left; last_refill = now }) (cleanup s now), ==_refl ip)

settled-budget_ne :
    (s : IpBuckets) (ip j now left t : ℕ)
    → IsValid s
    → now ≤ t
    → ip ≢ j
    → budget (settled s ip now left) j t ≡ budget s j t
unfolding budget
settled-budget_ne s ip j now left t u h ne =
    rw
      (
        find-insert ip j (record { tokens = left; last_refill = now }) (cleanup s now),
        ==_ne ip j ne,
      )
      (unfold budget in find-cleanup s j now t u.unique h)

module _ (s : IpBuckets) (ip now : ℕ) (u : IsValid s) (on : enabled s ≡ true) where
  try_acquire-granted :
      leb token (budget s ip now) ≡ true
      → try_acquire s ip now ≡ (ok, settled s ip now (budget s ip now - token))
  unfolding try_acquire
  try_acquire-granted h = rw (on, entry_refilled s ip now u, h)

  try_acquire-refused :
      leb token (budget s ip now) ≡ false
      → try_acquire s ip now ≡ (retry_after 1, settled s ip now (budget s ip now))
  unfolding try_acquire
  try_acquire-refused h =
      let low : budget s ip now < token = ground arith in
      let rate : 0 < s.per_sec = unfold enabled in ground arith in
      rw (on, entry_refilled s ip now u, h, retry_secs-eq-one s.per_sec (budget s ip now) rate low)

-- Where the limit is on.
pub try_acquire-on :
    (s : IpBuckets) (ip now : ℕ)
    → IsValid s
    → enabled s ≡ true
    → (try_acquire s ip now).0 ≡ (if leb token (budget s ip now) then ok else retry_after 1)
try_acquire-on s ip now u on = elim (Bool-cases (leb token (budget s ip now))) [
  | inl h ↦ rw (try_acquire-granted s ip now u on h, h)
  | inr h ↦ rw (try_acquire-refused s ip now u on h, h)
]

try_acquire-off : (s : IpBuckets) (ip now : ℕ) → enabled s ≡ false → try_acquire s ip now ≡ (ok, s)
unfolding try_acquire
try_acquire-off s ip now off = rw off

-- Where the limit is off (its rate is 0) every call is granted. Where it is on, a call on a valid state is
-- granted exactly when the budget of its address holds a token, and a refusal asks for one second. Tokens
-- are exact numbers here.
pub try_acquire-result :
    (s : IpBuckets) (ip now : ℕ)
    → IsValid s
    → (try_acquire s ip now).0
      ≡ (if not (enabled s) || leb token (budget s ip now) then ok else retry_after 1)
try_acquire-result s ip now u = elim (Bool-cases (enabled s)) [
  | inl on ↦ rw on (try_acquire-on s ip now u on)
  | inr off ↦ rw (try_acquire-off s ip now off, off)
]

-- The tokens that a call takes.
abbrev pub cost : Acquired → ℕ
cost ok = token
cost (retry_after n) = 0

-- Where the limit is on (its rate is above 0), a call on a valid state leaves its own address the budget
-- that it had, less the token that it took, and what the time since brings, up to the burst. Tokens are
-- exact numbers here.
pub try_acquire-budget_self :
    (s : IpBuckets) (ip now t : ℕ)
    → IsValid s
    → enabled s ≡ true
    → budget (try_acquire s ip now).1 ip t
      ≡ min
          (budget s ip now - cost (try_acquire s ip now).0 + (t - now) * s.per_sec)
          (s.burst * token)
try_acquire-budget_self s ip now t u on = elim (Bool-cases (leb token (budget s ip now))) [
  | inl h ↦
      rw (try_acquire-granted s ip now u on h)
        (settled-budget_self s ip now (budget s ip now - token) t)
  | inr h ↦
      rw (try_acquire-refused s ip now u on h)
        (omega (arith, settled-budget_self s ip now (budget s ip now) t))
]

-- Where the limit is on (its rate is above 0), a call on a valid state leaves every other address the
-- budget that it had, at any time from the call on. Tokens are exact numbers here.
pub try_acquire-budget_ne :
    (s : IpBuckets) (ip j now t : ℕ)
    → IsValid s
    → enabled s ≡ true
    → now ≤ t
    → ip ≢ j
    → budget (try_acquire s ip now).1 j t ≡ budget s j t
try_acquire-budget_ne s ip j now t u on h ne = elim (Bool-cases (leb token (budget s ip now))) [
  | inl g ↦
      rw (try_acquire-granted s ip now u on g)
        (settled-budget_ne s ip j now (budget s ip now - token) t u h ne)
  | inr g ↦
      rw (try_acquire-refused s ip now u on g)
        (settled-budget_ne s ip j now (budget s ip now) t u h ne)
]

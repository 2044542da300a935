-- ===== src/Limits/Tests.antt =====
-- Runs of crates/attesta-api/src/limits.rs on small inputs, and its theorems at such inputs.
use attesta_protocol_backend.Prelude.{
  not, ◌||◌, ℕ, ◌+◌, ◌-◌, ◌*◌, ◌^◌, ◌≤◌, ◌<◌, ◌≡◌, ◌⊎◌, refl, min, Bool, true, false, List, [], ◌∷◌,
  arith, leb, if◌then◌else◌,
}
use attesta_protocol_backend.Prelude.Keys.{ℕ_eq}
use attesta_protocol_backend.Prelude.HashMap.{find, insert}
use attesta_protocol_backend.Limits.Buckets
use attesta_protocol_backend.Limits.Buckets.{
  IpBuckets, token, enabled, cleanup, entry_or_full, Acquired, ok, retry_after, retry_secs,
}
use attesta_protocol_backend.Limits.Buckets.Budget
use attesta_protocol_backend.Limits.Buckets.Budget.{
  budget, cost, new-IsValid, try_acquire-result, try_acquire-budget_self, try_acquire-budget_ne,
}
use attesta_protocol_backend.Limits.Buckets.Rate.{Calls, spent, spent-le_rate, retry_succeeds}
use attesta_protocol_backend.Limits.Slots
use attesta_protocol_backend.Limits.Slots.{
  SseSlots, count_of, global_full, count_ip, add_global, sub_global, uncount_ip, Machine, start,
  Step, check, Reach, here, next, drop_slot,
}
use attesta_protocol_backend.Limits.Slots.Counts
use attesta_protocol_backend.Limits.Slots.Counts.{start-IsValid, Reach-IsValid}
use attesta_protocol_backend.Limits.Slots.Calls.{try_acquire-refused, acquire_drop}
use attesta_protocol_backend.Limits.Slots.Race.{global_cap_exceeded}

-- Two requests a second, a burst of two.
abbrev slow : IpBuckets
slow = Buckets.new 2 1

slow-enabled : enabled slow ≡ true
unfolding enabled Buckets.new
slow-enabled = refl

answers : IpBuckets → Calls → List Acquired
answers s [] = []
answers s ((ip, now) ∷ calls) =
    let (got, s') = Buckets.try_acquire s ip now in got ∷ answers s' calls

-- The burst, a refusal, another address, and half a second later one more token.
burst_then_throttle_then_refill :
    answers slow ((1, 0) ∷ (1, 0) ∷ (1, 0) ∷ (2, 0) ∷ (1, 500_000_000) ∷ (1, 500_000_000) ∷ [])
    ≡ ok ∷ ok ∷ retry_after 1 ∷ ok ∷ ok ∷ retry_after 1 ∷ []
unfolding answers Buckets.try_acquire enabled cleanup entry_or_full retry_secs Buckets.new find
    insert
burst_then_throttle_then_refill = refl

zero_rate_disables_limit : answers (Buckets.new 0 0) ((1, 0) ∷ (1, 0) ∷ []) ≡ ok ∷ ok ∷ []
unfolding answers Buckets.try_acquire enabled Buckets.new
zero_rate_disables_limit = refl

try_acquire-result_example :
    (Buckets.try_acquire slow 1 5).0
    ≡ (if not (enabled slow) || leb token (budget slow 1 5) then ok else retry_after 1)
try_acquire-result_example = try_acquire-result slow 1 5 (new-IsValid 2 1)

try_acquire-budget_self_example :
    budget (Buckets.try_acquire slow 1 5).1 1 9
    ≡ min
        (budget slow 1 5 - cost (Buckets.try_acquire slow 1 5).0 + (9 - 5) * slow.per_sec)
        (slow.burst * token)
try_acquire-budget_self_example = try_acquire-budget_self slow 1 5 9 (new-IsValid 2 1) slow-enabled

try_acquire-budget_ne_example : budget (Buckets.try_acquire slow 1 5).1 2 9 ≡ budget slow 2 9
try_acquire-budget_ne_example =
    try_acquire-budget_ne slow 1 2 5 9 (new-IsValid 2 1) slow-enabled (omega arith) (omega arith)

spent-le_rate_example :
    spent slow 1 ((1, 0) ∷ (2, 3) ∷ (1, 7) ∷ []) ≤ slow.burst * token + (7 - 0) * slow.per_sec
spent-le_rate_example =
    spent-le_rate slow 1 0 ((1, 0) ∷ (2, 3) ∷ (1, 7) ∷ []) (new-IsValid 2 1) slow-enabled
      (omega arith)

-- The state after the burst is spent.
abbrev drained : IpBuckets
drained = record {
  per_sec = 2;
  burst = 2;
  buckets = (1, record { tokens = 0; last_refill = 0 }) ∷ [];
}

drained-IsValid : Budget.IsValid drained
unfolding find
drained-IsValid = record { unique = (refl, tt); burst_covers = omega arith }

retry_succeeds_example : (Buckets.try_acquire (Buckets.try_acquire drained 1 0).1 1 (10 ^ 9)).0 ≡ ok
unfolding Buckets.try_acquire enabled cleanup entry_or_full retry_secs find insert
retry_succeeds_example =
    retry_succeeds drained 1 0 (10 ^ 9) 1 drained-IsValid refl refl (omega arith)

-- Two slots an address, three in all.
abbrev few : SseSlots
few = Slots.new 2 3

grants : SseSlots → List ℕ → List Bool
grants s [] = []
grants s (ip ∷ ips) = let (got, s') = Slots.try_acquire s ip in got ∷ grants s' ips

caps_hold : grants few (1 ∷ 1 ∷ 1 ∷ 2 ∷ 3 ∷ []) ≡ true ∷ true ∷ false ∷ true ∷ false ∷ []
unfolding grants Slots.try_acquire global_full count_ip add_global Slots.new find insert
caps_hold = refl

Reach-IsValid_example : Counts.IsValid (record (start few) { checked = 7 ∷ [] })
unfolding global_full Slots.new
Reach-IsValid_example = Reach-IsValid (start-IsValid 2 3) (next here (check 7 refl))

abbrev one_each : SseSlots
one_each = record { per_ip_cap = 1; global_cap = 3; global = 1; per_ip = (1, 1) ∷ [] }

abbrev two_each : SseSlots
two_each = record { per_ip_cap = 1; global_cap = 3; global = 2; per_ip = (1, 1) ∷ (2, 1) ∷ [] }

try_acquire-refused_example :
    ((0 < 3) × (3 ≤ 1) ⊎ (0 < 1) × (1 ≤ count_of one_each 1))
    × (one_each.global ≡ one_each.global)
    × ((j : ℕ) → count_of one_each j ≡ count_of one_each j)
unfolding Slots.try_acquire global_full count_ip find insert
try_acquire-refused_example = try_acquire-refused one_each one_each 1 refl

acquire_drop_example :
    (two_each.global ≡ one_each.global + 1)
    × (0 < one_each.global_cap → two_each.global ≤ one_each.global_cap)
    × (count_of two_each 2 ≡ count_of one_each 2 + 1)
    × (0 < one_each.per_ip_cap → count_of two_each 2 ≤ one_each.per_ip_cap)
    × ((drop_slot two_each 2).global ≡ one_each.global)
    × ((j : ℕ) → find j (drop_slot two_each 2).per_ip ≡ find j one_each.per_ip)
unfolding Slots.try_acquire global_full count_ip add_global find insert
acquire_drop_example = acquire_drop one_each two_each 2 (refl, tt) (λ h. cc) refl

global_cap_exceeded_example : (m : Machine) × Reach (start (Slots.new 0 1)) m × (1 < m.slots.global)
global_cap_exceeded_example = global_cap_exceeded 1 (omega arith)

-- ===== src/Limits/Slots/Race.antt =====
-- The load of `global` and its update in `try_acquire` of crates/attesta-api/src/limits.rs are two
-- atomic parts: what threads that are between the two can do.
use attesta_protocol_backend.Prelude.{
  ℕ, zero, suc, ◌+◌, ◌<◌, ◌≡◌, refl, true, false, List, [], ◌∷◌, arith, replicate, length-replicate,
  length,
}
use attesta_protocol_backend.Prelude.Keys.{ℕ_eq}
use attesta_protocol_backend.Prelude.HashMap.{insert}
use attesta_protocol_backend.Limits.Slots.{
  SseSlots, new, global_full, count_ip, add_global, Machine, start, Step, check, count, add, Reach,
  here, next, count_of,
}

trans : {m n o : Machine} → Reach m n → Reach n o → Reach m o
trans r here = r
trans r (next q st) = next (trans r q) st

below_cap : (limit : ℕ) → 0 < limit → global_full (new 0 limit) ≡ false
unfolding global_full new
below_cap limit h = ground arith

-- Any number of threads pass the check before one of them counts.
all_check :
    (limit n : ℕ)
    → 0 < limit
    → Reach (start (new 0 limit)) (record (start (new 0 limit)) { checked = replicate n 0 })
all_check limit zero h = here
all_check limit (suc n) h = next (all_check limit n h) (check 0 (below_cap limit h))

count_ip-uncapped :
    (s : SseSlots) (ip : ℕ)
    → s.per_ip_cap ≡ 0
    → count_ip s ip ≡ (true, record s { per_ip = insert ip (count_of s ip + 1) s.per_ip })
unfolding count_ip
count_ip-uncapped s ip h = ground arith

-- Whoever is past the check gets a slot.
all_enter :
    (m : Machine) (xs : List ℕ)
    → m.checked ≡ xs
    → m.slots.per_ip_cap ≡ 0
    → (n : Machine) × Reach m n × (n.slots.global ≡ m.slots.global + length xs)
unfolding add_global
all_enter m [] e h = (m, here, omega arith)
all_enter m (x ∷ xs) e h =
    let counted : SseSlots = record m.slots {
      per_ip = insert x (count_of m.slots x + 1) m.slots.per_ip;
    } in
    let m1 : Machine = record m { slots = counted; checked = xs; counted = x ∷ m.counted } in
    let m2 : Machine = record m1 {
      slots = add_global counted;
      counted = m.counted;
      held = x ∷ m.held;
    } in
    let s1 : Step m m1 = count x [] xs counted e (count_ip-uncapped m.slots x h) in
    let s2 : Step m1 m2 = add x [] m.counted refl in
    let (n, r, g) = all_enter m2 xs refl h in
    (n, trans (next (next here s1) s2) r, omega (arith, g))

-- The global cap is no bound on the live slots: for any cap there are threads that exceed it.
pub global_cap_exceeded :
    (limit : ℕ)
    → 0 < limit
    → (m : Machine) × Reach (start (new 0 limit)) m × (limit < m.slots.global)
unfolding new
global_cap_exceeded limit h =
    let m : Machine = record (start (new 0 limit)) { checked = replicate (suc limit) 0 } in
    let (n, r, g) = all_enter m (replicate (suc limit) 0) refl refl in
    (
      n,
      trans (all_check limit (suc limit) h) r,
      omega (arith, g, length-replicate {A = ℕ} (suc limit) 0),
    )

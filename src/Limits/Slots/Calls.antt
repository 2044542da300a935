-- ===== src/Limits/Slots/Calls.antt =====
-- Whole calls of `SseSlots` of crates/attesta-api/src/limits.rs, one after the other.
use attesta_protocol_backend.Prelude.{
  ℕ, ◌+◌, ◌-◌, ◌≤◌, ◌<◌, ◌≡◌, ◌≢◌, ◌⊎◌, refl, true, false, some, arith,
}
use attesta_protocol_backend.Prelude.Keys.{ℕ_eq}
use attesta_protocol_backend.Prelude.HashMap.{find, insert, Unique, find-insert, insert-Unique}
use attesta_protocol_backend.Limits.Slots.{
  SseSlots, count_of, global_full, count_ip, add_global, sub_global, try_acquire, drop_slot,
}
use attesta_protocol_backend.Limits.Slots.Counts.{find-uncount_ip, uncount_ip-kept}

-- A call that no other call interrupts refuses a slot only at a cap, and a refusal changes no counter.
pub try_acquire-refused :
    (s s' : SseSlots) (ip : ℕ)
    → try_acquire s ip ≡ (false, s')
    → ((0 < s.global_cap) × (s.global_cap ≤ s.global)
        ⊎ (0 < s.per_ip_cap) × (s.per_ip_cap ≤ count_of s ip))
      × (s'.global ≡ s.global)
      × ((j : ℕ) → count_of s' j ≡ count_of s j)
unfolding try_acquire global_full count_ip
try_acquire-refused s s' ip h =
    (ground arith, ground arith, λ j. ground (arith, find-insert ip j (count_of s ip) s.per_ip))

granted :
    (s s' : SseSlots) (ip : ℕ)
    → try_acquire s ip ≡ (true, s')
    → (s' ≡ record s { global = s.global + 1; per_ip = insert ip (count_of s ip + 1) s.per_ip })
      × (0 < s.global_cap → s.global < s.global_cap)
      × (0 < s.per_ip_cap → count_of s ip < s.per_ip_cap)
unfolding try_acquire global_full count_ip add_global
granted s s' ip h = ground arith

find-dropped :
    (s : SseSlots) (ip j : ℕ)
    → Unique s.per_ip
    → find ip s.per_ip ≢ some 0
    → find j
        (drop_slot
          (record s { global = s.global + 1; per_ip = insert ip (count_of s ip + 1) s.per_ip })
          ip).per_ip
      ≡ find j s.per_ip
unfolding drop_slot sub_global
find-dropped s ip j u no_leak =
    let m = insert ip (count_of s ip + 1) s.per_ip in
    ground (
      arith,
      find-uncount_ip (record s { per_ip = m }) ip j
          (insert-Unique ip (count_of s ip + 1) s.per_ip u),
      find-insert ip j (count_of s ip + 1) s.per_ip,
      find-insert ip ip (count_of s ip + 1) s.per_ip,
    )

drop-global :
    (s : SseSlots) (ip n : ℕ)
    → (drop_slot (record s { global = s.global + 1; per_ip = insert ip n s.per_ip }) ip).global
      ≡ s.global
unfolding drop_slot sub_global
drop-global s ip n = omega (
  arith,
  (uncount_ip-kept (record s { global = s.global + 1 - 1; per_ip = insert ip n s.per_ip }) ip).0,
)

-- A call that nothing interrupts grants a slot below the caps only: it counts once more for its address
-- and once more in all, within both caps. Dropping that slot next, uninterrupted as well, brings back the
-- counters of before, down to the entries. The entries are unique, and that of the address is not 0.
-- Calls that interleave can exceed the cap in all.
pub acquire_drop :
    (s s' : SseSlots) (ip : ℕ)
    → Unique s.per_ip
    → find ip s.per_ip ≢ some 0
    → try_acquire s ip ≡ (true, s')
    → (s'.global ≡ s.global + 1)
      × (0 < s.global_cap → s'.global ≤ s.global_cap)
      × (count_of s' ip ≡ count_of s ip + 1)
      × (0 < s.per_ip_cap → count_of s' ip ≤ s.per_ip_cap)
      × ((drop_slot s' ip).global ≡ s.global)
      × ((j : ℕ) → find j (drop_slot s' ip).per_ip ≡ find j s.per_ip)
acquire_drop s s' ip u no_leak h =
    let (e, below, below_ip) = granted s s' ip h in
    let n = count_of s ip + 1 in
    rw e (
      refl,
      λ on. omega (arith, below on),
      ground (arith, find-insert ip ip n s.per_ip),
      λ on. ground (arith, find-insert ip ip n s.per_ip, below_ip on),
      drop-global s ip n,
      λ j. find-dropped s ip j u no_leak,
    )

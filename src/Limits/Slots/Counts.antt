-- ===== src/Limits/Slots/Counts.antt =====
-- What the counters of `SseSlots` of crates/attesta-api/src/limits.rs count, under any interleaving.
use attesta_protocol_backend.Prelude.{
  ℕ, suc, ◌+◌, ◌-◌, ◌≤◌, ◌<◌, ◌≡◌, ◌≢◌, refl, ap, ◌∙◌, true, false, none, some, List, [], ◌∷◌, ◌++◌,
  arith, length, leb, Option-cases, inl, inr, ◌==◌, if◌then◌else◌,
}
use attesta_protocol_backend.Prelude.Keys.{ℕ_eq}
use attesta_protocol_backend.Prelude.HashMap.{
  find, insert, Unique, find-insert, insert-Unique, find-remove_self, find-remove_ne, remove-Unique,
}
use attesta_protocol_backend.Limits.Slots.{
  SseSlots, new, count_of, count_ip, add_global, sub_global, uncount_ip, Machine, start, Step,
  check, count, turn_away, add, release, uncount, Reach, here, next,
}

-- How often an address is in a list.
abbrev pub occurrences : ℕ → List ℕ → ℕ
occurrences ip [] = 0
occurrences ip (x ∷ xs) = (if x == ip then 1 else 0) + occurrences ip xs

occurrences-middle :
    (ip x : ℕ) (a b : List ℕ)
    → occurrences ip (a ++ (x ∷ b)) ≡ (if x == ip then 1 else 0) + occurrences ip (a ++ b)
occurrences-middle ip x [] b = refl
occurrences-middle ip x (y ∷ a) b = ground (arith, occurrences-middle ip x a b)

length-middle : (x : ℕ) (a b : List ℕ) → length (a ++ (x ∷ b)) ≡ suc (length (a ++ b))
length-middle x [] b = refl
length-middle x (y ∷ a) b = ap suc (length-middle x a b)

-- `global` is the number of live slots. The count of an address is the number of its slots, live or
-- on their way in or out; it is within the cap; and no address keeps an entry of 0.
pub record IsValid (m : Machine) : Type 0 where
  pub unique : Unique m.slots.per_ip
  pub global : m.slots.global ≡ length m.held
  pub counts :
      (ip : ℕ)
      → count_of m.slots ip
        ≡ occurrences ip m.counted + occurrences ip m.held + occurrences ip m.released
  pub within : (ip : ℕ) → 0 < m.slots.per_ip_cap → count_of m.slots ip ≤ m.slots.per_ip_cap
  pub no_leak : (ip : ℕ) → find ip m.slots.per_ip ≢ some 0

pub start-IsValid : (per_ip_cap global_cap : ℕ) → IsValid (start (new per_ip_cap global_cap))
unfolding new find
start-IsValid per_ip_cap global_cap = record {
  unique = tt;
  global = refl;
  counts = λ ip. refl;
  within = λ ip h. omega arith;
  no_leak = λ ip h. cc;
}

-- The three sections under the lock, as seen from any address.
pub count_ip-granted :
    (s s' : SseSlots) (ip : ℕ)
    → count_ip s ip ≡ (true, s')
    → (s' ≡ record s { per_ip = insert ip (count_of s ip + 1) s.per_ip })
      × (0 < s.per_ip_cap → count_of s ip < s.per_ip_cap)
unfolding count_ip
count_ip-granted s s' ip h = ground arith

pub count_ip-refused :
    (s s' : SseSlots) (ip : ℕ)
    → count_ip s ip ≡ (false, s')
    → (s' ≡ record s { per_ip = insert ip (count_of s ip) s.per_ip }) × (0 < count_of s ip)
unfolding count_ip
count_ip-refused s s' ip h = ground arith

uncount_ip-Unique : (s : SseSlots) (ip : ℕ) → Unique s.per_ip → Unique (uncount_ip s ip).per_ip
unfolding uncount_ip
uncount_ip-Unique s ip u = elim (Option-cases (find ip s.per_ip)) [
  | inl gone ↦ rw (gone, uncount_ip) u
  | inr (n, found) ↦
      rw (found, uncount_ip)
        (ground (arith, remove-Unique ip s.per_ip u, insert-Unique ip (n - 1) s.per_ip u))
]

pub find-uncount_ip :
    (s : SseSlots) (ip j : ℕ)
    → Unique s.per_ip
    → find j (uncount_ip s ip).per_ip ≡ (
        if ip == j
        then (if leb (count_of s ip) 1 then none else some (count_of s ip - 1))
        else find j s.per_ip)
unfolding uncount_ip
find-uncount_ip s ip j u = elim (Option-cases (find ip s.per_ip)) [
  | inl gone ↦ rw (gone, uncount_ip) (ground arith)
  | inr (n, found) ↦
      rw (found, uncount_ip)
        (ground (
          arith,
          find-remove_self ip s.per_ip u,
          find-remove_ne ip j s.per_ip,
          find-insert ip j (n - 1) s.per_ip,
        ))
]

pub uncount_ip-kept :
    (s : SseSlots) (ip : ℕ)
    → ((uncount_ip s ip).global ≡ s.global) × ((uncount_ip s ip).per_ip_cap ≡ s.per_ip_cap)
unfolding uncount_ip
uncount_ip-kept s ip = ground arith

module _ {m : Machine} (v : IsValid m) (ip : ℕ) (a b : List ℕ) where
  count-IsValid :
      (s : SseSlots)
      → count_ip m.slots ip ≡ (true, s)
      → IsValid (record m { slots = s; checked = a ++ b; counted = ip ∷ m.counted })
  count-IsValid s c =
      let (e, room) = count_ip-granted m.slots s ip c in
      let n = count_of m.slots ip + 1 in
      rw e (record {
        unique = insert-Unique ip n m.slots.per_ip v.unique;
        global = v.global;
        counts = λ j. ground (arith, v.counts j, find-insert ip j n m.slots.per_ip);
        within = λ j h. ground (arith, v.within j h, room h, find-insert ip j n m.slots.per_ip);
        no_leak = λ j h. ground (arith, v.no_leak j, find-insert ip j n m.slots.per_ip);
      })

  turn_away-IsValid :
      (s : SseSlots)
      → count_ip m.slots ip ≡ (false, s)
      → IsValid (record m { slots = s; checked = a ++ b })
  turn_away-IsValid s c =
      let (e, some_left) = count_ip-refused m.slots s ip c in
      let n = count_of m.slots ip in
      rw e (record {
        unique = insert-Unique ip n m.slots.per_ip v.unique;
        global = v.global;
        counts = λ j. ground (arith, v.counts j, find-insert ip j n m.slots.per_ip);
        within = λ j h. ground (arith, v.within j h, find-insert ip j n m.slots.per_ip);
        no_leak = λ j h. ground (arith, v.no_leak j, find-insert ip j n m.slots.per_ip);
      })

  add-IsValid :
      m.counted ≡ a ++ (ip ∷ b)
      → IsValid (record m { slots = add_global m.slots; counted = a ++ b; held = ip ∷ m.held })
  unfolding add_global
  add-IsValid e = record {
    unique = v.unique;
    global = omega (arith, v.global);
    counts = λ j. ground (arith, v.counts j, ap (occurrences j) e, occurrences-middle j ip a b);
    within = v.within;
    no_leak = v.no_leak;
  }

  release-IsValid :
      m.held ≡ a ++ (ip ∷ b)
      → IsValid (record m { slots = sub_global m.slots; held = a ++ b; released = ip ∷ m.released })
  unfolding sub_global
  release-IsValid e = record {
    unique = v.unique;
    global = omega (arith, v.global, ap length e, length-middle ip a b);
    counts = λ j. ground (arith, v.counts j, ap (occurrences j) e, occurrences-middle j ip a b);
    within = v.within;
    no_leak = v.no_leak;
  }

  uncount-IsValid :
      m.released ≡ a ++ (ip ∷ b)
      → IsValid (record m { slots = uncount_ip m.slots ip; released = a ++ b })
  uncount-IsValid e = record {
    unique = uncount_ip-Unique m.slots ip v.unique;
    global = (uncount_ip-kept m.slots ip).0 ∙ v.global;
    counts = λ j. ground (
      arith,
      v.counts j,
      ap (occurrences j) e,
      occurrences-middle j ip a b,
      find-uncount_ip m.slots ip j v.unique,
    );
    within = λ j h.
        let cap_kept = (uncount_ip-kept m.slots ip).1 in
        let on : 0 < m.slots.per_ip_cap = omega (arith, cap_kept) in
        ground (arith, cap_kept, v.within j on, find-uncount_ip m.slots ip j v.unique);
    no_leak = λ j h. ground (arith, v.no_leak j, find-uncount_ip m.slots ip j v.unique);
  }

-- Every step keeps the counters right.
pub Step-IsValid : {m n : Machine} → Step m n → IsValid m → IsValid n
Step-IsValid (check ip free) v = record {
  unique = v.unique;
  global = v.global;
  counts = v.counts;
  within = v.within;
  no_leak = v.no_leak;
}
Step-IsValid (count ip a b s e c) v = count-IsValid v ip a b s c
Step-IsValid (turn_away ip a b s e c) v = turn_away-IsValid v ip a b s c
Step-IsValid (add ip a b e) v = add-IsValid v ip a b e
Step-IsValid (release ip a b e) v = release-IsValid v ip a b e
Step-IsValid (uncount ip a b e) v = uncount-IsValid v ip a b e

-- However the calls interleave, `active` is the number of live slots, each address is counted for its
-- slots and for no more than its cap, and an address without any has no entry.
pub Reach-IsValid : {m n : Machine} → IsValid m → Reach m n → IsValid n
Reach-IsValid v here = v
Reach-IsValid v (next r st) = Step-IsValid st (Reach-IsValid v r)

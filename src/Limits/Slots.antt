-- ===== src/Limits/Slots.antt =====
-- `SseSlots` and `SseSlot` of crates/attesta-api/src/limits.rs, in the atomic parts of which
-- `try_acquire` and `drop` are made: the load of `global`, the section under the `per_ip` lock, and
-- the update of `global`. An address is a number. The counters are `i64`; `Slots.Counts` shows that
-- none falls below 0, so a number serves. The gauge of the metrics is left out.
pub mod Counts
pub mod Race
pub mod Calls
use attesta_protocol_backend.Prelude.{
  ℕ, zero, suc, ◌+◌, ◌-◌, ◌≡◌, Bool, true, false, Option, none, some, List, [], ◌∷◌, ◌++◌, ◌&&◌,
  not, ltb, leb, ◌==◌, if◌then◌else◌,
}
use attesta_protocol_backend.Prelude.Keys.{ℕ_eq}
use attesta_protocol_backend.Prelude.HashMap.{HashMap, find, insert, remove}

pub record SseSlots : Type 0 where
  pub per_ip_cap : ℕ
  pub global_cap : ℕ
  pub global : ℕ
  pub per_ip : HashMap ℕ ℕ

unfoldable pub new : ℕ → ℕ → SseSlots
new per_ip_cap global_cap = record {
  per_ip_cap = per_ip_cap;
  global_cap = global_cap;
  global = 0;
  per_ip = [];
}

abbrev pub or_zero : Option ℕ → ℕ
or_zero none = 0
or_zero (some n) = n

-- The connections counted for an address.
abbrev pub count_of : SseSlots → ℕ → ℕ
count_of s ip = or_zero (find ip s.per_ip)

-- `self.global_cap > 0 && self.global.load() >= self.global_cap`
unfoldable pub global_full : SseSlots → Bool
global_full s = ltb 0 s.global_cap && leb s.global_cap s.global

-- The section under the lock: whether the address is counted once more.
unfoldable pub count_ip : SseSlots → ℕ → Bool × SseSlots
count_ip s ip =
    let count = count_of s ip in
    if ltb 0 s.per_ip_cap && leb s.per_ip_cap count
    then (false, record s { per_ip = insert ip count s.per_ip })
    else (true, record s { per_ip = insert ip (count + 1) s.per_ip })

unfoldable pub add_global : SseSlots → SseSlots
add_global s = record s { global = s.global + 1 }

unfoldable pub sub_global : SseSlots → SseSlots
sub_global s = record s { global = s.global - 1 }

-- The section under the lock of `drop`.
unfoldable pub uncount_ip : SseSlots → ℕ → SseSlots
uncount_ip s ip = elim (find ip s.per_ip) [
  | none ↦ s
  | some count ↦
      if leb count 1
      then record s { per_ip = remove ip s.per_ip }
      else record s { per_ip = insert ip (count - 1) s.per_ip }
]

-- A call of `try_acquire` that nothing interrupts: whether it returns a slot. The steps that other calls
-- can come between are those of `Step`.
unfoldable pub try_acquire : SseSlots → ℕ → Bool × SseSlots
try_acquire s ip =
    if global_full s
    then (false, s)
    else (let (counted, s') = count_ip s ip in
        if counted then (true, add_global s') else (false, s'))

-- Dropping a slot, with nothing in between.
unfoldable pub drop_slot : SseSlots → ℕ → SseSlots
drop_slot s ip = uncount_ip (sub_global s) ip

unfoldable pub active : SseSlots → ℕ
active s = s.global

-- The shared slots, and the address of each call between two of its parts: past the load of
-- `global`, counted for its address, holding a slot, and with `global` given back.
pub record Machine : Type 0 where
  pub slots : SseSlots
  pub checked : List ℕ
  pub counted : List ℕ
  pub held : List ℕ
  pub released : List ℕ

abbrev pub start : SseSlots → Machine
start s = record { slots = s; checked = []; counted = []; held = []; released = [] }

-- One part of one call, of any thread.
pub data Step (m : Machine) : Machine → Type 0 where
  check : (ip : ℕ) → global_full m.slots ≡ false → Step m (record m { checked = ip ∷ m.checked })
  count :
      (ip : ℕ) (a b : List ℕ) (s : SseSlots)
      → m.checked ≡ a ++ (ip ∷ b)
      → count_ip m.slots ip ≡ (true, s)
      → Step m (record m { slots = s; checked = a ++ b; counted = ip ∷ m.counted })
  turn_away :
      (ip : ℕ) (a b : List ℕ) (s : SseSlots)
      → m.checked ≡ a ++ (ip ∷ b)
      → count_ip m.slots ip ≡ (false, s)
      → Step m (record m { slots = s; checked = a ++ b })
  add :
      (ip : ℕ) (a b : List ℕ)
      → m.counted ≡ a ++ (ip ∷ b)
      → Step m (record m { slots = add_global m.slots; counted = a ++ b; held = ip ∷ m.held })
  release :
      (ip : ℕ) (a b : List ℕ)
      → m.held ≡ a ++ (ip ∷ b)
      → Step m (record m { slots = sub_global m.slots; held = a ++ b; released = ip ∷ m.released })
  uncount :
      (ip : ℕ) (a b : List ℕ)
      → m.released ≡ a ++ (ip ∷ b)
      → Step m (record m { slots = uncount_ip m.slots ip; released = a ++ b })

pub data Reach (m : Machine) : Machine → Type 0 where
  here : Reach m m
  next : {n o : Machine} → Reach m n → Step n o → Reach m o

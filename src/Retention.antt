-- ===== src/Retention.antt =====
-- crates/attesta-api/src/retention.rs: the sweeper of the credential mailbox. Every statement reads the clock of the
-- database once, and the readings are given, in microseconds; a day of an interval has 24 hours. The
-- logs, and the hour between the cycles, are left out.
pub mod Batches
pub mod Swept
pub mod Windows
pub mod Cycle
mod Tests
use attesta_protocol_backend.Prelude.{
  ℕ, zero, suc, ◌+◌, ◌-◌, ◌*◌, ◌^◌, Bool, true, false, ◌&&◌, Option, none, some, List, [], ◌∷◌, ltb,
  if◌then◌else◌, ◌==◌ as nat_eq,
}
use attesta_protocol_backend.Prelude.Int.{ℤ, pos, negsuc, ltb_ℤ, ◌+ℤ◌, ◌*ℤ◌}
use attesta_protocol_backend.Prelude.Exec.{Result, ok, err}
use attesta_protocol_backend.Database.{Database, CredentialDelivery}
use attesta_protocol_backend.Api.{Fault}
use attesta_protocol_backend.Tree.{Server, write}

abbrev pub sweep_batch : ℕ
sweep_batch = 10000

abbrev pub day : ℕ
day = 86400000000

-- `days as i32`
unfoldable pub as_i32 : ℕ → ℤ
as_i32 n = if ltb n (2 ^ 31) then pos n else negsuc (2 ^ 32 - 1 - n)

-- `time < now() - make_interval(days => $1)`
unfoldable pub older : ℕ → ℕ → ℕ → Bool
unfolding as_i32 ◌+ℤ◌ ◌*ℤ◌
older days now time = ltb_ℤ (pos time +ℤ as_i32 days *ℤ pos day) (pos now)

-- The two predicates, with the number of days and the time of the statement.
unfoldable pub claimed_before : ℕ → ℕ → CredentialDelivery → Bool
unfolding older
claimed_before days now d = elim d.claimed_at [ none ↦ false | some time ↦ older days now time ]

unfoldable pub created_before : ℕ → ℕ → CredentialDelivery → Bool
unfolding older
created_before days now d = elim d.claimed_at [
  | none ↦ older days now d.created_at
  | some time ↦ false
]

-- DELETE FROM credential_deliveries WHERE delivery_id IN (SELECT delivery_id … WHERE {predicate} LIMIT $2):
-- the rows that are left, and how many were affected. The ids are a primary key, so the rows deleted are
-- those selected; a query without an order may take any of the rows, here it takes the first.
unfoldable pub delete_batch :
    (CredentialDelivery → Bool) → ℕ → List CredentialDelivery → ℕ × List CredentialDelivery
delete_batch predicate n [] = (0, [])
delete_batch predicate zero (x ∷ rows) = (0, x ∷ rows)
delete_batch predicate (suc n) (x ∷ rows) =
    let one = delete_batch predicate n rows in
    let rest = delete_batch predicate (suc n) rows in
    if predicate x then (suc one.0, one.1) else (rest.0, x ∷ rest.1)

abbrev pub delete_statement : (CredentialDelivery → Bool) → Database → ℕ × Database
delete_statement predicate db =
    let deleted = delete_batch predicate sweep_batch db.credential_deliveries in
    (deleted.0, record db { credential_deliveries = deleted.1 })

-- The rest of a round: the loop ends when the batch was not full, and when the statement failed.
unfoldable pub after_batch : Result Fault ℕ × Server → (Server → Option Server) → Option Server
after_batch (ok n, s) next = let more = next s in if ltb n sweep_batch then some s else more
after_batch (err e, s) next = some s

-- The loop of `sweep`, with the clock's reading for each statement; `none` where these ran out.
unfoldable pub sweep : (ℕ → CredentialDelivery → Bool) → List ℕ → Server → Option Server
unfolding after_batch delete_batch
sweep predicate [] s = none
sweep predicate (now ∷ clock) s =
    after_batch (write (delete_statement (predicate now)) s) (sweep predicate clock)

-- `if days > 0 { sweep(…) }`
unfoldable pub sweep_unless_zero :
    (ℕ → ℕ → CredentialDelivery → Bool) → ℕ → List ℕ → Server → Option Server
unfolding sweep
sweep_unless_zero predicate zero clock s = some s
sweep_unless_zero predicate (suc days) clock s = sweep (predicate (suc days)) clock s

abbrev pub then_sweep : Option Server → (Server → Option Server) → Option Server
then_sweep none next = none
then_sweep (some s) next = next s

-- What comes of asking for a connection and for the advisory lock.
pub data Lock : Type 0 where
  no_connection : Lock
  query_failed : Lock
  held_elsewhere : Lock
  locked : Lock

-- Unlocking touches no table.
unfoldable pub run_cycle : Lock → ℕ → ℕ → List ℕ → List ℕ → Server → Option Server
unfolding sweep_unless_zero claimed_before created_before
run_cycle no_connection claimed_days unclaimed_days clock clock' s = some s
run_cycle query_failed claimed_days unclaimed_days clock clock' s = some s
run_cycle held_elsewhere claimed_days unclaimed_days clock clock' s = some s
run_cycle locked claimed_days unclaimed_days clock clock' s =
    then_sweep (sweep_unless_zero claimed_before claimed_days clock s)
      (sweep_unless_zero created_before unclaimed_days clock')

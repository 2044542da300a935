-- ===== src/Retention/Tests.antt =====
-- Runs of the sweeper of crates/attesta-api/src/retention.rs.
use attesta_protocol_backend.Prelude.{
  ℕ, ◌^◌, ◌≡◌, refl, ◌⊎◌, Bool, ◌-◌, true, false, Option, none, some, [], ◌∷◌, arith, All, ltb,
}
use attesta_protocol_backend.Prelude.Int.{pos, ◌+ℤ◌, ◌*ℤ◌}
use attesta_protocol_backend.Database.{CredentialDelivery, empty_database}
use attesta_protocol_backend.Tree.{Server, write, answered}
use attesta_protocol_backend.Tree.Queries.{any_down}
use attesta_protocol_backend.Retention.{
  as_i32, older, claimed_before, created_before, delete_batch, after_batch, sweep,
  sweep_unless_zero, held_elsewhere, locked, run_cycle,
}
use attesta_protocol_backend.Retention.Batches.{spared}
use attesta_protocol_backend.Retention.Swept.{deliveries, StaysDue, sweep-exact}
use attesta_protocol_backend.Retention.Windows.{due}
use attesta_protocol_backend.Retention.Cycle.{run_cycle-due}

abbrev delivery : ℕ → Option ℕ → CredentialDelivery
delivery created claimed = record {
  seq = pos 1;
  delivery_id = 1;
  issuer_id = "I";
  recipient_hint = "h";
  ciphertext = [];
  issuer_signature = [];
  created_at = created;
  claimed_at = claimed;
  claim_token_hash = none;
}

abbrev mailbox : Server
mailbox = record {
  db = record empty_database { credential_deliveries = delivery 1 (some 2) ∷ delivery 1 none ∷ [] };
  answers = [];
  trees = [];
}

abbrev late : ℕ
late = 200000000000

abbrev unclaimed_left : Server
unclaimed_left = record mailbox {
  db = record empty_database { credential_deliveries = delivery 1 none ∷ [] };
}

-- Two days later the claimed one is deleted, and the window of 0 keeps the other.
claimed_deleted : run_cycle locked 1 0 (late ∷ []) (late ∷ []) mailbox ≡ some unclaimed_left
unfolding run_cycle sweep_unless_zero sweep after_batch delete_batch write answered claimed_before
    older as_i32 ◌+ℤ◌ ◌*ℤ◌
claimed_deleted = refl

skipped : run_cycle held_elsewhere 1 1 [] [] mailbox ≡ some mailbox
unfolding run_cycle
skipped = refl

-- A number of days that an i32 has no room for deletes what was just created.
wraps : created_before (2 ^ 32 - 1) 5 (delivery 5 none) ≡ true
unfolding created_before older as_i32 ◌+ℤ◌ ◌*ℤ◌
wraps = refl

abbrev all_due : ℕ → CredentialDelivery → Bool
all_due now d = ltb d.created_at now

all_due-StaysDue : StaysDue all_due
all_due-StaysDue now then_ d h e = ground arith

sweep-exact_example :
    (s' : Server) × (sweep all_due (late ∷ []) mailbox ≡ some s')
    × (spared (all_due late) (deliveries s') ≡ spared (all_due late) (deliveries mailbox))
    × (All (λ d. all_due late d ≡ false) (deliveries s') ⊎ (any_down mailbox.answers ≡ true))
    × (s'.db ≡ record mailbox.db { credential_deliveries = deliveries s' })
sweep-exact_example =
    sweep-exact all_due late late (late ∷ []) mailbox all_due-StaysDue
      ((omega arith, omega arith), tt) (omega arith)

run_cycle-due_example :
    (s' : Server) × (run_cycle locked 1 0 (late ∷ []) (late ∷ []) mailbox ≡ some s')
    × (spared (due 1 0 late) (deliveries s') ≡ spared (due 1 0 late) (deliveries mailbox))
    × (All (λ d. due 1 0 late d ≡ false) (deliveries s') ⊎ (any_down mailbox.answers ≡ true))
run_cycle-due_example =
    run_cycle-due 1 0 late late (late ∷ []) (late ∷ []) mailbox (omega arith) (omega arith)
      ((omega arith, omega arith), tt) ((omega arith, omega arith), tt) (omega arith) (omega arith)

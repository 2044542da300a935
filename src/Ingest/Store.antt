-- ===== src/Ingest/Store.antt =====
-- `store_event` and `add_pool_total` of crates/attesta-indexer/src/ingest.rs, and a query that may fail.
use attesta_protocol_backend.Prelude.{Bool, true, false, String, Option, none, some, List, [], ◌∷◌}
use attesta_protocol_backend.Prelude.Int.{ℤ, pos}
use attesta_protocol_backend.Prelude.Exec.{ok, err, Exec, pure, ◌>>◌}
use attesta_protocol_backend.Database.{Database}
use attesta_protocol_backend.Events.Types.{
  PoolEvent, new_commitment, nullifier_spent, encrypted_note, withdrawal, issuer_updated,
}
use attesta_protocol_backend.Ingest.Tables.{
  insert_commitment, insert_nullifier, insert_note, upsert_issuer, add_total,
}

pub data SyncError : Type 0 where
  db_error rpc_error : SyncError

-- The database, and whether it carries out the next queries. A query that fails changes nothing.
pub record Indexer : Type 0 where
  pub db : Database
  pub answers : List Bool

-- What the database says to the next query: an error, or that it carries the query out.
unfoldable pub answered :
    {A : Type 0} → List Bool → Exec Indexer SyncError A → Exec Indexer SyncError A
answered [] m s = m s
answered (true ∷ answers) m s = m (record s { answers = answers })
answered (false ∷ answers) m s = (err db_error, record s { answers = answers })

unfoldable pub applied : Option Database → Exec Indexer SyncError (Unit {0})
applied none s = (err db_error, s)
applied (some db) s = (ok tt, record s { db = db })

-- A query that writes.
unfoldable pub query : (Database → Option Database) → Exec Indexer SyncError (Unit {0})
unfolding answered applied
query statement s = answered s.answers (λ s. applied (statement s.db) s) s

-- A query that reads.
unfoldable pub fetch : {A : Type 0} → (Database → A) → Exec Indexer SyncError A
unfolding answered
fetch select s = answered s.answers (λ s. (ok (select s.db), s)) s

unfoldable pub add_pool_total : String → String → ℤ → ℤ → Exec Indexer SyncError (Unit {0})
add_pool_total pool asset inflow outflow =
    query
      (add_total (record { pool = pool; asset = asset; total_in = inflow; total_out = outflow }))

-- `if let (Some(amount), Some(asset)) = (deposit_amount, asset)`
unfoldable pub add_deposit : String → Option ℤ → Option String → Exec Indexer SyncError (Unit {0})
add_deposit contract_id (some amount) (some asset) = add_pool_total contract_id asset amount (pos 0)
add_deposit contract_id _ _ = pure tt

unfoldable pub store_event : String → ℤ → String → PoolEvent → Exec Indexer SyncError (Unit {0})
unfolding add_pool_total add_deposit
store_event contract_id ledger tx_hash (new_commitment commitment leaf_index deposit_amount asset) =
    do
      query (
          insert_commitment (record {
            pool = contract_id;
            leaf_index = leaf_index;
            commitment = commitment;
            ledger = ledger;
            tx_hash = tx_hash;
          }))
      add_deposit contract_id deposit_amount asset
store_event contract_id ledger tx_hash (nullifier_spent nullifier) = query (
    insert_nullifier
      (record { pool = contract_id; nullifier = nullifier; ledger = ledger; tx_hash = tx_hash }))
store_event contract_id ledger tx_hash (encrypted_note commitment ephemeral_pubkey ciphertext) =
    query (insert_note contract_id commitment ephemeral_pubkey ciphertext ledger tx_hash)
store_event contract_id ledger tx_hash (withdrawal amount asset) =
    add_pool_total contract_id asset (pos 0) amount
store_event contract_id ledger tx_hash
      (issuer_updated issuer_id name public_key claim_types status) =
    query (
      upsert_issuer (record {
        issuer_id = issuer_id;
        name = name;
        public_key = public_key;
        claim_types = claim_types;
        status = status;
        registered_ledger = ledger;
      }))

-- ===== src/Database.antt =====
-- The Postgres schema of migrations/*.sql, with the row types of crates/attesta-core/src/models.rs. A
-- table is the list of its rows in the order of insertion; columns that no query of the program reads
-- (the surrogate ids other than the cursors, `created_at` and `updated_at` of the mirrored tables) are
-- left out. A BIGINT is an integer, BYTEA a list of bytes, a TIMESTAMPTZ a number of microseconds.
use attesta_protocol_backend.Prelude.{ℕ, String, Option, List, []}
use attesta_protocol_backend.Prelude.Bytes.{Bytes}
use attesta_protocol_backend.Prelude.Int.{ℤ}

pub record IndexerCursor : Type 0 where
  pub contract_id : String
  pub last_ledger : ℤ
  pub last_cursor : Option String

pub record CommitmentRow : Type 0 where
  pub pool : String
  pub leaf_index : ℤ
  pub commitment : Bytes
  pub ledger : ℤ
  pub tx_hash : String

pub record NullifierRow : Type 0 where
  pub pool : String
  pub nullifier : Bytes
  pub ledger : ℤ
  pub tx_hash : String

pub record EncryptedNoteRow : Type 0 where
  pub id : ℤ
  pub pool : String
  pub commitment : Bytes
  pub ephemeral_pubkey : Bytes
  pub ciphertext : Bytes
  pub ledger : ℤ
  pub tx_hash : String

pub record IssuerRow : Type 0 where
  pub issuer_id : String
  pub name : String
  pub public_key : Bytes
  pub claim_types : List String
  pub status : String
  pub registered_ledger : ℤ

-- `CredentialDeliveryRow`, with the columns of the claim and of the retention.
pub record CredentialDelivery : Type 0 where
  pub seq : ℤ
  pub delivery_id : ℕ
  pub issuer_id : String
  pub recipient_hint : String
  pub ciphertext : Bytes
  pub issuer_signature : Bytes
  pub created_at : ℕ
  pub claimed_at : Option ℕ
  pub claim_token_hash : Option Bytes

pub record PoolTotal : Type 0 where
  pub pool : String
  pub asset : String
  pub total_in : ℤ
  pub total_out : ℤ

pub record TreeRoot : Type 0 where
  pub pool : String
  pub leaf_count : ℤ
  pub root : Bytes
  pub ledger : ℤ

-- `next_note` and `next_seq` are the counters behind `encrypted_notes.id` and
-- `credential_deliveries.seq`.
pub record Database : Type 0 where
  pub indexer_cursors : List IndexerCursor
  pub commitments : List CommitmentRow
  pub nullifiers : List NullifierRow
  pub encrypted_notes : List EncryptedNoteRow
  pub next_note : ℕ
  pub issuers : List IssuerRow
  pub credential_deliveries : List CredentialDelivery
  pub next_seq : ℕ
  pub pool_totals : List PoolTotal
  pub tree_roots : List TreeRoot

abbrev pub empty_database : Database
empty_database = record {
  indexer_cursors = [];
  commitments = [];
  nullifiers = [];
  encrypted_notes = [];
  next_note = 1;
  issuers = [];
  credential_deliveries = [];
  next_seq = 1;
  pool_totals = [];
  tree_roots = [];
}

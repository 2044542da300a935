-- ===== src/Ingest/Tables.antt =====
-- The SQL statements of crates/attesta-indexer/src/ingest.rs, on the tables of migrations/*.sql.
-- `none` is a statement that Postgres refuses.
use attesta_protocol_backend.Prelude.{
  ◌+◌, ◌^◌, Bool, false, ◌&&◌, ◌||◌, String, Option, none, some, List, [], ◌∷◌, ◌++◌, ltb,
  if◌then◌else◌,
}
use attesta_protocol_backend.Prelude.Bytes.{Bytes, Bytes}
use attesta_protocol_backend.Prelude.Int.{ℤ, pos, pos_part, neg_part, ◌+ℤ◌}
use attesta_protocol_backend.Prelude.Keys.{◌==◌, String_eq, Bytes_eq, ℤ_eq}
use attesta_protocol_backend.Prelude.Options.{option_map}
use attesta_protocol_backend.Database.{
  Database, IndexerCursor, CommitmentRow, NullifierRow, EncryptedNoteRow, IssuerRow, PoolTotal,
}

-- UNIQUE (pool, leaf_index) and UNIQUE (pool, commitment)
abbrev pub same_commitment : CommitmentRow → CommitmentRow → Bool
same_commitment a b =
    a.pool == b.pool && (a.leaf_index == b.leaf_index || a.commitment == b.commitment)

unfoldable pub conflicts_commitment : CommitmentRow → List CommitmentRow → Bool
conflicts_commitment r [] = false
conflicts_commitment r (x ∷ rows) = same_commitment x r || conflicts_commitment r rows

-- INSERT INTO commitments … ON CONFLICT DO NOTHING
unfoldable pub insert_commitment : CommitmentRow → Database → Option Database
insert_commitment r db =
    if conflicts_commitment r db.commitments
    then some db
    else some (record db { commitments = db.commitments ++ r ∷ [] })

-- UNIQUE (pool, nullifier)
abbrev pub same_nullifier : NullifierRow → NullifierRow → Bool
same_nullifier a b = a.pool == b.pool && a.nullifier == b.nullifier

unfoldable pub conflicts_nullifier : NullifierRow → List NullifierRow → Bool
conflicts_nullifier r [] = false
conflicts_nullifier r (x ∷ rows) = same_nullifier x r || conflicts_nullifier r rows

-- INSERT INTO nullifiers … ON CONFLICT DO NOTHING
unfoldable pub insert_nullifier : NullifierRow → Database → Option Database
insert_nullifier r db =
    if conflicts_nullifier r db.nullifiers
    then some db
    else some (record db { nullifiers = db.nullifiers ++ r ∷ [] })

-- INSERT INTO encrypted_notes …, with the next id
unfoldable pub insert_note :
    String → Bytes → Bytes → Bytes → ℤ → String → Database → Option Database
insert_note pool commitment ephemeral_pubkey ciphertext ledger tx_hash db =
    let row : EncryptedNoteRow = record {
      id = pos db.next_note;
      pool = pool;
      commitment = commitment;
      ephemeral_pubkey = ephemeral_pubkey;
      ciphertext = ciphertext;
      ledger = ledger;
      tx_hash = tx_hash;
    } in
    some
      (record db { encrypted_notes = db.encrypted_notes ++ row ∷ []; next_note = db.next_note + 1 })

-- ON CONFLICT (issuer_id) DO UPDATE: the ledger of the registration stays.
-- The columns of a row but `updated_at`, which the statement sets to now() and no query reads.
unfoldable pub upsert_issuer_row : IssuerRow → List IssuerRow → List IssuerRow
upsert_issuer_row r [] = r ∷ []
upsert_issuer_row r (x ∷ rows) =
    if x.issuer_id == r.issuer_id
    then record r { registered_ledger = x.registered_ledger } ∷ rows
    else x ∷ upsert_issuer_row r rows

-- INSERT INTO issuers … ON CONFLICT (issuer_id) DO UPDATE …
unfoldable pub upsert_issuer : IssuerRow → Database → Option Database
unfolding upsert_issuer_row
upsert_issuer r db = some (record db { issuers = upsert_issuer_row r db.issuers })

-- NUMERIC(39, 0)
abbrev pub fits_numeric : ℤ → Bool
fits_numeric a = ltb (pos_part a + neg_part a) (10 ^ 39)

-- ON CONFLICT (pool) DO UPDATE: the totals of the row grow, and its asset stays.
unfoldable pub grow_total : PoolTotal → PoolTotal → Option PoolTotal
grow_total r x =
    let total_in = x.total_in +ℤ r.total_in in
    let total_out = x.total_out +ℤ r.total_out in
    if fits_numeric total_in && fits_numeric total_out
    then some (record x { total_in = total_in; total_out = total_out })
    else none

unfoldable pub add_total_row : PoolTotal → List PoolTotal → Option (List PoolTotal)
unfolding grow_total
add_total_row r [] =
    if fits_numeric r.total_in && fits_numeric r.total_out then some (r ∷ []) else none
add_total_row r (x ∷ rows) =
    let rest = add_total_row r rows in
    if x.pool == r.pool
    then option_map (λ grown. grown ∷ rows) (grow_total r x)
    else option_map (λ rows'. x ∷ rows') rest

-- INSERT INTO pool_totals … ON CONFLICT (pool) DO UPDATE …
unfoldable pub add_total : PoolTotal → Database → Option Database
unfolding add_total_row
add_total r db =
    option_map (λ rows. record db { pool_totals = rows }) (add_total_row r db.pool_totals)

-- SELECT last_ledger, last_cursor FROM indexer_cursors WHERE contract_id = $1
unfoldable pub select_cursor : String → List IndexerCursor → Option IndexerCursor
select_cursor contract_id [] = none
select_cursor contract_id (x ∷ rows) =
    if x.contract_id == contract_id then some x else select_cursor contract_id rows

unfoldable pub upsert_cursor_row : IndexerCursor → List IndexerCursor → List IndexerCursor
upsert_cursor_row r [] = r ∷ []
upsert_cursor_row r (x ∷ rows) =
    if x.contract_id == r.contract_id then r ∷ rows else x ∷ upsert_cursor_row r rows

-- INSERT INTO indexer_cursors … ON CONFLICT (contract_id) DO UPDATE …
unfoldable pub upsert_cursor : String → ℤ → Option String → Database → Option Database
unfolding upsert_cursor_row
upsert_cursor contract_id last_ledger cursor db =
    let row : IndexerCursor = record {
      contract_id = contract_id;
      last_ledger = last_ledger;
      last_cursor = cursor;
    } in
    some (record db { indexer_cursors = upsert_cursor_row row db.indexer_cursors })

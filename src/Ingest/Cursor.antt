-- ===== src/Ingest/Cursor.antt =====
-- The cursor of crates/attesta-indexer/src/ingest.rs: when it moves, and where to.
use attesta_protocol_backend.Prelude.{
  ◌≡◌, ◌≢◌, refl, Bool, true, false, String, Option, none, some, List, [], ◌∷◌, arith,
  if◌then◌else◌, ◌∙◌,
}
use attesta_protocol_backend.Prelude.Int.{ℤ}
use attesta_protocol_backend.Prelude.Keys.{String_eq}
use attesta_protocol_backend.Prelude.Options.{Yields, option_map}
use attesta_protocol_backend.Prelude.Exec.{Result, ok, err, pure, resume, ◌>>◌}
use attesta_protocol_backend.Database.{Database, IndexerCursor, PoolTotal}
use attesta_protocol_backend.Events.Types.{Codecs}
use attesta_protocol_backend.Ingest.Tables.{
  insert_commitment, insert_nullifier, insert_note, upsert_issuer, add_total_row, add_total,
  select_cursor, upsert_cursor_row, upsert_cursor,
}
use attesta_protocol_backend.Ingest.Store.{Indexer, SyncError, query, applied, answered}
use attesta_protocol_backend.Ingest.{
  EventsPage, Replies, store_events, caught_up, sync_page, sync_contract,
}
use attesta_protocol_backend.Ingest.Keeps.{RowsKept, store_events-Keeps, sync_contract-Keeps}

-- What `upsert_cursor` saves.
abbrev pub saved_row : String → ℤ → Option String → IndexerCursor
saved_row contract_id n c = record { contract_id = contract_id; last_ledger = n; last_cursor = c }

module _ (contract_id : String) (n : ℤ) (c : Option String) where
  select-upsert_self :
      (rows : List IndexerCursor)
      → select_cursor contract_id (upsert_cursor_row (saved_row contract_id n c) rows)
        ≡ some (saved_row contract_id n c)
  unfolding select_cursor upsert_cursor_row
  select-upsert_self [] = rw ((String_eq.beq_iff contract_id contract_id).1 refl)
  select-upsert_self (x ∷ rows) = ground (
    arith,
    (String_eq.beq_iff contract_id contract_id).1 refl,
    String_eq.beq_iff x.contract_id contract_id,
    select-upsert_self rows,
  )

  select-upsert_ne :
      (other : String) (rows : List IndexerCursor)
      → contract_id ≢ other
      → select_cursor other (upsert_cursor_row (saved_row contract_id n c) rows)
        ≡ select_cursor other rows
  unfolding select_cursor upsert_cursor_row
  select-upsert_ne other [] h = ground (arith, String_eq.beq_iff contract_id other)
  select-upsert_ne other (x ∷ rows) h = ground (
    arith,
    String_eq.beq_iff contract_id other,
    String_eq.beq_iff x.contract_id contract_id,
    String_eq.beq_iff x.contract_id other,
    select-upsert_ne other rows h,
  )

-- Events leave the cursors alone.
totals-cursors :
    (P : List IndexerCursor → Type 0) (db : Database) (o : Option (List PoolTotal))
    → P db.indexer_cursors
    → Yields (λ d. P d.indexer_cursors) (option_map (λ rows. record db { pool_totals = rows }) o)
totals-cursors P db none p = tt
totals-cursors P db (some rows) p = p

if-cursors :
    (P : List IndexerCursor → Type 0) (b : Bool) (x y : Database)
    → P x.indexer_cursors
    → P y.indexer_cursors
    → Yields (λ d. P d.indexer_cursors) (if b then some x else some y)
if-cursors P true x y p q = p
if-cursors P false x y p q = q

cursors-rows : (P : List IndexerCursor → Type 0) → RowsKept (λ db. P db.indexer_cursors)
unfolding insert_commitment insert_nullifier insert_note upsert_issuer add_total
cursors-rows P = record {
  commitment = λ r db p. if-cursors P _ _ _ p p;
  nullifier = λ r db p. if-cursors P _ _ _ p p;
  note = λ pool c k t l h db p. p;
  issuer = λ r db p. p;
  total = λ r db p. totals-cursors P db (add_total_row r db.pool_totals) p;
}

-- The sync of a contract never touches the cursor of another one.
pub sync_contract-other_cursor :
    (codecs : Codecs) (contract_id other : String) (replies : Replies) (s : Indexer)
    → contract_id ≢ other
    → select_cursor other (sync_contract codecs contract_id replies s).1.db.indexer_cursors
      ≡ select_cursor other s.db.indexer_cursors
unfolding upsert_cursor
sync_contract-other_cursor codecs contract_id other replies s h =
    let before = select_cursor other s.db.indexer_cursors in
    sync_contract-Keeps (λ db. select_cursor other db.indexer_cursors ≡ before)
      (cursors-rows (λ rows. select_cursor other rows ≡ before)) contract_id
      (λ n c db p. select-upsert_ne contract_id n c other db.indexer_cursors h ∙ p) codecs replies s
      refl

-- The row of the cursor after a page: the page's own once all is done, and otherwise the one of before.
abbrev pub Saved :
    String → EventsPage → Option IndexerCursor → Result SyncError ℤ × Indexer → Type 0
Saved contract_id page before (ok n, s) =
    select_cursor contract_id s.db.indexer_cursors ≡ some (saved_row contract_id n page.cursor)
Saved contract_id page before (err e, s) = select_cursor contract_id s.db.indexer_cursors ≡ before

module _ (contract_id : String) (page : EventsPage) (before : Option IndexerCursor) where
  saves :
      (n : ℤ) (answers : List Bool) (s : Indexer)
      → select_cursor contract_id s.db.indexer_cursors ≡ before
      → Saved contract_id page before (
          resume
            (answered answers (λ s. applied (upsert_cursor contract_id n page.cursor s.db) s) s)
            (λ _. pure n))
  unfolding answered applied upsert_cursor
  saves n [] s h = select-upsert_self contract_id n page.cursor s.db.indexer_cursors
  saves n (true ∷ answers) s h = select-upsert_self contract_id n page.cursor s.db.indexer_cursors
  saves n (false ∷ answers) s h = h

  saves_after :
      (r : Result SyncError ℤ × Indexer)
      → select_cursor contract_id r.1.db.indexer_cursors ≡ before
      → Saved contract_id page before (
          resume r λ seen.
            query (upsert_cursor contract_id (caught_up page seen) page.cursor)
            >> pure (caught_up page seen))
  unfolding query
  saves_after (ok seen, s) h = saves (caught_up page seen) s.answers s h
  saves_after (err e, s) h = h

-- The cursor moves after the events of its page: where a query of the page fails, the row of the cursor
-- is as before, so that the page is fetched again, and where none does, the row holds the page's cursor
-- and the returned ledger.
pub sync_page-Saved :
    (codecs : Codecs) (contract_id : String) (page : EventsPage) (last_ledger : ℤ) (s : Indexer)
    → Saved contract_id page
        (select_cursor contract_id s.db.indexer_cursors)
        (sync_page codecs contract_id page last_ledger s)
unfolding sync_page
sync_page-Saved codecs contract_id page last_ledger s =
    let before = select_cursor contract_id s.db.indexer_cursors in
    saves_after contract_id page before (store_events codecs contract_id page.events last_ledger s)
      (store_events-Keeps (λ db. select_cursor contract_id db.indexer_cursors ≡ before)
        (cursors-rows (λ rows. select_cursor contract_id rows ≡ before)) codecs contract_id
        page.events last_ledger s refl)

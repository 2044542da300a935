-- ===== src/Ingest/Keeps.antt =====
-- What every run of crates/attesta-indexer/src/ingest.rs keeps of the database, whichever queries and
-- requests fail on the way.
use attesta_protocol_backend.Prelude.{Bool, true, false, String, Option, none, some, List, [], ◌∷◌}
use attesta_protocol_backend.Prelude.Int.{ℤ}
use attesta_protocol_backend.Prelude.Options.{Yields}
use attesta_protocol_backend.Prelude.Exec.{Result, ok, err, Exec, pure, resume, ◌>>=◌, ◌>>◌}
use attesta_protocol_backend.Database.{Database, CommitmentRow, NullifierRow, IssuerRow, PoolTotal}
use attesta_protocol_backend.Events.Types.{
  RawEvent, PoolEvent, new_commitment, nullifier_spent, encrypted_note, withdrawal, issuer_updated,
  Codecs,
}
use attesta_protocol_backend.Events.{decode}
use attesta_protocol_backend.Prelude.Bytes.{Bytes}
use attesta_protocol_backend.Ingest.Tables.{
  insert_commitment, insert_nullifier, insert_note, upsert_issuer, add_total, upsert_cursor,
}
use attesta_protocol_backend.Ingest.Store.{
  Indexer, SyncError, query, fetch, applied, answered, add_pool_total, add_deposit, store_event,
}
use attesta_protocol_backend.Ingest.{
  EventsPage, Replies, with_page, unless_done, store_decoded, store_events, no_events, caught_up,
  sync_page, sync_pages, sync_contract, next_request, resume_at,
}

-- A statement, and a computation, that keep a predicate of the database.
abbrev pub Kept : (Database → Type 0) → (Database → Option Database) → Type 0
Kept P statement = (db : Database) → P db → Yields P (statement db)

abbrev pub Keeps : (Database → Type 0) → {A : Type 0} → Exec Indexer SyncError A → Type 0
Keeps P m = (s : Indexer) → P s.db → P (m s).1.db

-- The statements that an event is stored with.
pub record RowsKept (P : Database → Type 0) : Type 0 where
  pub commitment : (r : CommitmentRow) → Kept P (insert_commitment r)
  pub nullifier : (r : NullifierRow) → Kept P (insert_nullifier r)
  pub note :
      (pool : String) (c k t : Bytes) (l : ℤ) (h : String) → Kept P (insert_note pool c k t l h)
  pub issuer : (r : IssuerRow) → Kept P (upsert_issuer r)
  pub total : (r : PoolTotal) → Kept P (add_total r)

module _ (P : Database → Type 0) where
  applied-Keeps : (o : Option Database) (s : Indexer) → P s.db → Yields P o → P (applied o s).1.db
  unfolding applied
  applied-Keeps none s p y = p
  applied-Keeps (some db) s p y = y

  answered-Keeps :
      {A : Type 0} (answers : List Bool) (m : Exec Indexer SyncError A)
      → Keeps P m
      → Keeps P (answered answers m)
  unfolding answered
  answered-Keeps [] m k s p = k s p
  answered-Keeps (true ∷ answers) m k s p = k (record s { answers = answers }) p
  answered-Keeps (false ∷ answers) m k s p = p

  pub query-Keeps :
      (statement : Database → Option Database) → Kept P statement → Keeps P (query statement)
  unfolding query
  query-Keeps statement k s =
      answered-Keeps s.answers _ (λ s p. applied-Keeps (statement s.db) s p (k s.db p)) s

  pub fetch-Keeps : {A : Type 0} (select : Database → A) → Keeps P (fetch select)
  unfolding fetch
  fetch-Keeps select s = answered-Keeps s.answers _ (λ s p. p) s

  resume-Keeps :
      {A B : Type 0} (r : Result SyncError A × Indexer) (f : A → Exec Indexer SyncError B)
      → P r.1.db
      → ((a : A) → Keeps P (f a))
      → P (resume r f).1.db
  resume-Keeps (ok a, s) f p k = k a s p
  resume-Keeps (err e, s) f p k = p

  pub bind-Keeps :
      {A B : Type 0} (m : Exec Indexer SyncError A) (f : A → Exec Indexer SyncError B)
      → Keeps P m
      → ((a : A) → Keeps P (f a))
      → Keeps P (m >>= f)
  bind-Keeps m f h k s p = resume-Keeps (m s) f (h s p) k

  module _ (rows : RowsKept P) where
    pub add_deposit-Keeps :
        (contract_id : String) (amount : Option ℤ) (asset : Option String)
        → Keeps P (add_deposit contract_id amount asset)
    unfolding add_deposit add_pool_total
    add_deposit-Keeps contract_id (some amount) (some asset) = query-Keeps _ (rows.total _)
    add_deposit-Keeps contract_id (some amount) none = λ s p. p
    add_deposit-Keeps contract_id none asset = λ s p. p

    pub store_event-Keeps :
        (contract_id : String) (ledger : ℤ) (tx_hash : String) (e : PoolEvent)
        → Keeps P (store_event contract_id ledger tx_hash e)
    unfolding store_event add_pool_total
    store_event-Keeps contract_id ledger tx_hash (new_commitment c i amount asset) =
        bind-Keeps _ _ (query-Keeps _ (rows.commitment _))
          λ _. add_deposit-Keeps contract_id amount asset
    store_event-Keeps contract_id ledger tx_hash (nullifier_spent n) =
        query-Keeps _ (rows.nullifier _)
    store_event-Keeps contract_id ledger tx_hash (encrypted_note c k t) =
        query-Keeps _ (rows.note contract_id c k t ledger tx_hash)
    store_event-Keeps contract_id ledger tx_hash (withdrawal amount asset) =
        query-Keeps _ (rows.total _)
    store_event-Keeps contract_id ledger tx_hash (issuer_updated i n k c t) =
        query-Keeps _ (rows.issuer _)

    store_decoded-Keeps :
        (contract_id : String) (raw : RawEvent) (o : Option PoolEvent)
        → Keeps P (store_decoded contract_id raw o)
    unfolding store_decoded
    store_decoded-Keeps contract_id raw (some e) = store_event-Keeps contract_id _ raw.tx_hash e
    store_decoded-Keeps contract_id raw none = λ s p. p

    pub store_events-Keeps :
        (codecs : Codecs) (contract_id : String) (events : List RawEvent) (last_ledger : ℤ)
        → Keeps P (store_events codecs contract_id events last_ledger)
    unfolding store_events
    store_events-Keeps codecs contract_id [] last_ledger = λ s p. p
    store_events-Keeps codecs contract_id (raw ∷ events) last_ledger =
        bind-Keeps _ _ (store_decoded-Keeps contract_id raw (decode codecs raw))
          λ _. store_events-Keeps codecs contract_id events _

    module _ (contract_id : String)
        (cursor : (n : ℤ) (c : Option String) → Kept P (upsert_cursor contract_id n c)) where
      pub sync_page-Keeps :
          (codecs : Codecs) (page : EventsPage) (last_ledger : ℤ)
          → Keeps P (sync_page codecs contract_id page last_ledger)
      unfolding sync_page
      sync_page-Keeps codecs page last_ledger =
          bind-Keeps {A = ℤ} {B = ℤ} (store_events codecs contract_id page.events last_ledger)
            (λ seen.
              query (upsert_cursor contract_id (caught_up page seen) page.cursor)
              >> pure (caught_up page seen))
            (store_events-Keeps codecs contract_id page.events last_ledger)
            λ seen.
              bind-Keeps {B = ℤ}
                (query (upsert_cursor contract_id (caught_up page seen) page.cursor))
                (λ _. pure (caught_up page seen))
                (query-Keeps _ (cursor (caught_up page seen) page.cursor)) λ _ s p. p

      with_page-Keeps :
          (o : Option EventsPage) (k : EventsPage → Exec Indexer SyncError (Unit {0}))
          → ((page : EventsPage) → Keeps P (k page))
          → Keeps P (with_page o k)
      with_page-Keeps none k h = λ s p. p
      with_page-Keeps (some page) k h = h page

      unless_done-Keeps :
          (done : Bool) (m : Exec Indexer SyncError (Unit {0}))
          → Keeps P m
          → Keeps P (unless_done done m)
      unless_done-Keeps true m k = λ s p. p
      unless_done-Keeps false m k = k

      pub sync_pages-Keeps :
          (codecs : Codecs) (replies : Replies) (last_ledger : ℤ) (c : Option String)
          → Keeps P (sync_pages codecs contract_id replies last_ledger c)
      unfolding sync_pages
      sync_pages-Keeps codecs [] last_ledger c = λ s p. p
      sync_pages-Keeps codecs (reply ∷ replies) last_ledger c =
          with_page-Keeps (reply (next_request last_ledger c)) _ λ page.
            bind-Keeps (sync_page codecs contract_id page last_ledger)
              (λ l.
                unless_done (no_events page) (sync_pages codecs contract_id replies l page.cursor))
              (sync_page-Keeps codecs page last_ledger)
              λ l.
                unless_done-Keeps (no_events page) _ (sync_pages-Keeps codecs replies l page.cursor)

      pub sync_contract-Keeps :
          (codecs : Codecs) (replies : Replies) → Keeps P (sync_contract codecs contract_id replies)
      unfolding sync_contract
      sync_contract-Keeps codecs replies =
          bind-Keeps _ _ (fetch-Keeps _)
            λ row. sync_pages-Keeps codecs replies (resume_at row).0 (resume_at row).1

-- ===== src/Ingest/Advance.antt =====
-- The ledger in the cursor of crates/attesta-indexer/src/ingest.rs only moves forward.
use attesta_protocol_backend.Prelude.{
  sym, subst, Bool, true, false, String, Option, none, some, List, [], ◌∷◌, arith,
}
use attesta_protocol_backend.Prelude.Int.{ℤ, ◌≤ℤ◌, max_ℤ, as_i64}
use attesta_protocol_backend.Prelude.Exec.{Result, ok, err, Exec, resume}
use attesta_protocol_backend.Database.{Database, IndexerCursor}
use attesta_protocol_backend.Events.Types.{RawEvent, Codecs}
use attesta_protocol_backend.Events.{decode}
use attesta_protocol_backend.Ingest.Tables.{select_cursor, upsert_cursor}
use attesta_protocol_backend.Ingest.Store.{Indexer, SyncError, query, fetch, answered}
use attesta_protocol_backend.Ingest.{
  EventsPage, Replies, with_page, unless_done, store_decoded, store_events, no_events, caught_up,
  sync_page, sync_pages, sync_contract, next_request, resume_at,
}
use attesta_protocol_backend.Ingest.Cursor.{Saved, sync_page-Saved}

abbrev pub last_ledger_of : String → Database → ℤ
last_ledger_of contract_id db = (resume_at (select_cursor contract_id db.indexer_cursors)).0

-- The ledger that a computation returns, if it returns one.
abbrev AtLeast : ℤ → Result SyncError ℤ → Type 0
AtLeast n (ok l) = n ≤ℤ l
AtLeast n (err e) = Unit

module _ (n : ℤ) where
  max_ℤ-le : (a b : ℤ) → n ≤ℤ a → n ≤ℤ max_ℤ a b
  unfolding max_ℤ
  max_ℤ-le a b h = ground arith

  caught_up-le : (page : EventsPage) (a : ℤ) → n ≤ℤ a → n ≤ℤ caught_up page a
  unfolding caught_up
  caught_up-le page a h = ground (arith, max_ℤ-le a (as_i64 page.latest_ledger) h)

  AtLeast-resume :
      {A : Type 0} (r : Result SyncError A × Indexer) (f : A → Exec Indexer SyncError ℤ)
      → ((a : A) (s : Indexer) → AtLeast n (f a s).0)
      → AtLeast n (resume r f).0
  AtLeast-resume (ok a, s) f h = h a s
  AtLeast-resume (err e, s) f h = tt

  AtLeast-resume_from :
      (r : Result SyncError ℤ × Indexer) (f : ℤ → Exec Indexer SyncError ℤ)
      → AtLeast n r.0
      → ((a : ℤ) (s : Indexer) → n ≤ℤ a → AtLeast n (f a s).0)
      → AtLeast n (resume r f).0
  AtLeast-resume_from (ok a, s) f k h = h a s k
  AtLeast-resume_from (err e, s) f k h = tt

  store_events-AtLeast :
      (codecs : Codecs) (contract_id : String) (events : List RawEvent) (last_ledger : ℤ)
      (s : Indexer)
      → n ≤ℤ last_ledger
      → AtLeast n (store_events codecs contract_id events last_ledger s).0
  unfolding store_events
  store_events-AtLeast codecs contract_id [] last_ledger s h = h
  store_events-AtLeast codecs contract_id (raw ∷ events) last_ledger s h =
      AtLeast-resume (store_decoded contract_id raw (decode codecs raw) s) _ λ _ s'.
        store_events-AtLeast codecs contract_id events _ s'
          (max_ℤ-le last_ledger (as_i64 raw.ledger) h)

  sync_page-AtLeast :
      (codecs : Codecs) (contract_id : String) (page : EventsPage) (last_ledger : ℤ) (s : Indexer)
      → n ≤ℤ last_ledger
      → AtLeast n (sync_page codecs contract_id page last_ledger s).0
  unfolding sync_page
  sync_page-AtLeast codecs contract_id page last_ledger s h =
      AtLeast-resume_from (store_events codecs contract_id page.events last_ledger s) _
        (store_events-AtLeast codecs contract_id page.events last_ledger s h)
        λ seen s' k.
          AtLeast-resume (query (upsert_cursor contract_id (caught_up page seen) page.cursor) s') _
            λ _ _. caught_up-le page seen k

  module _ (contract_id : String) where
    abbrev Reached : Indexer → Type 0
    Reached s = n ≤ℤ last_ledger_of contract_id s.db

    Saved-Reached :
        (page : EventsPage) (before : Option IndexerCursor) (r : Result SyncError ℤ × Indexer)
        → Saved contract_id page before r
        → AtLeast n r.0
        → n ≤ℤ (resume_at before).0
        → Reached r.1
    unfolding resume_at
    Saved-Reached page before (ok l, s) saved h k = subst (λ o. n ≤ℤ (resume_at o).0) (sym saved) h
    Saved-Reached page before (err e, s) saved h k = subst (λ o. n ≤ℤ (resume_at o).0) (sym saved) k

    rest-Reached :
        (done : Bool) (r : Result SyncError ℤ × Indexer) (m : ℤ → Exec Indexer SyncError (Unit {0}))
        → AtLeast n r.0
        → Reached r.1
        → ((l : ℤ) (s : Indexer) → n ≤ℤ l → Reached s → Reached (m l s).1)
        → Reached (resume r (λ l. unless_done done (m l))).1
    rest-Reached true (ok l, s) m h k f = k
    rest-Reached false (ok l, s) m h k f = f l s h k
    rest-Reached done (err e, s) m h k f = k

    with_page-Reached :
        (o : Option EventsPage) (k : EventsPage → Exec Indexer SyncError (Unit {0})) (s : Indexer)
        → Reached s
        → ((page : EventsPage) → Reached (k page s).1)
        → Reached (with_page o k s).1
    with_page-Reached none k s h f = h
    with_page-Reached (some page) k s h f = f page

    sync_pages-Reached :
        (codecs : Codecs) (replies : Replies) (last_ledger : ℤ) (c : Option String) (s : Indexer)
        → n ≤ℤ last_ledger
        → Reached s
        → Reached (sync_pages codecs contract_id replies last_ledger c s).1
    unfolding sync_pages
    sync_pages-Reached codecs [] last_ledger c s h k = k
    sync_pages-Reached codecs (reply ∷ replies) last_ledger c s h k =
        with_page-Reached (reply (next_request last_ledger c)) _ s k λ page.
          let at_least = sync_page-AtLeast codecs contract_id page last_ledger s h in
          rest-Reached (no_events page) (sync_page codecs contract_id page last_ledger s) _ at_least
            (Saved-Reached page _ _ (sync_page-Saved codecs contract_id page last_ledger s) at_least
              k)
            λ l s' g r. sync_pages-Reached codecs replies l page.cursor s' g r

≤ℤ_refl : (a : ℤ) → a ≤ℤ a
≤ℤ_refl a = omega arith

module _ {A : Type 0} (P : Database → Type 0) (select : Database → A) where
  fetched :
      (f : A → Exec Indexer SyncError (Unit {0})) (answers : List Bool) (s : Indexer)
      → P s.db
      → ((s' : Indexer) → P s'.db → P (f (select s.db) s').1.db)
      → P (resume (answered answers (λ s. (ok (select s.db), s)) s) f).1.db
  unfolding answered
  fetched f [] s p h = h s p
  fetched f (true ∷ answers) s p h = h (record s { answers = answers }) p
  fetched f (false ∷ answers) s p h = p

-- The ledger that the cursor of a contract holds never goes back in a sync of that contract, whatever
-- the node replies and whichever queries fail.
pub sync_contract-last_ledger :
    (codecs : Codecs) (contract_id : String) (replies : Replies) (s : Indexer)
    → last_ledger_of contract_id s.db
      ≤ℤ last_ledger_of contract_id (sync_contract codecs contract_id replies s).1.db
unfolding sync_contract fetch
sync_contract-last_ledger codecs contract_id replies s =
    let before = last_ledger_of contract_id s.db in
    fetched (λ db. before ≤ℤ last_ledger_of contract_id db)
      (λ db. select_cursor contract_id db.indexer_cursors)
      (λ row. sync_pages codecs contract_id replies (resume_at row).0 (resume_at row).1) s.answers s
      (≤ℤ_refl before)
      λ s' p. sync_pages-Reached before contract_id codecs replies _ _ s' (≤ℤ_refl before) p

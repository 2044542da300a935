-- ===== src/Ingest.antt =====
-- crates/attesta-indexer/src/ingest.rs and the paging of rpc.rs: events are fetched page by page,
-- decoded and stored, and the cursor is saved after each page. The queries are the SQL statements of
-- the source over the tables of `Database`. What the database answers to each query in turn
-- (`answers`, all well once the list is at its end) and what the node answers to each request are
-- given. Metrics and log lines are left out.
pub mod Tables
pub mod Store
pub mod Keeps
pub mod Passes
pub mod Cursor
pub mod Advance
pub mod Totals
pub mod Flows
pub mod Replay
pub mod Grown
pub mod Succeeds
pub mod Stored
mod Tests
use attesta_protocol_backend.Prelude.{
  ℕ, ◌+◌, ◌-◌, ◌%◌, ◌^◌, max, Bool, true, false, String, Option, none, some, List, [], ◌∷◌, ◌++◌,
  ltb, if◌then◌else◌,
}
use attesta_protocol_backend.Prelude.Int.{ℤ, pos, as_i64, as_u64, max_ℤ}
use attesta_protocol_backend.Prelude.Exec.{Result, ok, err, Exec, pure, fail, resume, ◌>>=◌, ◌>>◌}
use attesta_protocol_backend.Database.{Database, IndexerCursor}
use attesta_protocol_backend.Events.Types.{RawEvent, PoolEvent, Codecs}
use attesta_protocol_backend.Events.{decode}
use Tables.{select_cursor, upsert_cursor}
use Store.{Indexer, SyncError, db_error, rpc_error, query, fetch, store_event}

pub record EventsPage : Type 0 where
  pub events : List RawEvent
  pub cursor : Option String
  pub latest_ledger : ℕ

-- The part of the parameters of `getEvents` that says where to resume.
pub data Paging : Type 0 where
  from_cursor : String → Paging
  from_ledger : ℕ → Paging

unfoldable pub get_events_params : ℕ → Option String → Paging
get_events_params start_ledger none = from_ledger (max start_ledger 1)
get_events_params start_ledger (some c) = from_cursor c

-- The request that the loop makes: `last_ledger as u64 + 1` in a release build.
unfoldable pub next_request : ℤ → Option String → Paging
unfolding as_u64 get_events_params
next_request last_ledger cursor = get_events_params ((as_u64 last_ledger + 1) % 2 ^ 64) cursor

-- `if let Some(event) = decode(raw)`
unfoldable pub store_decoded :
    String → RawEvent → Option PoolEvent → Exec Indexer SyncError (Unit {0})
unfolding as_i64
store_decoded contract_id raw (some event) =
    store_event contract_id (as_i64 raw.ledger) raw.tx_hash event
store_decoded contract_id raw none = pure tt

-- `for raw in &page.events`, with the `last_ledger` that it leaves.
unfoldable pub store_events : Codecs → String → List RawEvent → ℤ → Exec Indexer SyncError ℤ
unfolding store_decoded max_ℤ
store_events codecs contract_id [] last_ledger = pure last_ledger
store_events codecs contract_id (raw ∷ events) last_ledger = do
  store_decoded contract_id raw (decode codecs raw)
  store_events codecs contract_id events (max_ℤ last_ledger (as_i64 raw.ledger))

unfoldable pub no_events : EventsPage → Bool
no_events page = elim page.events [ [] ↦ true | e ∷ es ↦ false ]

-- The `last_ledger` that is saved: an empty page catches up with the head of the chain.
unfoldable pub caught_up : EventsPage → ℤ → ℤ
unfolding no_events
caught_up page last_ledger =
    if no_events page then max_ℤ last_ledger (as_i64 page.latest_ledger) else last_ledger

-- A node: what it replies to each request in turn, `none` for an error. One that has no reply left
-- fails.
abbrev pub Replies : Type 0
Replies = List (Paging → Option EventsPage)

-- What is done with a page, with the `last_ledger` that is saved.
unfoldable pub sync_page : Codecs → String → EventsPage → ℤ → Exec Indexer SyncError ℤ
unfolding store_events caught_up
sync_page codecs contract_id page last_ledger = do
  seen ← store_events codecs contract_id page.events last_ledger
  query (upsert_cursor contract_id (caught_up page seen) page.cursor)
  pure (caught_up page seen)

-- The `?` on `get_events`.
abbrev pub with_page :
    Option EventsPage
    → (EventsPage → Exec Indexer SyncError (Unit {0}))
    → Exec Indexer SyncError (Unit {0})
with_page none k = fail rpc_error
with_page (some page) k = k page

abbrev pub unless_done :
    Bool → Exec Indexer SyncError (Unit {0}) → Exec Indexer SyncError (Unit {0})
unless_done true m = pure tt
unless_done false m = m

-- The loop of `sync_contract`.
unfoldable pub sync_pages :
    Codecs → String → Replies → ℤ → Option String → Exec Indexer SyncError (Unit {0})
unfolding next_request sync_page no_events
sync_pages codecs contract_id [] last_ledger cursor = fail rpc_error
sync_pages codecs contract_id (reply ∷ replies) last_ledger cursor =
    with_page (reply (next_request last_ledger cursor)) λ page.
      sync_page codecs contract_id page last_ledger >>= λ last_ledger'.
      unless_done (no_events page) (sync_pages codecs contract_id replies last_ledger' page.cursor)

-- `.unwrap_or((0, None))`
unfoldable pub resume_at : Option IndexerCursor → ℤ × Option String
resume_at (some row) = (row.last_ledger, row.last_cursor)
resume_at none = (pos 0, none)

unfoldable pub sync_contract : Codecs → String → Replies → Exec Indexer SyncError (Unit {0})
unfolding resume_at
sync_contract codecs contract_id replies = do
  row ← fetch (λ db. select_cursor contract_id db.indexer_cursors)
  sync_pages codecs contract_id replies (resume_at row).0 (resume_at row).1

-- ===== src/Ingest/Tests.antt =====
-- Runs of crates/attesta-indexer/src/ingest.rs.
use attesta_protocol_backend.Prelude.{arith, ◌≡◌, ◌≢◌, true, false, String, some, none, [], ◌∷◌}
use attesta_protocol_backend.Prelude.Int.{pos, ◌≤ℤ◌}
use attesta_protocol_backend.Prelude.Keys.{String_eq}
use attesta_protocol_backend.Prelude.Exec.{ok, ◌>>=◌}
use attesta_protocol_backend.Database.{empty_database}
use attesta_protocol_backend.Events.Samples.{
  sample_codecs, spent, raw_deposit, raw_spent, raw_payout,
}
use attesta_protocol_backend.Ingest.Tables.{select_cursor}
use attesta_protocol_backend.Ingest.Store.{Indexer, store_event}
use attesta_protocol_backend.Ingest.{EventsPage, Replies, store_events, sync_page, sync_contract}
use attesta_protocol_backend.Ingest.Cursor.{Saved, sync_page-Saved, sync_contract-other_cursor}
use attesta_protocol_backend.Ingest.Advance.{last_ledger_of, sync_contract-last_ledger}
use attesta_protocol_backend.Ingest.Grown.{Grown}
use attesta_protocol_backend.Ingest.Succeeds.{Succeeds}
use attesta_protocol_backend.Ingest.Stored.{AllStored, sync_page-Stored}
use attesta_protocol_backend.Ingest.Totals.{plus, page_flow}
use attesta_protocol_backend.Ingest.Flows.{Flows, store_events-Flows}
use attesta_protocol_backend.Ingest.Replay.{up, store_event-replayed, store_events-counted_twice}

abbrev events_page : EventsPage
events_page = record {
  events = raw_deposit ∷ raw_spent ∷ raw_payout ∷ [];
  cursor = some "c1";
  latest_ledger = 9;
}

abbrev empty_page : EventsPage
empty_page = record { events = []; cursor = none; latest_ledger = 9 }

abbrev node : Replies
node = (λ _. some events_page) ∷ (λ _. some empty_page) ∷ []

-- The third query fails: the totals of the deposit.
abbrev third_fails : Indexer
third_fails = record { db = empty_database; answers = true ∷ true ∷ false ∷ [] }

sync_contract-last_ledger_example :
    last_ledger_of "POOL" empty_database
    ≤ℤ last_ledger_of "POOL" (sync_contract sample_codecs "POOL" node (up empty_database)).1.db
sync_contract-last_ledger_example =
    sync_contract-last_ledger sample_codecs "POOL" node (up empty_database)

sync_page-Saved_example :
    Saved "POOL" events_page none (sync_page sample_codecs "POOL" events_page (pos 0) third_fails)
unfolding select_cursor
sync_page-Saved_example = sync_page-Saved sample_codecs "POOL" events_page (pos 0) third_fails

contracts_differ : ◌≢◌ {A = String} "POOL" "REGISTRY"
contracts_differ e =
    let t : false ≡ true = (String_eq.beq_iff "POOL" "REGISTRY").1 e in ground arith

sync_contract-other_cursor_example :
    select_cursor "REGISTRY"
      (sync_contract sample_codecs "POOL" node (up empty_database)).1.db.indexer_cursors
    ≡ select_cursor "REGISTRY" empty_database.indexer_cursors
sync_contract-other_cursor_example =
    sync_contract-other_cursor sample_codecs "POOL" "REGISTRY" node (up empty_database)
      contracts_differ

store_events-Flows_example :
    Flows "POOL"
      (page_flow sample_codecs events_page.events)
      (store_events sample_codecs "POOL" events_page.events (pos 0) (up empty_database))
      empty_database
store_events-Flows_example =
    store_events-Flows sample_codecs "POOL" events_page.events (pos 0) (up empty_database)

store_event-replayed_example :
    store_event "POOL"
      (pos 7)
      "tx"
      spent
      (store_event "POOL" (pos 7) "tx" spent (up empty_database)).1
    ≡ (ok tt, (store_event "POOL" (pos 7) "tx" spent (up empty_database)).1)
store_event-replayed_example = store_event-replayed "POOL" (pos 7) "tx" spent empty_database tt

store_events-counted_twice_example :
    Flows "POOL"
      (plus
        (page_flow sample_codecs events_page.events)
        (page_flow sample_codecs events_page.events))
      ((store_events sample_codecs "POOL" events_page.events (pos 0)
          >>= store_events sample_codecs "POOL" events_page.events)
        (up empty_database))
      empty_database
store_events-counted_twice_example =
    store_events-counted_twice sample_codecs "POOL" events_page.events (pos 0) (up empty_database)

sync_page-Stored_example :
    Grown
      (up empty_database).db
      (sync_page sample_codecs "POOL" events_page (pos 0) (up empty_database)).1.db
    × Succeeds
        (AllStored sample_codecs "POOL" events_page.events)
        (sync_page sample_codecs "POOL" events_page (pos 0) (up empty_database))
sync_page-Stored_example =
    sync_page-Stored sample_codecs "POOL" events_page (pos 0) (up empty_database)

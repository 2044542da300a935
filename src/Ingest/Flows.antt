-- ===== src/Ingest/Flows.antt =====
-- The totals through `store_event` and the loop over a page of crates/attesta-indexer/src/ingest.rs.
use attesta_protocol_backend.Prelude.{
  ◌≡◌, refl, sym, ap, subst, ◌∙◌, Bool, true, false, String, Option, none, some, List, [], ◌∷◌,
  if◌then◌else◌,
}
use attesta_protocol_backend.Prelude.Int.{ℤ, pos}
use attesta_protocol_backend.Prelude.Keys.{String_eq}
use attesta_protocol_backend.Prelude.Options.{Yields, option_map}
use attesta_protocol_backend.Prelude.Exec.{Result, ok, err, Exec, resume}
use attesta_protocol_backend.Database.{Database, PoolTotal}
use attesta_protocol_backend.Events.Types.{
  RawEvent, PoolEvent, new_commitment, nullifier_spent, encrypted_note, withdrawal, issuer_updated,
  Codecs,
}
use attesta_protocol_backend.Events.{decode}
use attesta_protocol_backend.Ingest.Tables.{
  insert_commitment, insert_nullifier, insert_note, upsert_issuer, add_total_row, add_total,
}
use attesta_protocol_backend.Ingest.Store.{
  Indexer, SyncError, query, applied, answered, add_pool_total, add_deposit, store_event,
}
use attesta_protocol_backend.Ingest.{store_decoded, store_events}
use attesta_protocol_backend.Prelude.Bytes.{Bytes}
use attesta_protocol_backend.Ingest.Totals.{
  Flow, no_flow, plus, totals_of, flow_of, decoded_flow, page_flow, no_plus, plus_no, plus_assoc,
  add_total_row-Grown,
}

-- What a computation does to the totals of a pool, if it succeeds.
abbrev pub Flows : {A : Type 0} → String → Flow → Result SyncError A × Indexer → Database → Type 0
Flows pool f (ok a, s) db = totals_of pool s.db.pool_totals ≡ plus (totals_of pool db.pool_totals) f
Flows pool f (err e, s) db = Unit

module _ (pool : String) where
  applied-Flows :
      (f : Flow) (s : Indexer) (o : Option Database) (db : Database)
      → Yields (λ d. totals_of pool d.pool_totals ≡ plus (totals_of pool db.pool_totals) f) o
      → Flows pool f (applied o s) db
  unfolding applied
  applied-Flows f s none db h = tt
  applied-Flows f s (some d) db h = h

  answered-Flows :
      (f : Flow) (statement : Database → Option Database) (answers : List Bool) (s : Indexer)
      → Yields
          (λ d. totals_of pool d.pool_totals ≡ plus (totals_of pool s.db.pool_totals) f)
          (statement s.db)
      → Flows pool f (answered answers (λ s. applied (statement s.db) s) s) s.db
  unfolding answered
  answered-Flows f statement [] s h = applied-Flows f s (statement s.db) s.db h
  answered-Flows f statement (true ∷ answers) s h =
      applied-Flows f (record s { answers = answers }) (statement s.db) s.db h
  answered-Flows f statement (false ∷ answers) s h = tt

  query-Flows :
      (f : Flow) (statement : Database → Option Database) (s : Indexer)
      → Yields
          (λ d. totals_of pool d.pool_totals ≡ plus (totals_of pool s.db.pool_totals) f)
          (statement s.db)
      → Flows pool f (query statement s) s.db
  unfolding query
  query-Flows f statement s h = answered-Flows f statement s.answers s h

  joined :
      {B : Type 0} (f g : Flow) (before between : Database) (r : Result SyncError B × Indexer)
      → totals_of pool between.pool_totals ≡ plus (totals_of pool before.pool_totals) f
      → Flows pool g r between
      → Flows pool (plus f g) r before
  joined f g before between (err e, s) h q = tt
  joined f g before between (ok b, s) h q =
      q ∙ ap (λ t. plus t g) h ∙ plus_assoc (totals_of pool before.pool_totals) f g

  pub resume-Flows :
      {A B : Type 0} (f g : Flow) (r : Result SyncError A × Indexer)
      (m : A → Exec Indexer SyncError B) (db : Database)
      → Flows pool f r db
      → ((a : A) (s : Indexer) → Flows pool g (m a s) s.db)
      → Flows pool (plus f g) (resume r m) db
  resume-Flows f g (err e, s) m db h k = tt
  resume-Flows f g (ok a, s) m db h k = joined f g db s.db (m a s) h (k a s)

  same_totals :
      (db : Database) (b : Bool) (x y : Database)
      → x.pool_totals ≡ db.pool_totals
      → y.pool_totals ≡ db.pool_totals
      → Yields
          (λ d. totals_of pool d.pool_totals ≡ plus (totals_of pool db.pool_totals) no_flow)
          (if b then some x else some y)
  same_totals db true x y p q = rw p (sym (plus_no _))
  same_totals db false x y p q = rw q (sym (plus_no _))

totals_set :
    (r : PoolTotal) (db : Database) (o : Option (List PoolTotal))
    → Yields
        (λ rows.
          totals_of r.pool rows ≡ plus (totals_of r.pool db.pool_totals) (r.total_in, r.total_out))
        o
    → Yields
        (λ d.
          totals_of r.pool d.pool_totals
          ≡ plus (totals_of r.pool db.pool_totals) (r.total_in, r.total_out))
        (option_map (λ rows. record db { pool_totals = rows }) o)
totals_set r db none h = tt
totals_set r db (some rows) h = h

add_pool_total-Flows :
    (pool asset : String) (inflow outflow : ℤ) (s : Indexer)
    → Flows pool (inflow, outflow) (add_pool_total pool asset inflow outflow s) s.db
unfolding add_pool_total add_total
add_pool_total-Flows pool asset inflow outflow s =
    let r : PoolTotal = record {
      pool = pool;
      asset = asset;
      total_in = inflow;
      total_out = outflow;
    } in
    query-Flows pool (inflow, outflow) (add_total r) s
      (totals_set r s.db (add_total_row r s.db.pool_totals)
        (add_total_row-Grown r s.db.pool_totals))

still-Flows : {A : Type 0} (pool : String) (a : A) (s : Indexer) → Flows pool no_flow (ok a, s) s.db
still-Flows pool a s = sym (plus_no (totals_of pool s.db.pool_totals))

add_deposit-Flows :
    (pool : String) (c : Bytes) (i : ℤ) (amount : Option ℤ) (asset : Option String) (s : Indexer)
    → Flows pool (flow_of (new_commitment c i amount asset)) (add_deposit pool amount asset s) s.db
unfolding add_deposit
add_deposit-Flows pool c i (some amount) (some asset) s =
    add_pool_total-Flows pool asset amount (pos 0) s
add_deposit-Flows pool c i (some amount) none s = still-Flows pool tt s
add_deposit-Flows pool c i none asset s = still-Flows pool tt s

store_event-Flows :
    (pool : String) (ledger : ℤ) (tx_hash : String) (e : PoolEvent) (s : Indexer)
    → Flows pool (flow_of e) (store_event pool ledger tx_hash e s) s.db
unfolding store_event insert_commitment insert_nullifier insert_note upsert_issuer
store_event-Flows pool ledger tx_hash (new_commitment c i amount asset) s =
    subst
      (λ f. Flows pool f (store_event pool ledger tx_hash (new_commitment c i amount asset) s) s.db)
      (no_plus (flow_of (new_commitment c i amount asset)))
      (resume-Flows pool no_flow (flow_of (new_commitment c i amount asset)) _ _ s.db
        (query-Flows pool no_flow (insert_commitment _) s (same_totals pool s.db _ _ _ refl refl))
        λ _ s'. add_deposit-Flows pool c i amount asset s')
store_event-Flows pool ledger tx_hash (nullifier_spent n) s =
    query-Flows pool no_flow (insert_nullifier _) s (same_totals pool s.db _ _ _ refl refl)
store_event-Flows pool ledger tx_hash (encrypted_note c k t) s =
    query-Flows pool no_flow (insert_note pool c k t ledger tx_hash) s (sym (plus_no _))
store_event-Flows pool ledger tx_hash (withdrawal amount asset) s =
    add_pool_total-Flows pool asset (pos 0) amount s
store_event-Flows pool ledger tx_hash (issuer_updated i n k c t) s =
    query-Flows pool no_flow (upsert_issuer _) s (sym (plus_no _))

store_decoded-Flows :
    (pool : String) (raw : RawEvent) (o : Option PoolEvent) (s : Indexer)
    → Flows pool (decoded_flow o) (store_decoded pool raw o s) s.db
unfolding store_decoded
store_decoded-Flows pool raw (some e) s = store_event-Flows pool _ raw.tx_hash e s
store_decoded-Flows pool raw none s = still-Flows pool tt s

-- Storing the events of a page adds to the totals of the pool exactly the sums of the deposits that
-- name an asset and of the withdrawals among the decoded events, unless a query fails.
pub store_events-Flows :
    (codecs : Codecs) (pool : String) (events : List RawEvent) (last_ledger : ℤ) (s : Indexer)
    → Flows pool (page_flow codecs events) (store_events codecs pool events last_ledger s) s.db
unfolding store_events page_flow
store_events-Flows codecs pool [] last_ledger s = still-Flows pool last_ledger s
store_events-Flows codecs pool (raw ∷ events) last_ledger s =
    resume-Flows pool (decoded_flow (decode codecs raw)) (page_flow codecs events)
      (store_decoded pool raw (decode codecs raw) s) _ s.db
      (store_decoded-Flows pool raw (decode codecs raw) s)
      λ _ s'. store_events-Flows codecs pool events _ s'

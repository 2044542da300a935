-- ===== src/Ingest/Stored.antt =====
-- What a page of crates/attesta-indexer/src/ingest.rs leaves in the tables: a row for every event, and
-- every row that was there.
use attesta_protocol_backend.Prelude.{
  ◌≡◌, refl, ◌⊎◌, inl, inr, true, Bool-cases, String, Option, none, some, List, [], ◌∷◌, arith, All,
}
use attesta_protocol_backend.Prelude.Bytes.{Bytes}
use attesta_protocol_backend.Prelude.Int.{ℤ, as_i64, max_ℤ}
use attesta_protocol_backend.Prelude.Keys.{String_eq, ℤ_eq, Bytes_eq}
use attesta_protocol_backend.Prelude.Options.{Yields}
use attesta_protocol_backend.Prelude.Exec.{pure, ◌>>◌}
use attesta_protocol_backend.Database.{Database, CommitmentRow, NullifierRow}
use attesta_protocol_backend.Events.Types.{
  RawEvent, PoolEvent, new_commitment, nullifier_spent, encrypted_note, withdrawal, issuer_updated,
  Codecs,
}
use attesta_protocol_backend.Events.{decode}
use attesta_protocol_backend.Ingest.Tables.{
  conflicts_commitment, insert_commitment, conflicts_nullifier, insert_nullifier, insert_note,
  upsert_issuer, upsert_cursor,
}
use attesta_protocol_backend.Ingest.Store.{Indexer, query, add_deposit, store_event}
use attesta_protocol_backend.Ingest.{EventsPage, store_decoded, store_events, caught_up, sync_page}
use attesta_protocol_backend.Ingest.Keeps.{
  query-Keeps, add_deposit-Keeps, store_events-Keeps, sync_page-Keeps,
}
use attesta_protocol_backend.Ingest.Succeeds.{
  Succeeds, query-Succeeds, resume-Succeeds, Succeeds-both, Succeeds-any,
}
use attesta_protocol_backend.Ingest.Grown.{
  Any, Any-snoc, Any-Extends, HasIssuer, Grown, Grown-refl, upsert_issuer_row-HasIssuer,
  upsert_cursor-Grown, Grown-rows,
}

-- The row of an event in the tables. A commitment may find its leaf index or its value taken by a row of
-- the same pool. A withdrawal has no row but the totals.
abbrev pub Stored : String → Database → PoolEvent → Type 0
Stored pool db (new_commitment c i amount asset) =
    Any (λ x. (x.pool ≡ pool) × ((x.leaf_index ≡ i) ⊎ (x.commitment ≡ c))) db.commitments
Stored pool db (nullifier_spent n) = Any (λ x. (x.pool ≡ pool) × (x.nullifier ≡ n)) db.nullifiers
Stored pool db (encrypted_note c k t) =
    Any (λ x. (x.pool ≡ pool) × (x.commitment ≡ c) × (x.ephemeral_pubkey ≡ k) × (x.ciphertext ≡ t))
      db.encrypted_notes
Stored pool db (withdrawal amount asset) = Unit
Stored pool db (issuer_updated i n k c t) = HasIssuer i db.issuers

Stored-Grown :
    (pool : String) (e : PoolEvent) {db db' : Database}
    → Grown db db'
    → Stored pool db e
    → Stored pool db' e
Stored-Grown pool (new_commitment c i amount asset) g a = Any-Extends _ _ _ g.commitments a
Stored-Grown pool (nullifier_spent n) g a = Any-Extends _ _ _ g.nullifiers a
Stored-Grown pool (encrypted_note c k t) g a = Any-Extends _ _ _ g.encrypted_notes a
Stored-Grown pool (withdrawal amount asset) g a = tt
Stored-Grown pool (issuer_updated i n k c t) g a = g.issuers i a

conflicts_commitment-Any :
    (r : CommitmentRow) (rows : List CommitmentRow)
    → conflicts_commitment r rows ≡ true
    → Any
        (λ x. (x.pool ≡ r.pool) × ((x.leaf_index ≡ r.leaf_index) ⊎ (x.commitment ≡ r.commitment)))
        rows
unfolding conflicts_commitment
conflicts_commitment-Any r [] h = absurd (cc)
conflicts_commitment-Any r (x ∷ rows) h = ground (
  arith,
  (String_eq.beq_iff x.pool r.pool).0,
  (ℤ_eq.beq_iff x.leaf_index r.leaf_index).0,
  (Bytes_eq.beq_iff x.commitment r.commitment).0,
  conflicts_commitment-Any r rows,
)

conflicts_nullifier-Any :
    (r : NullifierRow) (rows : List NullifierRow)
    → conflicts_nullifier r rows ≡ true
    → Any (λ x. (x.pool ≡ r.pool) × (x.nullifier ≡ r.nullifier)) rows
unfolding conflicts_nullifier
conflicts_nullifier-Any r [] h = absurd (cc)
conflicts_nullifier-Any r (x ∷ rows) h = ground (
  arith,
  (String_eq.beq_iff x.pool r.pool).0,
  (Bytes_eq.beq_iff x.nullifier r.nullifier).0,
  conflicts_nullifier-Any r rows,
)

insert_commitment-Stored :
    (r : CommitmentRow) (amount : Option ℤ) (asset : Option String) (db : Database)
    → Yields
        (λ db. Stored r.pool db (new_commitment r.commitment r.leaf_index amount asset))
        (insert_commitment r db)
unfolding insert_commitment
insert_commitment-Stored r amount asset db =
    elim (Bool-cases (conflicts_commitment r db.commitments)) [
      | inl e ↦ rw e (conflicts_commitment-Any r db.commitments e)
      | inr e ↦ rw e (Any-snoc _ db.commitments r (refl, inl refl))
    ]

insert_nullifier-Stored :
    (r : NullifierRow) (db : Database)
    → Yields (λ db. Stored r.pool db (nullifier_spent r.nullifier)) (insert_nullifier r db)
unfolding insert_nullifier
insert_nullifier-Stored r db = elim (Bool-cases (conflicts_nullifier r db.nullifiers)) [
  | inl e ↦ rw e (conflicts_nullifier-Any r db.nullifiers e)
  | inr e ↦ rw e (Any-snoc _ db.nullifiers r (refl, refl))
]

-- A deposit that is stored leaves its commitment where it is.
add_deposit-Stored :
    (pool : String) (c : Bytes) (i : ℤ) (amount : Option ℤ) (asset : Option String) (s : Indexer)
    → Stored pool s.db (new_commitment c i amount asset)
    → Succeeds
        (λ db. Stored pool db (new_commitment c i amount asset))
        (add_deposit pool amount asset s)
add_deposit-Stored pool c i amount asset s a =
    let Q = λ (db : Database). Stored pool db (new_commitment c i amount asset) in
    Succeeds-any Q (add_deposit pool amount asset s) (
      Stored-Grown pool (new_commitment c i amount asset)
        (add_deposit-Keeps (Grown s.db) (Grown-rows s.db) pool amount asset s (Grown-refl s.db)) a)

store_event-Stored :
    (pool : String) (ledger : ℤ) (tx_hash : String) (e : PoolEvent) (s : Indexer)
    → Succeeds (λ db. Stored pool db e) (store_event pool ledger tx_hash e s)
unfolding store_event insert_note upsert_issuer
store_event-Stored pool ledger tx_hash (new_commitment c i amount asset) s =
    let Q = λ (db : Database). Stored pool db (new_commitment c i amount asset) in
    resume-Succeeds Q Q _ (λ _. add_deposit pool amount asset)
      (query-Succeeds Q _ s (insert_commitment-Stored _ amount asset))
      λ _ s a. add_deposit-Stored pool c i amount asset s a
store_event-Stored pool ledger tx_hash (nullifier_spent n) s =
    query-Succeeds (λ db. Stored pool db (nullifier_spent n)) _ s (insert_nullifier-Stored _)
store_event-Stored pool ledger tx_hash (encrypted_note c k t) s =
    query-Succeeds (λ db. Stored pool db (encrypted_note c k t)) _ s
      λ db. Any-snoc _ db.encrypted_notes _ (refl, refl, refl, refl)
store_event-Stored pool ledger tx_hash (withdrawal amount asset) s =
    Succeeds-any (λ db. Unit) (store_event pool ledger tx_hash (withdrawal amount asset) s) tt
store_event-Stored pool ledger tx_hash (issuer_updated i n k c t) s =
    query-Succeeds (λ db. Stored pool db (issuer_updated i n k c t)) _ s
      λ db. upsert_issuer_row-HasIssuer _ db.issuers

-- The event of a raw event, if it is decoded to one, is stored.
abbrev pub DecodedStored : String → Database → Option PoolEvent → Type 0
DecodedStored pool db none = Unit
DecodedStored pool db (some e) = Stored pool db e

DecodedStored-Grown :
    (pool : String) (o : Option PoolEvent) {db db' : Database}
    → Grown db db'
    → DecodedStored pool db o
    → DecodedStored pool db' o
DecodedStored-Grown pool none g a = tt
DecodedStored-Grown pool (some e) g a = Stored-Grown pool e g a

store_decoded-Stored :
    (pool : String) (raw : RawEvent) (o : Option PoolEvent) (s : Indexer)
    → Succeeds (λ db. DecodedStored pool db o) (store_decoded pool raw o s)
unfolding store_decoded
store_decoded-Stored pool raw none s = tt
store_decoded-Stored pool raw (some e) s =
    store_event-Stored pool (as_i64 raw.ledger) raw.tx_hash e s

-- Every event of a list is stored.
abbrev pub AllStored : Codecs → String → List RawEvent → Database → Type 0
AllStored codecs pool events db = All (λ raw. DecodedStored pool db (decode codecs raw)) events

AllStored-Grown :
    (codecs : Codecs) (pool : String) (events : List RawEvent) {db db' : Database}
    → Grown db db'
    → AllStored codecs pool events db
    → AllStored codecs pool events db'
AllStored-Grown codecs pool [] g a = tt
AllStored-Grown codecs pool (raw ∷ events) g a =
    (DecodedStored-Grown pool (decode codecs raw) g a.0, AllStored-Grown codecs pool events g a.1)

store_events-Stored :
    (codecs : Codecs) (pool : String) (events : List RawEvent) (last_ledger : ℤ) (s : Indexer)
    → Succeeds (AllStored codecs pool events) (store_events codecs pool events last_ledger s)
unfolding store_events
store_events-Stored codecs pool [] last_ledger s = tt
store_events-Stored codecs pool (raw ∷ events) last_ledger s =
    let Q = λ (db : Database). DecodedStored pool db (decode codecs raw) in
    let next = max_ℤ last_ledger (as_i64 raw.ledger) in
    resume-Succeeds Q (AllStored codecs pool (raw ∷ events)) _
      (λ _. store_events codecs pool events next)
      (store_decoded-Stored pool raw (decode codecs raw) s)
      λ _ s a.
        Succeeds-both Q (AllStored codecs pool events) (store_events codecs pool events next s)
          (DecodedStored-Grown pool (decode codecs raw)
            (store_events-Keeps (Grown s.db) (Grown-rows s.db) codecs pool events next s
              (Grown-refl s.db))
            a)
          (store_events-Stored codecs pool events next s)

-- Whatever queries fail, a page loses no commitment, nullifier and encrypted note that was there, and no
-- issuer. Where none fails, so that the cursor of the page is saved, every event of the page that can be
-- decoded is in the tables of its contract: a commitment under its leaf index or its value, a nullifier and
-- a note under their values, an issuer under its id; a withdrawal has no row of its own.
pub sync_page-Stored :
    (codecs : Codecs) (contract_id : String) (page : EventsPage) (last_ledger : ℤ) (s : Indexer)
    → Grown s.db (sync_page codecs contract_id page last_ledger s).1.db
      × Succeeds
          (AllStored codecs contract_id page.events)
          (sync_page codecs contract_id page last_ledger s)
unfolding sync_page
sync_page-Stored codecs contract_id page last_ledger s =
    let R = AllStored codecs contract_id page.events in
    (
      sync_page-Keeps (Grown s.db) (Grown-rows s.db) contract_id
          (upsert_cursor-Grown s.db contract_id) codecs page last_ledger s (Grown-refl s.db),
      resume-Succeeds R R _
          (λ seen.
            query (upsert_cursor contract_id (caught_up page seen) page.cursor)
            >> pure (caught_up page seen))
          (store_events-Stored codecs contract_id page.events last_ledger s)
          λ seen s a.
            resume-Succeeds R R _ (λ _. pure (caught_up page seen))
              (Succeeds-any R
                (query (upsert_cursor contract_id (caught_up page seen) page.cursor) s)
                (AllStored-Grown codecs contract_id page.events
                  (query-Keeps (Grown s.db) _
                    (upsert_cursor-Grown s.db contract_id (caught_up page seen) page.cursor) s
                    (Grown-refl s.db))
                  a))
              λ _ s a. a,
    )

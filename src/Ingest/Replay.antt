-- ===== src/Ingest/Replay.antt =====
-- Events that crates/attesta-indexer/src/ingest.rs stores a second time, as it does when a page is
-- fetched again after a failure.
use attesta_protocol_backend.Prelude.{
  ◌≡◌, refl, Bool, true, false, String, none, some, List, [], ◌∷◌, ◌++◌, arith,
}
use attesta_protocol_backend.Prelude.Int.{ℤ}
use attesta_protocol_backend.Prelude.Keys.{String_eq, ℤ_eq, Bytes_eq}
use attesta_protocol_backend.Prelude.Exec.{Result, ok, err, pure, resume, ◌>>=◌}
use attesta_protocol_backend.Database.{Database, CommitmentRow, NullifierRow}
use attesta_protocol_backend.Events.Types.{
  RawEvent, PoolEvent, new_commitment, nullifier_spent, encrypted_note, withdrawal, issuer_updated,
  Codecs,
}
use attesta_protocol_backend.Ingest.Tables.{
  conflicts_commitment, insert_commitment, conflicts_nullifier, insert_nullifier,
}
use attesta_protocol_backend.Ingest.Store.{
  Indexer, query, applied, answered, add_deposit, store_event,
}
use attesta_protocol_backend.Ingest.{store_events}
use attesta_protocol_backend.Ingest.Totals.{plus, page_flow}
use attesta_protocol_backend.Ingest.Flows.{Flows, store_events-Flows, resume-Flows}

-- The events whose rows are inserted with ON CONFLICT DO NOTHING, and nothing else with them: deposits,
-- withdrawals and notes do more, and the upsert of an issuer sets its updated_at again.
abbrev pub IsReplayable : PoolEvent → Type 0
IsReplayable (new_commitment c i none asset) = Unit
IsReplayable (new_commitment c i (some amount) asset) = asset ≡ none
IsReplayable (nullifier_spent n) = Unit
IsReplayable (encrypted_note c k t) = ⊥
IsReplayable (withdrawal amount asset) = ⊥
IsReplayable (issuer_updated i n k c t) = ⊥

conflicts_commitment-snoc :
    (r : CommitmentRow) (rows : List CommitmentRow) → conflicts_commitment r (rows ++ r ∷ []) ≡ true
unfolding conflicts_commitment
conflicts_commitment-snoc r [] =
    rw ((String_eq.beq_iff r.pool r.pool).1 refl, (ℤ_eq.beq_iff r.leaf_index r.leaf_index).1 refl)
      refl
conflicts_commitment-snoc r (x ∷ rows) = ground (arith, conflicts_commitment-snoc r rows)

conflicts_nullifier-snoc :
    (r : NullifierRow) (rows : List NullifierRow) → conflicts_nullifier r (rows ++ r ∷ []) ≡ true
unfolding conflicts_nullifier
conflicts_nullifier-snoc r [] =
    rw ((String_eq.beq_iff r.pool r.pool).1 refl, (Bytes_eq.beq_iff r.nullifier r.nullifier).1 refl)
      refl
conflicts_nullifier-snoc r (x ∷ rows) = ground (arith, conflicts_nullifier-snoc r rows)

-- A database that carries out every query.
abbrev pub up : Database → Indexer
up db = record { db = db; answers = [] }

insert_commitment-twice :
    (r : CommitmentRow) (db : Database) (b : Bool)
    → conflicts_commitment r db.commitments ≡ b
    → query (insert_commitment r) (query (insert_commitment r) (up db)).1
      ≡ (ok tt, (query (insert_commitment r) (up db)).1)
unfolding query answered applied insert_commitment
insert_commitment-twice r db true e = rw (e, e) refl
insert_commitment-twice r db false e = rw (e, conflicts_commitment-snoc r db.commitments) refl

insert_nullifier-twice :
    (r : NullifierRow) (db : Database) (b : Bool)
    → conflicts_nullifier r db.nullifiers ≡ b
    → query (insert_nullifier r) (query (insert_nullifier r) (up db)).1
      ≡ (ok tt, (query (insert_nullifier r) (up db)).1)
unfolding query answered applied insert_nullifier
insert_nullifier-twice r db true e = rw (e, e) refl
insert_nullifier-twice r db false e = rw (e, conflicts_nullifier-snoc r db.nullifiers) refl

resume-pure : {S E : Type 0} (r : Result E (Unit {0}) × S) → resume r pure ≡ r
resume-pure (ok u, s) = refl
resume-pure (err e, s) = refl

-- Where no query fails, a commitment without a deposit (an amount with its asset) and a nullifier can be
-- stored again: the second time succeeds and changes nothing.
pub store_event-replayed :
    (contract_id : String) (ledger : ℤ) (tx_hash : String) (e : PoolEvent) (db : Database)
    → IsReplayable e
    → store_event contract_id ledger tx_hash e (store_event contract_id ledger tx_hash e (up db)).1
      ≡ (ok tt, (store_event contract_id ledger tx_hash e (up db)).1)
unfolding store_event add_deposit
store_event-replayed contract_id ledger tx_hash (new_commitment c i none asset) db h =
    let r : CommitmentRow = record {
      pool = contract_id;
      leaf_index = i;
      commitment = c;
      ledger = ledger;
      tx_hash = tx_hash;
    } in
    rw
      (
        resume-pure (query (insert_commitment r) (up db)),
        resume-pure (query (insert_commitment r) (query (insert_commitment r) (up db)).1),
      )
      (insert_commitment-twice r db (conflicts_commitment r db.commitments) refl)
store_event-replayed contract_id ledger tx_hash (new_commitment c i (some amount) none) db h =
    let r : CommitmentRow = record {
      pool = contract_id;
      leaf_index = i;
      commitment = c;
      ledger = ledger;
      tx_hash = tx_hash;
    } in
    rw
      (
        resume-pure (query (insert_commitment r) (up db)),
        resume-pure (query (insert_commitment r) (query (insert_commitment r) (up db)).1),
      )
      (insert_commitment-twice r db (conflicts_commitment r db.commitments) refl)
store_event-replayed contract_id ledger tx_hash (new_commitment c i (some amount) (some asset)) db
      h =
    absurd (cc)
store_event-replayed contract_id ledger tx_hash (nullifier_spent n) db h =
    insert_nullifier-twice _ db (conflicts_nullifier _ db.nullifiers) refl
store_event-replayed contract_id ledger tx_hash (encrypted_note c k t) db h = absurd h
store_event-replayed contract_id ledger tx_hash (withdrawal amount asset) db h = absurd h
store_event-replayed contract_id ledger tx_hash (issuer_updated i n k c t) db h = absurd h

-- A page that is stored twice counts its deposits and withdrawals twice in the totals of the pool,
-- unless a query fails: the totals are not safe against a replay.
pub store_events-counted_twice :
    (codecs : Codecs) (pool : String) (events : List RawEvent) (last_ledger : ℤ) (s : Indexer)
    → Flows pool
        (plus (page_flow codecs events) (page_flow codecs events))
        ((store_events codecs pool events last_ledger >>= store_events codecs pool events) s)
        s.db
store_events-counted_twice codecs pool events last_ledger s =
    resume-Flows pool (page_flow codecs events) (page_flow codecs events)
      (store_events codecs pool events last_ledger s) (store_events codecs pool events) s.db
      (store_events-Flows codecs pool events last_ledger s)
      λ l s'. store_events-Flows codecs pool events l s'

-- ===== src/Notes/Tests.antt =====
-- Runs of crates/attesta-api/src/routes/notes.rs.
use attesta_protocol_backend.Prelude.{
  arith, true, ◌⊎◌, ◌++◌, ◌/◌, ◌<◌, length, drop, ℕ, ◌≡◌, refl, String, some, none, List, [], ◌∷◌,
  map,
}
use attesta_protocol_backend.Prelude.Int.{pos}
use attesta_protocol_backend.Database.{EncryptedNoteRow, empty_database}
use attesta_protocol_backend.Prelude.Exec.{ok}
use attesta_protocol_backend.Tree.{Server, fetch, answered}
use attesta_protocol_backend.Tree.Queries.{any_down}
use attesta_protocol_backend.Notes.Order.{Ascending, kept, after}
use attesta_protocol_backend.Notes.Wake.{max_id, coalesce, started, wake_ups, poll_new_notes}
use attesta_protocol_backend.Notes.Drain.{pending, any_note, drain_new_notes-exact}
use attesta_protocol_backend.Notes.Join.{stream_notes-exact}
use attesta_protocol_backend.Notes.{
  FanOut, send_all, after_query, query_new, drain_new_notes, select_notes, insert_by_id, in_pools,
  replay_limit, stream_notes, note_event, resync_event, published, lagged, any_pool, live,
  replay_events, last_id,
}
use attesta_protocol_backend.Notes.Live.{wanted, live-wanted}

abbrev note : ℕ → String → EncryptedNoteRow
note id pool = record {
  id = pos id;
  pool = pool;
  commitment = [];
  ephemeral_pubkey = [];
  ciphertext = [];
  ledger = pos 1;
  tx_hash = "tx";
}

abbrev notes : List EncryptedNoteRow
notes = note 2 "A" ∷ note 3 "B" ∷ note 5 "A" ∷ []

-- The overlap with the replay is dropped, and so is the other pool.
overlap : live (some ("A" ∷ [])) (pos 2) (map published notes) ≡ note_event (note 5 "A") ∷ []
unfolding live any_pool
overlap = refl

too_slow :
    live none (pos 2) (lagged ∷ published (note 3 "B") ∷ [])
    ≡ resync_event ∷ note_event (note 3 "B") ∷ []
unfolding live
too_slow = refl

last_of_replay : (replay_events notes (pos 1)).1 ≡ pos 5
unfolding replay_events last_id
last_of_replay = refl

live-wanted_example :
    live (some ("A" ∷ [])) (pos 2) (map published notes) ≡ wanted (some ("A" ∷ [])) (pos 2) notes
live-wanted_example =
    live-wanted (some ("A" ∷ [])) (pos 2) notes ((refl, (refl, tt)), ((refl, tt), (tt, tt)))

abbrev stored : Server
stored = record { db = record empty_database { encrypted_notes = notes }; answers = []; trees = [] }

abbrev behind : FanOut
behind = record { server = stored; last_id = pos 2; sent = [] }

drained :
    drain_new_notes 1 behind
    ≡ some (record { server = stored; last_id = pos 5; sent = note 3 "B" ∷ note 5 "A" ∷ [] })
unfolding drain_new_notes after_query query_new send_all select_notes insert_by_id fetch answered
drained = refl

notes_Ascending : Ascending notes
notes_Ascending = ((refl, (refl, tt)), ((refl, tt), (tt, tt)))

few_pending : length (pending (pos 2) notes) / 1000 < 1
unfolding pending kept any_note
few_pending = omega arith

drain_new_notes-exact_example :
    (f' : FanOut) × (drain_new_notes 1 behind ≡ some f')
    × (f'.sent ++ pending f'.last_id notes ≡ pending (pos 2) notes)
    × ((pending f'.last_id notes ≡ []) ⊎ (any_down [] ≡ true))
drain_new_notes-exact_example =
    drain_new_notes-exact notes 1 behind notes_Ascending refl few_pending

few_kept : length (kept (after (in_pools none) (pos 2)) notes) < replay_limit
unfolding kept
few_kept = omega arith

stream_notes-exact_example :
    stream_notes none (some (pos 2)) (map published (drop 2 (notes ++ note 8 "C" ∷ []))) stored
    ≡ (ok (wanted none (pos 2) (notes ++ note 8 "C" ∷ [])), stored)
stream_notes-exact_example =
    stream_notes-exact none (pos 2) 2 (note 8 "C" ∷ []) stored
      ((refl, (refl, (refl, tt))), ((refl, (refl, tt)), ((refl, tt), (tt, tt)))) refl (omega arith)
      few_kept

abbrev longer : Server
longer = record stored {
  db = record empty_database {
    encrypted_notes = note 2 "A" ∷ note 3 "B" ∷ note 5 "A" ∷ note 8 "C" ∷ [];
  };
}

-- The task sends what was inserted after it started.
only_new :
    poll_new_notes 1 stored (stored ∷ longer ∷ [])
    ≡ some (record { server = longer; last_id = pos 8; sent = note 8 "C" ∷ [] })
unfolding poll_new_notes wake_ups started coalesce max_id drain_new_notes after_query query_new
    send_all select_notes insert_by_id fetch answered
only_new = refl

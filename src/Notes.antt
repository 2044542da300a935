-- ===== src/Notes.antt =====
-- crates/attesta-api/src/routes/notes.rs: the pages of encrypted notes, and the events of a stream, which
-- are a replay of stored notes and then the live notes. The list of pools of a query is taken as parsed,
-- and what the broadcast channel delivers to the subscriber is given. JSON rendering and keep-alives are
-- left out.
pub mod Order
pub mod Cursor
pub mod Live
pub mod Join
pub mod Drain
pub mod Wake
mod Tests
use attesta_protocol_backend.Prelude.{
  ℕ, zero, suc, ◌+◌, Bool, true, false, ◌&&◌, ◌||◌, not, String, Option, none, some, List, [], ◌∷◌,
  ◌++◌, map, length, take, ◌==◌ as nat_eq, if◌then◌else◌,
}
use attesta_protocol_backend.Prelude.Int.{ℤ, pos, ltb_ℤ}
use attesta_protocol_backend.Prelude.Keys.{◌==◌, String_eq}
use attesta_protocol_backend.Prelude.Exec.{Result, ok, err, Exec, pure, resume, ◌>>=◌}
use attesta_protocol_backend.Database.{Database, EncryptedNoteRow}
use attesta_protocol_backend.Api.{Fault}
use attesta_protocol_backend.Tree.{Server, fetch}

abbrev pub page_size : ℕ
page_size = 500

abbrev pub replay_limit : ℕ
replay_limit = 5000

-- ORDER BY id
unfoldable pub insert_by_id : EncryptedNoteRow → List EncryptedNoteRow → List EncryptedNoteRow
insert_by_id r [] = r ∷ []
insert_by_id r (x ∷ rows) = if ltb_ℤ x.id r.id then x ∷ insert_by_id r rows else r ∷ x ∷ rows

-- SELECT … FROM encrypted_notes WHERE … ORDER BY id
unfoldable pub select_notes :
    (EncryptedNoteRow → Bool) → List EncryptedNoteRow → List EncryptedNoteRow
unfolding insert_by_id
select_notes test [] = []
select_notes test (x ∷ rows) =
    let rest = select_notes test rows in if test x then insert_by_id x rest else rest

-- `rows.last().map(|n| n.id)`
unfoldable pub last_id : List EncryptedNoteRow → Option ℤ
last_id [] = none
last_id (x ∷ []) = some x.id
last_id (x ∷ y ∷ rows) = last_id (y ∷ rows)

pub record NotesQuery : Type 0 where
  pub since_cursor : Option ℤ
  pub pool : Option String

pub record NotesPage : Type 0 where
  pub notes : List EncryptedNoteRow
  pub next_cursor : Option ℤ

-- `$2::text IS NULL OR pool = $2`
abbrev pub in_pool : Option String → EncryptedNoteRow → Bool
in_pool none n = true
in_pool (some pool) n = n.pool == pool

unfoldable pub notes_page : List EncryptedNoteRow → NotesPage
unfolding last_id
notes_page rows = record {
  notes = rows;
  next_cursor = if nat_eq (length rows) page_size then last_id rows else none;
}

abbrev pub id_or : ℤ → Option ℤ → ℤ
id_or d none = d
id_or d (some i) = i

unfoldable pub list_notes : NotesQuery → Exec Server Fault NotesPage
unfolding select_notes notes_page
list_notes q = do
  notes ← fetch (λ db. take page_size (
      select_notes (λ n. ltb_ℤ (id_or (pos 0) q.since_cursor) n.id && in_pool q.pool n)
        db.encrypted_notes))
  pure (notes_page notes)

pub data StreamEvent : Type 0 where
  note_event : EncryptedNoteRow → StreamEvent
  resync_event : StreamEvent

-- What the subscriber receives: a note, or that it was too slow for the buffer.
pub data Message : Type 0 where
  published : EncryptedNoteRow → Message
  lagged : Message

unfoldable pub any_pool : String → List String → Bool
any_pool pool [] = false
any_pool pool (p ∷ pools) = p == pool || any_pool pool pools

abbrev pub in_pools : Option (List String) → EncryptedNoteRow → Bool
in_pools none n = true
in_pools (some pools) n = any_pool n.pool pools

-- The replay of a resumed stream, with the `last_seen` that it leaves.
unfoldable pub replay_events : List EncryptedNoteRow → ℤ → List StreamEvent × ℤ
unfolding last_id
replay_events rows cursor =
    let resync = if nat_eq (length rows) replay_limit then resync_event ∷ [] else [] in
    (map note_event rows ++ resync, id_or cursor (last_id rows))

unfoldable pub replay : Option (List String) → Option ℤ → Exec Server Fault (List StreamEvent × ℤ)
unfolding select_notes replay_events
replay pools none = pure ([], pos 0)
replay pools (some cursor) = do
  rows ← fetch (λ db.
      take replay_limit
        (select_notes (λ n. ltb_ℤ cursor n.id && in_pools pools n) db.encrypted_notes))
  pure (replay_events rows cursor)

-- The `filter_map` over the live messages, which remembers the last note seen.
unfoldable pub live : Option (List String) → ℤ → List Message → List StreamEvent
unfolding any_pool
live pools last_seen [] = []
live pools last_seen (lagged ∷ messages) = resync_event ∷ live pools last_seen messages
live pools last_seen (published note ∷ messages) =
    let skipped = live pools last_seen messages in
    let rest = live pools note.id messages in
    if not (ltb_ℤ last_seen note.id)
    then skipped
    else if in_pools pools note
    then note_event note ∷ rest
    else rest

-- The events of a stream whose subscription delivers these messages.
unfoldable pub stream_notes :
    Option (List String) → Option ℤ → List Message → Exec Server Fault (List StreamEvent)
unfolding replay live
stream_notes pools resume_from messages = do
  replayed ← replay pools resume_from
  pure (replayed.0 ++ live pools replayed.1 messages)

-- The background task: the last note that it sent, and all that it sent.
pub record FanOut : Type 0 where
  pub server : Server
  pub last_id : ℤ
  pub sent : List EncryptedNoteRow

unfoldable pub send_all : List EncryptedNoteRow → FanOut → FanOut
send_all [] f = f
send_all (n ∷ notes) f = send_all notes (record f { last_id = n.id; sent = f.sent ++ n ∷ [] })

-- What is done with the answer of the query, and whether the loop goes on.
unfoldable pub after_query : FanOut → Result Fault (List EncryptedNoteRow) × Server → FanOut × Bool
unfolding send_all
after_query f (ok rows, server) =
    (send_all rows (record f { server = server }), nat_eq (length rows) 1000)
after_query f (err e, server) = (record f { server = server }, false)

unfoldable pub query_new : FanOut → Result Fault (List EncryptedNoteRow) × Server
unfolding select_notes
query_new f =
    fetch (λ db. take 1000 (select_notes (λ n. ltb_ℤ f.last_id n.id) db.encrypted_notes)) f.server

-- The loop of `drain_new_notes`, with fuel; `none` where the fuel ran out.
unfoldable pub drain_new_notes : ℕ → FanOut → Option FanOut
unfolding after_query query_new
drain_new_notes zero f = none
drain_new_notes (suc fuel) f =
    let step = after_query f (query_new f) in
    let rest = drain_new_notes fuel step.0 in if step.1 then rest else some step.0

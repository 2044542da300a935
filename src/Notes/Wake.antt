-- ===== src/Notes/Wake.antt =====
-- `poll_new_notes` and `listen` of crates/attesta-api/src/routes/notes.rs. Both wake up, for a notification or after a time,
-- and drain; the wake-ups are given by the server as each finds it.
use attesta_protocol_backend.Prelude.{ℕ, Option, none, some, List, [], ◌∷◌, if◌then◌else◌}
use attesta_protocol_backend.Prelude.Int.{ℤ, pos, ltb_ℤ}
use attesta_protocol_backend.Prelude.Exec.{Result, ok, err}
use attesta_protocol_backend.Database.{EncryptedNoteRow}
use attesta_protocol_backend.Api.{Fault}
use attesta_protocol_backend.Tree.{Server, fetch}
use attesta_protocol_backend.Notes.{FanOut, drain_new_notes}

-- SELECT MAX(id) FROM encrypted_notes
unfoldable pub max_id : List EncryptedNoteRow → Option ℤ
max_id [] = none
max_id (n ∷ rows) = larger n.id (max_id rows)
  where
    larger : ℤ → Option ℤ → Option ℤ
    larger a none = some a
    larger a (some b) = some (if ltb_ℤ b a then a else b)

-- COALESCE(…, 0)
unfoldable pub coalesce : Option ℤ → ℤ
coalesce none = pos 0
coalesce (some i) = i

-- `.unwrap_or(0)`
unfoldable pub started : Result Fault ℤ × Server → FanOut
started (ok last_id, server) = record { server = server; last_id = last_id; sent = [] }
started (err e, server) = record { server = server; last_id = pos 0; sent = [] }

-- The drains of the wake-ups, each with the same fuel.
unfoldable pub wake_ups : ℕ → List Server → FanOut → Option FanOut
unfolding drain_new_notes
wake_ups fuel [] f = some f
wake_ups fuel (server ∷ servers) f =
    drained (drain_new_notes fuel (record f { server = server })) (wake_ups fuel servers)
  where
    drained : Option FanOut → (FanOut → Option FanOut) → Option FanOut
    drained none next = none
    drained (some f) next = next f

unfoldable pub poll_new_notes : ℕ → Server → List Server → Option FanOut
unfolding max_id coalesce started wake_ups
poll_new_notes fuel server servers =
    wake_ups fuel servers (started (fetch (λ db. coalesce (max_id db.encrypted_notes)) server))

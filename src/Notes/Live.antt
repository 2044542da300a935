-- ===== src/Notes/Live.antt =====
-- The live part of a stream of crates/attesta-api/src/routes/notes.rs.
use attesta_protocol_backend.Prelude.{
  ◌≡◌, refl, true, ◌&&◌, String, Option, List, [], ◌∷◌, map, All, Bool-cases, inl, inr,
  if◌then◌else◌,
}
use attesta_protocol_backend.Prelude.Int.{ℤ, ltb_ℤ}
use attesta_protocol_backend.Database.{EncryptedNoteRow}
use attesta_protocol_backend.Notes.Order.{Ascending, ltb_ℤ_trans}
use attesta_protocol_backend.Notes.{StreamEvent, note_event, published, in_pools, live}

-- The notes behind a cursor that a filter of pools lets through.
unfoldable pub wanted : Option (List String) → ℤ → List EncryptedNoteRow → List StreamEvent
wanted pools cursor [] = []
wanted pools cursor (n ∷ ns) =
    let rest = wanted pools cursor ns in
    if ltb_ℤ cursor n.id && in_pools pools n then note_event n ∷ rest else rest

pub wanted_behind :
    (pools : Option (List String)) (a b : ℤ) (ns : List EncryptedNoteRow)
    → ltb_ℤ a b ≡ true
    → All (λ m. ltb_ℤ b m.id ≡ true) ns
    → wanted pools b ns ≡ wanted pools a ns
unfolding wanted
wanted_behind pools a b [] h k = refl
wanted_behind pools a b (n ∷ ns) h k =
    let first : ltb_ℤ a n.id ≡ true = ltb_ℤ_trans a b n.id h k.0 in
    rw (k.0, first, wanted_behind pools a b ns h k.1) refl

-- Where the notes are published in the order of their ids and the subscriber keeps up, the live events are
-- exactly the notes behind the last one seen in the pools of the filter, each once and in order.
pub live-wanted :
    (pools : Option (List String)) (last_seen : ℤ) (notes : List EncryptedNoteRow)
    → Ascending notes
    → live pools last_seen (map published notes) ≡ wanted pools last_seen notes
unfolding live wanted
live-wanted pools last_seen [] a = refl
live-wanted pools last_seen (n ∷ ns) a = elim (Bool-cases (ltb_ℤ last_seen n.id)) [
  | inl later ↦
      rw (later, live-wanted pools n.id ns a.1, wanted_behind pools last_seen n.id ns later a.0)
        refl
  | inr seen ↦ rw (seen, live-wanted pools last_seen ns a.1) refl
]

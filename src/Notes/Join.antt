-- ===== src/Notes/Join.antt =====
-- A resumed stream of crates/attesta-api/src/routes/notes.rs: the replay and the live notes together.
use attesta_protocol_backend.Prelude.{
  ℕ, zero, suc, ◌<◌, ◌≤◌, ◌≡◌, refl, sym, ◌∙◌, ap, Bool, true, false, ◌&&◌, String, Option, some,
  List, [], ◌∷◌, ◌++◌, map, arith, Bool-cases, inl, inr, length, take, drop, ◌==◌ as nat_eq,
}
use mathlib.Core.List.{append-nil, map-append}
use attesta_protocol_backend.Prelude.Int.{ℤ, ltb_ℤ}
use attesta_protocol_backend.Prelude.Exec.{ok, resume, pure}
use attesta_protocol_backend.Database.{EncryptedNoteRow}
use attesta_protocol_backend.Tree.{Server}
use attesta_protocol_backend.Tree.Queries.{fetch_up}
use attesta_protocol_backend.Notes.{
  last_id, id_or, select_notes, note_event, published, in_pools, replay_limit, replay_events,
  replay, live, stream_notes,
}
use attesta_protocol_backend.Notes.Order.{
  Behind, Ascending, kept, All-append_left, after, select_notes-kept, last_id-cons, kept_from,
  All-append_right, Ascending-append_left, Ascending-drop,
}
use attesta_protocol_backend.Notes.Cursor.{
  next_cursor, kept-next_cursor, seen_before, kept_head, kept_nil,
}
use attesta_protocol_backend.Notes.Live.{wanted, live-wanted}

wanted-kept :
    (pools : Option (List String)) (c : ℤ) (ns : List EncryptedNoteRow)
    → wanted pools c ns ≡ map note_event (kept (after (in_pools pools) c) ns)
unfolding wanted kept
wanted-kept pools c [] = refl
wanted-kept pools c (n ∷ ns) = elim (Bool-cases (after (in_pools pools) c n)) [
  | inl e ↦ rw (e, wanted-kept pools c ns) refl
  | inr e ↦ rw (e, wanted-kept pools c ns) refl
]

pub take-length : (xs : List EncryptedNoteRow) (n : ℕ) → length xs ≤ n → take n xs ≡ xs
take-length [] zero h = refl
take-length [] (suc n) h = refl
take-length (x ∷ xs) zero h = absurd (omega arith)
take-length (x ∷ xs) (suc n) h = ap (◌∷◌ x) (take-length xs n (omega arith))

drop-length : (xs : List EncryptedNoteRow) → drop (length xs) xs ≡ []
drop-length [] = refl
drop-length (x ∷ xs) = drop-length xs

drop-append :
    (k : ℕ) (xs ys : List EncryptedNoteRow) → k ≤ length xs → drop k (xs ++ ys) ≡ drop k xs ++ ys
drop-append zero xs ys h = refl
drop-append (suc k) [] ys h = absurd (omega arith)
drop-append (suc k) (x ∷ xs) ys h = drop-append k xs ys (omega arith)

module _ (test : EncryptedNoteRow → Bool) where
  kept-append :
      (xs ys : List EncryptedNoteRow) → kept test (xs ++ ys) ≡ kept test xs ++ kept test ys
  unfolding kept
  kept-append [] ys = refl
  kept-append (x ∷ xs) ys = ground (arith, kept-append xs ys)

  kept-drop_nil :
      (k : ℕ) (xs : List EncryptedNoteRow) → kept test xs ≡ [] → kept test (drop k xs) ≡ []
  unfolding kept
  kept-drop_nil zero xs h = h
  kept-drop_nil (suc k) [] h = refl
  kept-drop_nil (suc k) (x ∷ xs) h = ground (arith, kept-drop_nil k xs)

test_left : (a b : Bool) → (a && b) ≡ true → a ≡ true
test_left a b e = ground arith

module _ (p : EncryptedNoteRow → Bool) where
  -- The cursor that the replay leaves.
  abbrev left_at : ℤ → List EncryptedNoteRow → ℤ
  left_at c stored = id_or c (last_id (kept (after p c) stored))

  left_at-next_cursor :
      (c : ℤ) (stored : List EncryptedNoteRow)
      → next_cursor p c (length (kept (after p c) stored)) stored ≡ left_at c stored
  unfolding next_cursor
  left_at-next_cursor c stored =
      ap (λ xs. id_or c (last_id xs))
        (take-length (kept (after p c) stored) (length (kept (after p c) stored)) (omega arith))

  -- Nothing stored is behind it,
  stored_done :
      (c : ℤ) (stored : List EncryptedNoteRow)
      → Ascending stored
      → kept (after p (left_at c stored)) stored ≡ []
  stored_done c stored a =
      let n = length (kept (after p c) stored) in
      ap (λ l. kept (after p l) stored) (sym (left_at-next_cursor c stored))
      ∙ kept-next_cursor p c n stored a
      ∙ drop-length (kept (after p c) stored)

  -- and for what comes later it is as good as the cursor of the request.
  later_same :
      (c : ℤ) (stored later : List EncryptedNoteRow)
      → Ascending (stored ++ later)
      → kept (after p (left_at c stored)) later ≡ kept (after p c) later
  unfolding last_id
  later_same c [] later a = ap (λ xs. kept (after p (id_or c (last_id xs))) later) (kept_nil p c)
  later_same c (n ∷ stored) later a = elim (Bool-cases (after p c n)) [
    | inl e ↦
        let b : Behind n.id stored =
          All-append_left (λ m. ltb_ℤ n.id m.id ≡ true) stored later a.0 in
        let here : left_at c (n ∷ stored) ≡ left_at n.id stored =
          ap (λ xs. id_or c (last_id xs)) (kept_head p c n stored b e)
          ∙ last_id-cons c n (kept (after p n.id) stored) in
        ap (λ l. kept (after p l) later) here
        ∙ later_same n.id stored later a.1
        ∙ kept_from p c n.id later (test_left (ltb_ℤ c n.id) (p n) e)
            (All-append_right (λ m. ltb_ℤ n.id m.id ≡ true) stored later a.0)
    | inr e ↦
        ap (λ xs. kept (after p (id_or c (last_id xs))) later) (seen_before p c n stored e)
        ∙ later_same c stored later a.1
  ]

  -- Live, only what was published after the replay's query is left.
  rest :
      (c : ℤ) (k : ℕ) (stored later : List EncryptedNoteRow)
      → Ascending (stored ++ later)
      → k ≤ length stored
      → kept (after p (left_at c stored)) (drop k (stored ++ later)) ≡ kept (after p c) later
  rest c k stored later a b =
      let test = after p (left_at c stored) in
      ap (kept test) (drop-append k stored later b)
      ∙ kept-append test (drop k stored) later
      ∙ ap (λ xs. xs ++ kept test later)
          (kept-drop_nil test k stored
            (stored_done c stored (Ascending-append_left stored later a)))
      ∙ later_same c stored later a

short_page :
    (test : EncryptedNoteRow → Bool) (rows : List EncryptedNoteRow) (n : ℕ)
    → Ascending rows
    → length (kept test rows) < n
    → take n (select_notes test rows) ≡ kept test rows
short_page test rows n a h =
    ap (take n) (select_notes-kept test rows a) ∙ take-length (kept test rows) n (omega arith)

replayed :
    (pools : Option (List String)) (cursor : ℤ) (s : Server)
    → Ascending s.db.encrypted_notes
    → s.answers ≡ []
    → length (kept (after (in_pools pools) cursor) s.db.encrypted_notes) < replay_limit
    → replay pools (some cursor) s
      ≡ (ok (replay_events (kept (after (in_pools pools) cursor) s.db.encrypted_notes) cursor), s)
unfolding replay
replayed pools cursor s a e h =
    let test = after (in_pools pools) cursor in
    ap (λ r. resume r (λ rows. pure (replay_events rows cursor)))
      (fetch_up (λ db. take replay_limit (select_notes test db.encrypted_notes)) s e
        ∙ ap (λ rows. (ok rows, s)) (short_page test s.db.encrypted_notes replay_limit a h))

not_full : (n : ℕ) → n < replay_limit → nat_eq n replay_limit ≡ false
not_full n h = ground arith

replay_events_short :
    (rows : List EncryptedNoteRow) (cursor : ℤ)
    → length rows < replay_limit
    → replay_events rows cursor ≡ (map note_event rows, id_or cursor (last_id rows))
unfolding replay_events
replay_events_short rows cursor h = rw (not_full (length rows) h, append-nil) refl

-- A client that resumes from a cursor less than 5000 notes behind, whose subscription begins at some
-- point of the table and keeps up with what is published after, gets every note behind its cursor in the
-- pools of its filter, each once and in order: what the replay has already sent is not sent live again.
-- It holds where the ids of the notes stored and published grow and the database answers.
pub stream_notes-exact :
    (pools : Option (List String)) (cursor : ℤ) (k : ℕ) (later : List EncryptedNoteRow) (s : Server)
    → Ascending (s.db.encrypted_notes ++ later)
    → s.answers ≡ []
    → k ≤ length s.db.encrypted_notes
    → length (kept (after (in_pools pools) cursor) s.db.encrypted_notes) < replay_limit
    → stream_notes pools (some cursor) (map published (drop k (s.db.encrypted_notes ++ later))) s
      ≡ (ok (wanted pools cursor (s.db.encrypted_notes ++ later)), s)
unfolding stream_notes
stream_notes-exact pools cursor k later s a e b h =
    let p = in_pools pools in
    let stored = s.db.encrypted_notes in
    let sorted : Ascending stored = Ascending-append_left stored later a in
    let l = left_at p cursor stored in
    let all = stored ++ later in
    let tail : live pools l (map published (drop k all))
        ≡ map note_event (kept (after p cursor) later) =
      live-wanted pools l (drop k all) (Ascending-drop k all a)
      ∙ wanted-kept pools l (drop k all)
      ∙ ap (map note_event) (rest p cursor k stored later a b) in
    let before : replay pools (some cursor) s
        ≡ (ok (map note_event (kept (after p cursor) stored), l), s) =
      replayed pools cursor s sorted e h
      ∙ ap (λ r. (ok r, s)) (replay_events_short (kept (after p cursor) stored) cursor h) in
    ap
      (λ r.
        resume r
          (λ replayed. pure (replayed.0 ++ live pools replayed.1 (map published (drop k all)))))
      before
    ∙ ap (λ es. (ok es, s))
        (ap (◌++◌ (map note_event (kept (after p cursor) stored))) tail
          ∙ sym (map-append note_event (kept (after p cursor) stored) (kept (after p cursor) later))
          ∙ ap (map note_event) (sym (kept-append (after p cursor) stored later))
          ∙ sym (wanted-kept pools cursor all))

-- ===== src/Notes/Drain.antt =====
-- `drain_new_notes` of crates/attesta-api/src/routes/notes.rs.
use attesta_protocol_backend.Prelude.{
  ℕ, zero, suc, ◌+◌, ◌-◌, ◌/◌, ◌<◌, ◌≤◌, ◌≡◌, refl, ◌∙◌, ap, fun_ext, ◌⊎◌, inl, inr, Bool, true,
  false, ◌&&◌, some, List, [], ◌∷◌, ◌++◌, arith, Bool-cases, length, take, drop, length-take,
  length-drop, take-append-drop, min, ◌==◌ as nat_eq,
}
use mathlib.Core.List.{append_assoc, append-nil}
use attesta_protocol_backend.Prelude.Int.{ℤ, ltb_ℤ}
use attesta_protocol_backend.Prelude.Exec.{Result, ok, err}
use attesta_protocol_backend.Database.{Database, EncryptedNoteRow}
use attesta_protocol_backend.Api.{Fault}
use attesta_protocol_backend.Tree.{Server}
use attesta_protocol_backend.Tree.Queries.{any_down, Fetched, fetch-Fetched}
use attesta_protocol_backend.Notes.{
  last_id, id_or, select_notes, FanOut, send_all, after_query, query_new, drain_new_notes,
}
use attesta_protocol_backend.Notes.Order.{Ascending, kept, after, select_notes-kept, last_id-cons}
use attesta_protocol_backend.Notes.Cursor.{next_cursor, kept-next_cursor}

unfoldable pub any_note : EncryptedNoteRow → Bool
any_note n = true

-- The notes that wait to be sent.
unfoldable pub pending : ℤ → List EncryptedNoteRow → List EncryptedNoteRow
unfolding kept any_note
pending last rows = kept (after any_note last) rows

after-any_note : (last : ℤ) → (λ (n : EncryptedNoteRow). ltb_ℤ last n.id) ≡ after any_note last
unfolding any_note
after-any_note last = fun_ext (λ n. unit (ltb_ℤ last n.id))
  where
    unit : (b : Bool) → b ≡ (b && true)
    unit true = refl
    unit false = refl

select-pending :
    (last : ℤ) (rows : List EncryptedNoteRow)
    → Ascending rows
    → select_notes (λ n. ltb_ℤ last n.id) rows ≡ pending last rows
unfolding pending
select-pending last rows a =
    rw (after-any_note last) (select_notes-kept (after any_note last) rows a)

send_all_lem :
    (notes : List EncryptedNoteRow) (f : FanOut)
    → send_all notes f
      ≡ record f { last_id = id_or f.last_id (last_id notes); sent = f.sent ++ notes }
unfolding send_all last_id
send_all_lem [] f = rw append-nil refl
send_all_lem (n ∷ notes) f =
    rw
      (
        send_all_lem notes (record f { last_id = n.id; sent = f.sent ++ n ∷ [] }),
        append_assoc,
        last_id-cons f.last_id n notes,
      )
      refl

-- The notes that wait, after the first `n` of them were sent.
pending-page :
    (n : ℕ) (last : ℤ) (rows : List EncryptedNoteRow)
    → Ascending rows
    → pending (id_or last (last_id (take n (pending last rows)))) rows ≡ drop n (pending last rows)
unfolding pending next_cursor
pending-page n last rows a = kept-next_cursor any_note last n rows a

-- How the loop goes on: the notes sent and the notes that wait are together what they were; a page that
-- is not the last one was full; and after the last one no note waits, unless the query failed.
record Stepped (rows : List EncryptedNoteRow) (f f' : FanOut) (more : Bool) : Type 0 where
  db : f'.server.db ≡ f.server.db
  exact : f'.sent ++ pending f'.last_id rows ≡ f.sent ++ pending f.last_id rows
  full : more ≡ true → length (pending f'.last_id rows) + 1000 ≤ length (pending f.last_id rows)
  done : more ≡ false → (pending f'.last_id rows ≡ []) ⊎ (any_down f.server.answers ≡ true)
  down : any_down f'.server.answers ≡ true → any_down f.server.answers ≡ true

full_page : (n m : ℕ) → n ≡ min 1000 m → nat_eq n 1000 ≡ true → m - 1000 + 1000 ≤ m
full_page n m e h = ground arith

last_page : (n m : ℕ) → n ≡ min 1000 m → nat_eq n 1000 ≡ false → m - 1000 ≡ 0
last_page n m e h = ground arith

nil_of_length : (xs : List EncryptedNoteRow) → length xs ≡ 0 → xs ≡ []
nil_of_length [] h = refl
nil_of_length (x ∷ xs) h = absurd (omega arith)

module _ (rows : List EncryptedNoteRow) (a : Ascending rows) where
  page_sent :
      (f : FanOut) (page : List EncryptedNoteRow) (server : Server)
      → page ≡ take 1000 (pending f.last_id rows)
      → server.db ≡ f.server.db
      → any_down f.server.answers ≡ any_down server.answers
      → Stepped rows f (send_all page (record f { server = server })) (nat_eq (length page) 1000)
  page_sent f page server e d w =
      let p = pending f.last_id rows in
      let rest : pending (id_or f.last_id (last_id page)) rows ≡ drop 1000 p =
        rw e (pending-page 1000 f.last_id rows a) in
      let n : length page ≡ min 1000 (length p) = ap length e ∙ length-take 1000 p in
      let m : length (drop 1000 p) ≡ length p - 1000 = length-drop 1000 p in
      rw (send_all_lem page (record f { server = server })) (record {
        db = d;
        exact = rw (rest, append_assoc, e, take-append-drop 1000 p) refl;
        full = λ h. rw (rest, m) (full_page (length page) (length p) n h);
        done = λ h.
            inl (rest ∙ nil_of_length (drop 1000 p) (m ∙ last_page (length page) (length p) n h));
        down = λ h. w ∙ h;
      })

  after_query-Stepped :
      (f : FanOut) (r : Result Fault (List EncryptedNoteRow) × Server)
      → f.server.db.encrypted_notes ≡ rows
      → Fetched
          (λ db. take 1000 (select_notes (λ n. ltb_ℤ f.last_id n.id) db.encrypted_notes))
          f.server
          r
      → Stepped rows f (after_query f r).0 (after_query f r).1
  unfolding after_query
  after_query-Stepped f (ok page, server) e (v, d, w) =
      page_sent f page server
        (v
          ∙ ap (λ rs. take 1000 (select_notes (λ n. ltb_ℤ f.last_id n.id) rs)) e
          ∙ ap (take 1000) (select-pending f.last_id rows a))
        d w
  after_query-Stepped f (err x, server) e (d, w) = record {
    db = d;
    exact = refl;
    full = λ h. cc;
    done = λ h. inr w;
    down = λ h. w;
  }

fewer : (n m fuel : ℕ) → n + 1000 ≤ m → m / 1000 < suc fuel → n / 1000 < fuel
fewer n m fuel h k = omega arith

query_new-Fetched :
    (f : FanOut)
    → Fetched
        (λ db. take 1000 (select_notes (λ n. ltb_ℤ f.last_id n.id) db.encrypted_notes))
        f.server
        (query_new f)
unfolding query_new
query_new-Fetched f = fetch-Fetched _ f.server

later :
    {rows : List EncryptedNoteRow} {f f' : FanOut} {more : Bool} {P : Type 0}
    → P ⊎ (any_down f'.server.answers ≡ true)
    → Stepped rows f f' more
    → P ⊎ (any_down f.server.answers ≡ true)
later (inl p) st = inl p
later (inr w) st = inr (st.down w)

-- Where the ids of the table grow in the order of its rows, and nothing is inserted between the rounds,
-- `drain_new_notes` ends within one round for each 1000 notes that wait, and one more. Whichever queries
-- fail, it skips no note and sends none twice: the notes sent and the notes behind its last id are
-- together what they were before; and when it ends no note waits, unless a query failed.
pub drain_new_notes-exact :
    (rows : List EncryptedNoteRow) (fuel : ℕ) (f : FanOut)
    → Ascending rows
    → f.server.db.encrypted_notes ≡ rows
    → length (pending f.last_id rows) / 1000 < fuel
    → (f' : FanOut) × (drain_new_notes fuel f ≡ some f')
      × (f'.sent ++ pending f'.last_id rows ≡ f.sent ++ pending f.last_id rows)
      × ((pending f'.last_id rows ≡ []) ⊎ (any_down f.server.answers ≡ true))
unfolding drain_new_notes
drain_new_notes-exact rows zero f a e h = absurd (omega arith)
drain_new_notes-exact rows (suc fuel) f a e h =
    let sel =
      λ (db : Database). take 1000 (select_notes (λ n. ltb_ℤ f.last_id n.id) db.encrypted_notes) in
    let step = after_query f (query_new f) in
    let st : Stepped rows f step.0 step.1 =
      after_query-Stepped rows a f (query_new f) e (query_new-Fetched f) in
    elim (Bool-cases step.1) [
      | inl more ↦
          let fits : length (pending step.0.last_id rows) / 1000 < fuel =
            fewer (length (pending step.0.last_id rows)) (length (pending f.last_id rows)) fuel
              (st.full more) h in
          let (f', ends, exact, done) =
            drain_new_notes-exact rows fuel step.0 a (ap (λ db. db.encrypted_notes) st.db ∙ e)
              fits in
          (f', rw more ends, exact ∙ st.exact, later done st)
      | inr over ↦ (step.0, rw over refl, st.exact, st.done over)
    ]

-- ===== src/Disclosure/Pages.antt =====
-- The loop of `generate` of crates/attesta-disclosure/src/main.rs over the pages of `list_notes` of
-- crates/attesta-api/src/routes/notes.rs.
use attesta_protocol_backend.Prelude.{
  ℕ, zero, suc, ◌-◌, ◌/◌, ◌<◌, ◌≤◌, ◌≡◌, refl, sym, ◌∙◌, ap, subst, Bool, true, false, String,
  Option, none, some, List, [], ◌∷◌, ◌++◌, arith, Bool-cases, inl, inr, length, take, drop,
  length-take, length-drop, take-append-drop, min, ◌==◌ as nat_eq,
}
use mathlib.Core.List.{append_assoc}
use attesta_protocol_backend.Prelude.Int.{ℤ, pos}
use attesta_protocol_backend.Prelude.Exec.{Result, Exec, ok, resume, pure}
use attesta_protocol_backend.Merkle.{TreeHasher}
use attesta_protocol_backend.Database.{EncryptedNoteRow}
use attesta_protocol_backend.Api.{Fault, Hex}
use attesta_protocol_backend.Tree.{Server}
use attesta_protocol_backend.Tree.Queries.{fetch_up}
use attesta_protocol_backend.Notes.{
  last_id, id_or, in_pool, select_notes, page_size, NotesPage, notes_page, list_notes,
}
use attesta_protocol_backend.Notes.Order.{Ascending, Behind, kept, after, select_notes-kept}
use attesta_protocol_backend.Notes.Cursor.{next_cursor, kept-next_cursor}
use attesta_protocol_backend.Notes.Join.{take-length}
use attesta_protocol_backend.Disclosure.{
  api, CliError, PageJson, next_page, after_page, page_through, page_json, over_http,
}

last_id_some :
    (d : ℤ) (xs : List EncryptedNoteRow) → 1 ≤ length xs → last_id xs ≡ some (id_or d (last_id xs))
unfolding last_id
last_id_some d [] e = absurd (omega arith)
last_id_some d (x ∷ []) e = refl
last_id_some d (x ∷ y ∷ xs) e = last_id_some d (y ∷ xs) (omega arith)

is_full : (n : ℕ) → nat_eq n page_size ≡ true → n ≡ page_size
is_full n e = ground arith

not_full : (n m : ℕ) → n ≡ min page_size m → nat_eq n page_size ≡ false → m ≤ page_size
not_full n m h e = ground arith

fewer : (m fuel : ℕ) → page_size ≤ m → m / page_size < suc fuel → (m - page_size) / page_size < fuel
fewer m fuel h k = omega arith

at_least : (n m : ℕ) → n ≡ min page_size m → n ≡ page_size → page_size ≤ m
at_least n m h e = ground arith

notes_page_full :
    (page : List EncryptedNoteRow) (l : Option ℤ)
    → nat_eq (length page) page_size ≡ true
    → last_id page ≡ l
    → notes_page page ≡ record { notes = page; next_cursor = l }
unfolding notes_page
notes_page_full page l e k = rw (e, k) refl

notes_page_last :
    (page : List EncryptedNoteRow)
    → nat_eq (length page) page_size ≡ false
    → notes_page page ≡ record { notes = page; next_cursor = none }
unfolding notes_page
notes_page_last page e = rw e refl

abbrev last_page : List EncryptedNoteRow → NotesPage
last_page page = record { notes = page; next_cursor = none }

module _ (h : TreeHasher) (hex : Hex) (pool : String) (s : Server)
    (a : Ascending s.db.encrypted_notes) (up : s.answers ≡ []) where
  abbrev rows : List EncryptedNoteRow
  rows = s.db.encrypted_notes

  -- What is left of the notes of the pool behind a cursor.
  unfoldable left : Option ℤ → List EncryptedNoteRow
  unfolding kept
  left cursor = kept (after (in_pool (some pool)) (id_or (pos 0) cursor)) rows

  list_notes-left :
      (cursor : Option ℤ)
      → list_notes (record { since_cursor = cursor; pool = some pool }) s
        ≡ (ok (notes_page (take page_size (left cursor))), s)
  unfolding list_notes left
  list_notes-left cursor =
      let test = after (in_pool (some pool)) (id_or (pos 0) cursor) in
      ap (λ r. resume r (λ notes. pure (notes_page notes)))
        (fetch_up (λ db. take page_size (select_notes test db.encrypted_notes)) s up
          ∙ ap (λ ns. (ok (take page_size ns), s)) (select_notes-kept test rows a))

  full_page :
      (cursor : Option ℤ)
      → nat_eq (length (take page_size (left cursor))) page_size ≡ true
      → (c : ℤ) × (last_id (take page_size (left cursor)) ≡ some c)
        × (left (some c) ≡ drop page_size (left cursor))
  unfolding left next_cursor
  full_page cursor e =
      let p = in_pool (some pool) in
      let c = id_or (pos 0) cursor in
      let page = take page_size (left cursor) in
      let n : length page ≡ page_size = is_full (length page) e in
      (
        next_cursor p c page_size rows,
        last_id_some c page (omega arith),
        kept-next_cursor p c page_size rows a,
      )

  abbrev get : Option ℤ → Exec Server CliError (PageJson EncryptedNoteRow)
  get = (api h hex).notes_page pool

  -- What the loop does with an answer.
  abbrev round :
      ℕ
      → List EncryptedNoteRow
      → Result Fault NotesPage × Server
      → Option (Result CliError (List EncryptedNoteRow) × Server)
  round fuel notes r =
      after_page notes (over_http page_json r) (λ c ns s. page_through get fuel ns (some c) s)

  -- A round that the loop ends with, and one that it goes on from.
  last_round :
      (fuel : ℕ) (notes : List EncryptedNoteRow) (cursor : Option ℤ)
      → nat_eq (length (take page_size (left cursor))) page_size ≡ false
      → page_through get (suc fuel) notes cursor s ≡ some (ok (notes ++ left cursor), s)
  unfolding page_through api after_page next_page
  last_round fuel notes cursor e =
      let k = left cursor in
      let page = take page_size k in
      let all : page ≡ k =
        take-length k page_size (not_full (length page) (length k) (length-take page_size k) e) in
      ap (round fuel notes)
        (list_notes-left cursor ∙ ap (λ p. (ok p, s)) (notes_page_last page e ∙ ap last_page all))

  full_round :
      (fuel : ℕ) (notes : List EncryptedNoteRow) (cursor : Option ℤ) (c : ℤ)
      → nat_eq (length (take page_size (left cursor))) page_size ≡ true
      → last_id (take page_size (left cursor)) ≡ some c
      → page_through get (suc fuel) notes cursor s
        ≡ page_through get fuel (notes ++ take page_size (left cursor)) (some c) s
  unfolding page_through api after_page next_page
  full_round fuel notes cursor c e l = ap (round fuel notes) (
      list_notes-left cursor
      ∙ ap (λ p. (ok p, s)) (notes_page_full (take page_size (left cursor)) (some c) e l))

  page_through-left :
      (fuel : ℕ) (notes : List EncryptedNoteRow) (cursor : Option ℤ)
      → length (left cursor) / page_size < fuel
      → page_through get fuel notes cursor s ≡ some (ok (notes ++ left cursor), s)
  page_through-left zero notes cursor e = absurd (omega arith)
  page_through-left (suc fuel) notes cursor e =
      let k = left cursor in
      let page = take page_size k in
      elim (Bool-cases (nat_eq (length page) page_size)) [
        | inl e' ↦
            let (c, l, rest) = full_page cursor e' in
            let m : page_size ≤ length k =
              at_least (length page) (length k) (length-take page_size k)
                (is_full (length page) e') in
            let n : length (left (some c)) ≡ length k - page_size =
              ap length rest ∙ length-drop page_size k in
            full_round fuel notes cursor c e' l
            ∙ page_through-left fuel (notes ++ page) (some c)
                (subst (λ n. n / page_size < fuel) (sym n) (fewer (length k) fuel m e))
            ∙ ap (λ ns. some (ok ns, s))
                (append_assoc notes page (left (some c))
                  ∙ ap (◌++◌ notes) (ap (◌++◌ page) rest ∙ take-append-drop page_size k))
        | inr e' ↦ last_round fuel notes cursor e'
      ]

-- A cursor before every id leaves nothing out.
kept-after_all :
    (p : EncryptedNoteRow → Bool) (c : ℤ) (ns : List EncryptedNoteRow)
    → Behind c ns
    → kept (after p c) ns ≡ kept p ns
unfolding kept
kept-after_all p c [] b = refl
kept-after_all p c (n ∷ ns) b = rw (b.0, kept-after_all p c ns b.1) refl

-- The loop of `generate` over the pages of the API ends, within one request for each 500 notes of the pool
-- and one more, and has then collected exactly the notes of the pool, each once and in order. It holds
-- while the database answers and nothing is inserted, for ids that are positive and grow.
pub page_through-all :
    (h : TreeHasher) (hex : Hex) (pool : String) (s : Server) (fuel : ℕ)
    → Ascending s.db.encrypted_notes
    → Behind (pos 0) s.db.encrypted_notes
    → s.answers ≡ []
    → length (kept (in_pool (some pool)) s.db.encrypted_notes) / page_size < fuel
    → page_through ((api h hex).notes_page pool) fuel [] none s
      ≡ some (ok (kept (in_pool (some pool)) s.db.encrypted_notes), s)
unfolding left
page_through-all h hex pool s fuel a b up e =
    let same = kept-after_all (in_pool (some pool)) (pos 0) s.db.encrypted_notes b in
    page_through-left h hex pool s a up fuel [] none
      (subst (λ ns. length ns / page_size < fuel) (sym same) e)
    ∙ ap (λ ns. some (ok ns, s)) same

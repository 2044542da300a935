-- ===== src/Notes/Order.antt =====
-- The order of the notes of crates/attesta-api/src/routes/notes.rs: ids grow in the order of insertion, so
-- that a query with a cursor reads the rest of the table, and the last id of a page is the next cursor.
use attesta_protocol_backend.Prelude.{
  ℕ, zero, suc, ◌≡◌, refl, Bool, true, false, ◌&&◌, List, [], ◌∷◌, ◌++◌, arith, All, if◌then◌else◌,
  take, drop,
}
use attesta_protocol_backend.Prelude.Int.{ℤ, ltb_ℤ}
use attesta_protocol_backend.Database.{EncryptedNoteRow}
use attesta_protocol_backend.Notes.{insert_by_id, select_notes, last_id, id_or}

-- Every id is greater than this one.
abbrev pub Behind : ℤ → List EncryptedNoteRow → Type 0
Behind c ns = All (λ m. ltb_ℤ c m.id ≡ true) ns

-- Ids grow, as `drain_new_notes` sends them.
abbrev pub Ascending : List EncryptedNoteRow → Type 0
Ascending [] = Unit
Ascending (n ∷ ns) = Behind n.id ns × Ascending ns

pub ltb_ℤ_trans : (a b c : ℤ) → ltb_ℤ a b ≡ true → ltb_ℤ b c ≡ true → ltb_ℤ a c ≡ true
ltb_ℤ_trans a b c h k = ground arith

-- a ≤ b and b ≥ c, by the tests.
pub not_before : (a b c : ℤ) → ltb_ℤ b a ≡ false → ltb_ℤ a c ≡ false → ltb_ℤ b c ≡ false
not_before a b c h k = ground arith

pub not_after : (a b : ℤ) → ltb_ℤ a b ≡ true → ltb_ℤ b a ≡ false
not_after a b h = ground arith

unfoldable pub kept : (EncryptedNoteRow → Bool) → List EncryptedNoteRow → List EncryptedNoteRow
kept test [] = []
kept test (n ∷ ns) = let rest = kept test ns in if test n then n ∷ rest else rest

-- The test of a query with a cursor.
abbrev pub after : (EncryptedNoteRow → Bool) → ℤ → EncryptedNoteRow → Bool
after p c n = ltb_ℤ c n.id && p n

module _ (Q : EncryptedNoteRow → Type 0) where
  All-kept :
      (test : EncryptedNoteRow → Bool) (ns : List EncryptedNoteRow)
      → All Q ns
      → All Q (kept test ns)
  unfolding kept
  All-kept test [] a = tt
  All-kept test (n ∷ ns) a = ground (arith, All-kept test ns a.1)

  pub All-take : (k : ℕ) (ns : List EncryptedNoteRow) → All Q ns → All Q (take k ns)
  All-take zero ns a = tt
  All-take (suc k) [] a = tt
  All-take (suc k) (n ∷ ns) a = (a.0, All-take k ns a.1)

  pub All-append_right : (ms ns : List EncryptedNoteRow) → All Q (ms ++ ns) → All Q ns
  All-append_right [] ns a = a
  All-append_right (m ∷ ms) ns a = All-append_right ms ns a.1

  pub All-append_left : (ms ns : List EncryptedNoteRow) → All Q (ms ++ ns) → All Q ms
  All-append_left [] ns a = tt
  All-append_left (m ∷ ms) ns a = (a.0, All-append_left ms ns a.1)

pub Ascending-append_left : (ms ns : List EncryptedNoteRow) → Ascending (ms ++ ns) → Ascending ms
Ascending-append_left [] ns a = tt
Ascending-append_left (m ∷ ms) ns a =
    (All-append_left (λ n. ltb_ℤ m.id n.id ≡ true) ms ns a.0, Ascending-append_left ms ns a.1)

pub Ascending-drop : (k : ℕ) (ns : List EncryptedNoteRow) → Ascending ns → Ascending (drop k ns)
Ascending-drop zero ns a = a
Ascending-drop (suc k) [] a = tt
Ascending-drop (suc k) (n ∷ ns) a = Ascending-drop k ns a.1

-- A query in the order of the ids reads the rows as they stand.
insert_by_id-Behind :
    (r : EncryptedNoteRow) (rows : List EncryptedNoteRow)
    → Behind r.id rows
    → insert_by_id r rows ≡ r ∷ rows
unfolding insert_by_id
insert_by_id-Behind r [] b = refl
insert_by_id-Behind r (x ∷ rows) b = rw (not_after r.id x.id b.0) refl

pub select_notes-kept :
    (test : EncryptedNoteRow → Bool) (rows : List EncryptedNoteRow)
    → Ascending rows
    → select_notes test rows ≡ kept test rows
unfolding select_notes kept
select_notes-kept test [] a = refl
select_notes-kept test (x ∷ rows) a =
    rw
      (
        select_notes-kept test rows a.1,
        insert_by_id-Behind x (kept test rows)
            (All-kept (λ m. ltb_ℤ x.id m.id ≡ true) test rows a.0),
      )
      refl

-- The cursor that a list of notes leaves.
last_id_irrelevant :
    (d e : ℤ) (x : EncryptedNoteRow) (xs : List EncryptedNoteRow)
    → id_or d (last_id (x ∷ xs)) ≡ id_or e (last_id (x ∷ xs))
unfolding last_id
last_id_irrelevant d e x [] = refl
last_id_irrelevant d e x (y ∷ xs) = last_id_irrelevant d e y xs

pub last_id-cons :
    (d : ℤ) (x : EncryptedNoteRow) (xs : List EncryptedNoteRow)
    → id_or d (last_id (x ∷ xs)) ≡ id_or x.id (last_id xs)
unfolding last_id
last_id-cons d x [] = refl
last_id-cons d x (y ∷ xs) = last_id_irrelevant d x.id y xs

pub last_id-ge :
    (c : ℤ) (xs : List EncryptedNoteRow)
    → Behind c xs
    → Ascending xs
    → ltb_ℤ (id_or c (last_id xs)) c ≡ false
unfolding last_id
last_id-ge c [] b a = ground arith
last_id-ge c (x ∷ xs) b a = rw (last_id-cons c x xs) (
    not_before x.id (id_or x.id (last_id xs)) c (last_id-ge x.id xs a.0 a.1) (not_after c x.id b.0))

module _ (p : EncryptedNoteRow → Bool) where
  pub kept_from :
      (a b : ℤ) (ns : List EncryptedNoteRow)
      → ltb_ℤ a b ≡ true
      → Behind b ns
      → kept (after p b) ns ≡ kept (after p a) ns
  unfolding kept
  kept_from a b [] h k = refl
  kept_from a b (n ∷ ns) h k =
      let first : ltb_ℤ a n.id ≡ true = ltb_ℤ_trans a b n.id h k.0 in
      rw (k.0, first, kept_from a b ns h k.1) refl

pub kept-Ascending :
    (test : EncryptedNoteRow → Bool) (ns : List EncryptedNoteRow)
    → Ascending ns
    → Ascending (kept test ns)
unfolding kept
kept-Ascending test [] a = tt
kept-Ascending test (n ∷ ns) a =
    ground (arith, All-kept (λ m. ltb_ℤ n.id m.id ≡ true) test ns a.0, kept-Ascending test ns a.1)

pub take-Ascending : (k : ℕ) (ns : List EncryptedNoteRow) → Ascending ns → Ascending (take k ns)
take-Ascending zero ns a = tt
take-Ascending (suc k) [] a = tt
take-Ascending (suc k) (n ∷ ns) a =
    (All-take (λ m. ltb_ℤ n.id m.id ≡ true) k ns a.0, take-Ascending k ns a.1)

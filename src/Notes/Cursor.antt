-- ===== src/Notes/Cursor.antt =====
-- The cursor that a page of notes leaves, and the query from it, in crates/attesta-api/src/routes/notes.rs.
use attesta_protocol_backend.Prelude.{
  ℕ, zero, suc, ◌≡◌, refl, ap, Bool, true, false, List, [], ◌∷◌, arith, Bool-cases, inl, inr, take,
  drop,
}
use attesta_protocol_backend.Prelude.Int.{ℤ, ltb_ℤ}
use attesta_protocol_backend.Database.{EncryptedNoteRow}
use attesta_protocol_backend.Notes.{last_id, id_or}
use attesta_protocol_backend.Notes.Order.{
  Behind, Ascending, kept, after, All-take, last_id-cons, last_id-ge, kept_from, kept-Ascending,
  take-Ascending,
}

module _ (p : EncryptedNoteRow → Bool) where
  kept-Behind : (c : ℤ) (ns : List EncryptedNoteRow) → Behind c (kept (after p c) ns)
  unfolding kept
  kept-Behind c [] = tt
  kept-Behind c (n ∷ ns) = ground (arith, kept-Behind c ns)

  -- The cursor after the first `k` notes of a query.
  unfoldable pub next_cursor : ℤ → ℕ → List EncryptedNoteRow → ℤ
  unfolding kept
  next_cursor c k ns = id_or c (last_id (take k (kept (after p c) ns)))

  pub next_cursor-ge :
      (c : ℤ) (k : ℕ) (ns : List EncryptedNoteRow)
      → Ascending ns
      → ltb_ℤ (next_cursor c k ns) c ≡ false
  unfolding next_cursor
  next_cursor-ge c k ns a =
      last_id-ge c (take k (kept (after p c) ns))
        (All-take (λ m. ltb_ℤ c m.id ≡ true) k (kept (after p c) ns) (kept-Behind c ns))
        (take-Ascending k (kept (after p c) ns) (kept-Ascending (after p c) ns a))

  next_cursor-cons :
      (c : ℤ) (k : ℕ) (n : EncryptedNoteRow) (ns : List EncryptedNoteRow)
      → Behind n.id ns
      → after p c n ≡ true
      → next_cursor c (suc k) (n ∷ ns) ≡ next_cursor n.id k ns
  unfolding next_cursor kept
  next_cursor-cons c k n ns b e =
      let later : ltb_ℤ c n.id ≡ true = ground arith in
      rw (e, kept_from p c n.id ns later b) (last_id-cons c n (take k (kept (after p c) ns)))

  next_cursor-skip :
      (c : ℤ) (k : ℕ) (n : EncryptedNoteRow) (ns : List EncryptedNoteRow)
      → after p c n ≡ false
      → next_cursor c k (n ∷ ns) ≡ next_cursor c k ns
  unfolding next_cursor kept
  next_cursor-skip c k n ns e = rw e refl

  pub seen_before :
      (l : ℤ) (n : EncryptedNoteRow) (ns : List EncryptedNoteRow)
      → after p l n ≡ false
      → kept (after p l) (n ∷ ns) ≡ kept (after p l) ns
  unfolding kept
  seen_before l n ns e = rw e refl

  pub kept_head :
      (c : ℤ) (n : EncryptedNoteRow) (ns : List EncryptedNoteRow)
      → Behind n.id ns
      → after p c n ≡ true
      → kept (after p c) (n ∷ ns) ≡ n ∷ kept (after p n.id) ns
  unfolding kept
  kept_head c n ns b e =
      let later : ltb_ℤ c n.id ≡ true = ground arith in rw (e, kept_from p c n.id ns later b) refl

  not_after_ge : (l : ℤ) (n : EncryptedNoteRow) → ltb_ℤ l n.id ≡ false → after p l n ≡ false
  not_after_ge l n h = rw h refl

  still_not :
      (c l : ℤ) (n : EncryptedNoteRow)
      → after p c n ≡ false
      → ltb_ℤ l c ≡ false
      → after p l n ≡ false
  still_not c l n e h = ground arith

  kept-next_cursor_taken :
      (c : ℤ) (k : ℕ) (n : EncryptedNoteRow) (ns : List EncryptedNoteRow)
      → Ascending (n ∷ ns)
      → after p c n ≡ true
      → kept (after p (next_cursor n.id k ns)) ns ≡ drop k (kept (after p n.id) ns)
      → kept (after p (next_cursor c (suc k) (n ∷ ns))) (n ∷ ns)
        ≡ drop (suc k) (kept (after p c) (n ∷ ns))
  kept-next_cursor_taken c k n ns a e ih =
      let l = next_cursor n.id k ns in
      rw
        (
          next_cursor-cons c k n ns a.0 e,
          kept_head c n ns a.0 e,
          seen_before l n ns (not_after_ge l n (next_cursor-ge n.id k ns a.1)),
        )
        ih

  kept-next_cursor_skipped :
      (c : ℤ) (k : ℕ) (n : EncryptedNoteRow) (ns : List EncryptedNoteRow)
      → Ascending (n ∷ ns)
      → after p c n ≡ false
      → kept (after p (next_cursor c k ns)) ns ≡ drop k (kept (after p c) ns)
      → kept (after p (next_cursor c k (n ∷ ns))) (n ∷ ns) ≡ drop k (kept (after p c) (n ∷ ns))
  kept-next_cursor_skipped c k n ns a e ih =
      let l = next_cursor c k ns in
      rw
        (
          next_cursor-skip c k n ns e,
          seen_before c n ns e,
          seen_before l n ns (still_not c l n e (next_cursor-ge c k ns a.1)),
        )
        ih

  next_cursor_zero : (c : ℤ) (ns : List EncryptedNoteRow) → next_cursor c 0 ns ≡ c
  unfolding next_cursor last_id
  next_cursor_zero c ns = refl

  pub kept_nil : (c : ℤ) → kept (after p c) [] ≡ []
  unfolding kept
  kept_nil c = refl

  -- The query from the next cursor gives the notes behind the first `k`: none twice, and none left out.
  pub kept-next_cursor :
      (c : ℤ) (k : ℕ) (ns : List EncryptedNoteRow)
      → Ascending ns
      → kept (after p (next_cursor c k ns)) ns ≡ drop k (kept (after p c) ns)
  unfolding kept
  kept-next_cursor c zero ns a = ap (λ d. kept (after p d) ns) (next_cursor_zero c ns)
  kept-next_cursor c (suc k) [] a = refl
  kept-next_cursor c (suc k) (n ∷ ns) a = elim (Bool-cases (after p c n)) [
    | inl e ↦ kept-next_cursor_taken c k n ns a e (kept-next_cursor n.id k ns a.1)
    | inr e ↦ kept-next_cursor_skipped c (suc k) n ns a e (kept-next_cursor c (suc k) ns a.1)
  ]

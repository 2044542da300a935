-- ===== src/Tree/Newest.antt =====
-- The newest row of the root history at a point, in `get_root` of crates/attesta-api/src/routes/tree.rs.
use attesta_protocol_backend.Prelude.{
  ℕ, suc, ◌+◌, ◌<◌, ◌^◌, ◌≡◌, refl, sym, ◌∙◌, ap, Bool, true, false, ◌&&◌, String, none, some, List,
  [], ◌∷◌, ◌++◌, arith, All, Bool-cases, inl, inr, length, length-append, length-map, if◌then◌else◌,
}
use mathlib.Core.List.{map-append}
use attesta_protocol_backend.Prelude.Int.{ℤ, pos, as_i64, ltb_ℤ}
use attesta_protocol_backend.Prelude.Keys.{◌==◌, String_eq}
use attesta_protocol_backend.Database.{TreeRoot}
use attesta_protocol_backend.Merkle.{TreeHasher}
use attesta_protocol_backend.Tree.Roots.{newer, newest_root}
use attesta_protocol_backend.Tree.History.{Entry, nodes, row_of, history}
use attesta_protocol_backend.Tree.Rows.{of_pool, Below, as_i64-small, history-append, history-Below}

pub newest-of_pool :
    (pool : String) (q : TreeRoot → Bool) (rows : List TreeRoot)
    → newest_root (λ r. r.pool == pool && q r) rows
      ≡ newest_root (λ r. r.pool == pool && q r) (of_pool pool rows)
unfolding newest_root of_pool
newest-of_pool pool q [] = refl
newest-of_pool pool q (r ∷ rows) = elim (Bool-cases (r.pool == pool)) [
  | inl e ↦ rw (e, e, newest-of_pool pool q rows) refl
  | inr e ↦ rw (e, newest-of_pool pool q rows) refl
]

module _ (test : TreeRoot → Bool) where
  newest_none :
      (rows : List TreeRoot) → All (λ r. test r ≡ false) rows → newest_root test rows ≡ none
  unfolding newest_root
  newest_none [] a = refl
  newest_none (r ∷ rows) a = rw (a.0, newest_none rows a.1) refl

  newest_prefix :
      (xs ys : List TreeRoot)
      → All (λ r. test r ≡ false) ys
      → newest_root test (xs ++ ys) ≡ newest_root test xs
  unfolding newest_root
  newest_prefix [] ys a = newest_none ys a
  newest_prefix (x ∷ xs) ys a = rw (newest_prefix xs ys a) refl

  newest_last :
      (xs : List TreeRoot) (x : TreeRoot) (n : ℕ)
      → x.leaf_count ≡ pos n
      → Below n xs
      → test x ≡ true
      → newest_root test (xs ++ x ∷ []) ≡ some x
  unfolding newest_root newer
  newest_last [] x n c b e = rw e refl
  newest_last (y ∷ xs) x n c b e =
      let d : ltb_ℤ x.leaf_count y.leaf_count ≡ false =
        ap (λ c. ltb_ℤ c y.leaf_count) c ∙ above n y.leaf_count b.0 in
      rw (newest_last xs x n c b.1 e, d) (either (test y))
    where
      above : (n : ℕ) (c : ℤ) → ltb_ℤ c (pos n) ≡ true → ltb_ℤ (pos n) c ≡ false
      above n c e = ground arith

      either : (t : Bool) → (if t then some x else some x) ≡ some x
      either true = refl
      either false = refl

-- The row of a history behind which no row passes the test.
pub newest-history :
    (h : TreeHasher) (pool : String) (test : TreeRoot → Bool) (done : List Entry) (e : Entry)
    (later : List Entry)
    → length done + 1 < 2 ^ 63
    → test (row_of h pool (nodes (done ++ e ∷ [])) e.1) ≡ true
    → All (λ r. test r ≡ false) (history h pool (nodes (done ++ e ∷ [])) later)
    → newest_root test (history h pool [] ((done ++ e ∷ []) ++ later))
      ≡ some (row_of h pool (nodes (done ++ e ∷ [])) e.1)
unfolding history
newest-history h pool test done e later b i a =
    let r = row_of h pool (nodes (done ++ e ∷ [])) e.1 in
    let snoc : nodes (done ++ e ∷ []) ≡ nodes done ++ e.0 ∷ [] =
      map-append (λ (e : Entry). e.0) done (e ∷ []) in
    let n : length (nodes (done ++ e ∷ [])) ≡ suc (length done) =
      omega
        (arith, length-append done (e ∷ []), length-map (done ++ e ∷ []) (λ (e : Entry). e.0)) in
    let c : r.leaf_count ≡ pos (suc (length done)) =
      ap as_i64 n ∙ as_i64-small (suc (length done)) (omega arith) in
    ap (newest_root test) (history-append h pool [] (done ++ e ∷ []) later)
    ∙ newest_prefix test (history h pool [] (done ++ e ∷ []))
        (history h pool (nodes (done ++ e ∷ [])) later) a
    ∙ ap (newest_root test) (
        history-append h pool [] done (e ∷ [])
        ∙ ap (λ ns. history h pool [] done ++ row_of h pool ns e.1 ∷ []) (sym snoc))
    ∙ newest_last test (history h pool [] done) r (suc (length done)) c
        (history-Below h pool [] done (suc (length done)) (omega arith) (omega arith)) i

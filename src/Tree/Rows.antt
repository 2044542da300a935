-- ===== src/Tree/Rows.antt =====
-- The table of the root history of crates/attesta-api/src/routes/tree.rs: what an INSERT adds to the rows of a
-- pool, and what the newest row at a point is.
use attesta_protocol_backend.Prelude.{
  ℕ, suc, ◌+◌, ◌<◌, ◌^◌, ◌≡◌, refl, sym, ◌∙◌, ap, subst, Bool, true, false, ◌&&◌, ◌||◌, String,
  List, [], ◌∷◌, ◌++◌, arith, All, Bool-cases, inl, inr, length, length-append, length-map, ltb,
  if◌then◌else◌,
}
use mathlib.Core.List.{append_assoc, append-nil, map-append}
use attesta_protocol_backend.Prelude.Int.{ℤ, pos, negsuc, as_i64, ltb_ℤ}
use attesta_protocol_backend.Prelude.Keys.{◌==◌, ℤ_eq, String_eq, ==_refl}
use attesta_protocol_backend.Database.{TreeRoot}
use attesta_protocol_backend.Merkle.{Node, TreeHasher}
use attesta_protocol_backend.Tree.{has_root, insert_roots}
use attesta_protocol_backend.Tree.History.{Entry, nodes, row_of, history}

-- The rows of a pool.
unfoldable pub of_pool : String → List TreeRoot → List TreeRoot
of_pool pool [] = []
of_pool pool (r ∷ rows) = let rest = of_pool pool rows in if r.pool == pool then r ∷ rest else rest

pub as_i64-small : (n : ℕ) → n < 2 ^ 63 → as_i64 n ≡ pos n
unfolding as_i64
as_i64-small n b = let e : ltb n (2 ^ 63) ≡ true = ground arith in rw e refl

-- The rows are for fewer leaves than this.
abbrev pub Below : ℕ → List TreeRoot → Type 0
Below n rows = All (λ r. ltb_ℤ r.leaf_count (pos n) ≡ true) rows

below_ne : (a : ℤ) (n : ℕ) → ltb_ℤ a (pos n) ≡ true → (a == pos n) ≡ false
below_ne (pos m) n e = ground arith
below_ne (negsuc m) n e = refl

or_nothing : (b : Bool) → ((b && false) || false) ≡ false
or_nothing true = refl
or_nothing false = refl

module _ (h : TreeHasher) (pool : String) where
  of_pool-snoc :
      (r : TreeRoot) (rows : List TreeRoot)
      → (r.pool == pool) ≡ true
      → of_pool pool (rows ++ r ∷ []) ≡ of_pool pool rows ++ r ∷ []
  unfolding of_pool
  of_pool-snoc r [] e = rw e refl
  of_pool-snoc r (x ∷ rows) e = ground (arith, of_pool-snoc r rows e)

  has_root-of_pool :
      (r : TreeRoot) (rows : List TreeRoot)
      → r.pool ≡ pool
      → has_root r rows ≡ has_root r (of_pool pool rows)
  unfolding has_root of_pool
  has_root-of_pool r [] e = refl
  has_root-of_pool r (x ∷ rows) e = elim (Bool-cases (x.pool == pool)) [
    | inl i ↦
        let i' : (x.pool == r.pool) ≡ true = ap (λ p. x.pool == p) e ∙ i in
        rw (i, i', has_root-of_pool r rows e) refl
    | inr i ↦
        let i' : (x.pool == r.pool) ≡ false = ap (λ p. x.pool == p) e ∙ i in
        rw (i, i', has_root-of_pool r rows e) refl
  ]

  pub history-append :
      (leaves : List Node) (ls more : List Entry)
      → history h pool leaves (ls ++ more)
        ≡ history h pool leaves ls ++ history h pool (leaves ++ nodes ls) more
  unfolding history
  history-append leaves [] more = ap (λ ns. history h pool ns more) (sym (append-nil leaves))
  history-append leaves (e ∷ ls) more = ap (◌∷◌ (row_of h pool (leaves ++ e.0 ∷ []) e.1)) (
      history-append (leaves ++ e.0 ∷ []) ls more
      ∙ ap (λ ns. history h pool (leaves ++ e.0 ∷ []) ls ++ history h pool ns more)
          (append_assoc leaves (e.0 ∷ []) (nodes ls)))

  pub history-Below :
      (leaves : List Node) (ls : List Entry) (n : ℕ)
      → length leaves + length ls < n
      → n < 2 ^ 63
      → Below n (history h pool leaves ls)
  unfolding history
  history-Below leaves [] n b s = tt
  history-Below leaves (e ∷ ls) n b s =
      let m : length (leaves ++ e.0 ∷ []) ≡ suc (length leaves) =
        omega (arith, length-append leaves (e.0 ∷ [])) in
      let c : as_i64 (length (leaves ++ e.0 ∷ [])) ≡ pos (suc (length leaves)) =
        ap as_i64 m ∙ as_i64-small (suc (length leaves)) (omega arith) in
      (rw c (ground arith), history-Below (leaves ++ e.0 ∷ []) ls n (omega arith) s)

  has_root-Below :
      (r : TreeRoot) (n : ℕ) (rows : List TreeRoot)
      → r.leaf_count ≡ pos n
      → Below n rows
      → has_root r rows ≡ false
  unfolding has_root
  has_root-Below r n [] e b = refl
  has_root-Below r n (x ∷ rows) e b =
      let d : (x.leaf_count == r.leaf_count) ≡ false =
        ap (λ c. x.leaf_count == c) e ∙ below_ne x.leaf_count n b.0 in
      rw (d, has_root-Below r n rows e b.1) (or_nothing (x.pool == r.pool))

  -- A row that is new to the pool is added behind the others.
  insert_one :
      (r : TreeRoot) (n : ℕ) (rows : List TreeRoot)
      → r.pool ≡ pool
      → r.leaf_count ≡ pos n
      → Below n (of_pool pool rows)
      → of_pool pool (if has_root r rows then rows else rows ++ r ∷ [])
        ≡ of_pool pool rows ++ r ∷ []
  insert_one r n rows p e b =
      let new : has_root r rows ≡ false =
        has_root-of_pool r rows p ∙ has_root-Below r n (of_pool pool rows) e b in
      rw new (of_pool-snoc r rows (ap (λ p. p == pool) p ∙ ==_refl pool))

  pub insert_roots-history :
      (done ls : List Entry) (rows : List TreeRoot)
      → of_pool pool rows ≡ history h pool [] done
      → length done + length ls < 2 ^ 63
      → of_pool pool (insert_roots (history h pool (nodes done) ls) rows)
        ≡ history h pool [] (done ++ ls)
  unfolding insert_roots history
  insert_roots-history done [] rows e b = e ∙ ap (history h pool []) (sym (append-nil done))
  insert_roots-history done (l ∷ ls) rows e b =
      let r = row_of h pool (nodes done ++ l.0 ∷ []) l.1 in
      let n : length (nodes done ++ l.0 ∷ []) ≡ suc (length done) =
        omega
          (arith, length-append (nodes done) (l.0 ∷ []), length-map done (λ (e : Entry). e.0)) in
      let c : r.leaf_count ≡ pos (suc (length done)) =
        ap as_i64 n ∙ as_i64-small (suc (length done)) (omega arith) in
      let below : Below (suc (length done)) (of_pool pool rows) =
        subst (Below (suc (length done))) (sym e)
          (history-Below [] done (suc (length done)) (omega arith) (omega arith)) in
      let one = insert_one r (suc (length done)) rows refl c below in
      let snoc : nodes (done ++ l ∷ []) ≡ nodes done ++ l.0 ∷ [] =
        map-append (λ (e : Entry). e.0) done (l ∷ []) in
      let e' = one ∙ ap (λ rs. rs ++ r ∷ []) e ∙ sym (history-append [] done (l ∷ [])) in
      let m : length (done ++ l ∷ []) ≡ suc (length done) =
        omega (arith, length-append done (l ∷ [])) in
      ap
        (λ ns.
          of_pool pool (
            insert_roots (history h pool ns ls) (if has_root r rows then rows else rows ++ r ∷ [])))
        (sym snoc)
      ∙ insert_roots-history (done ++ l ∷ []) ls (if has_root r rows then rows else rows ++ r ∷ [])
          e' (omega arith)
      ∙ ap (history h pool []) (append_assoc done (l ∷ []) ls)

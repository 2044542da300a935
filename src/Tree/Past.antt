-- ===== src/Tree/Past.antt =====
-- What `get_root` of crates/attesta-api/src/routes/tree.rs answers from the root history.
use attesta_protocol_backend.Prelude.{
  ℕ, suc, ◌+◌, ◌<◌, ◌≤◌, ◌^◌, ◌≡◌, refl, ◌∙◌, ap, Bool, true, false, ◌&&◌, not, String, none, some,
  List, [], ◌∷◌, ◌++◌, arith, All, length, length-append, length-map, ◌==◌ as nat_eq,
}
use attesta_protocol_backend.Prelude.Int.{ℤ, pos, as_i64, ltb_ℤ}
use attesta_protocol_backend.Prelude.Keys.{◌==◌, String_eq, ==_refl}
use attesta_protocol_backend.Prelude.Exec.{ok, resume}
use attesta_protocol_backend.Database.{TreeRoot}
use attesta_protocol_backend.Events.Values.{to_32}
use attesta_protocol_backend.Merkle.{Node, TreeHasher}
use attesta_protocol_backend.Merkle.Root.{subtree}
use attesta_protocol_backend.Api.{Hex}
use attesta_protocol_backend.Tree.{PoolTree, Server, sync_pool_tree, hex0x}
use attesta_protocol_backend.Tree.Queries.{fetch_up}
use attesta_protocol_backend.Tree.Roots.{
  RootResponse, newest_root, by_ledger, by_leaf_count, both_given, recorded_root, past_root,
  root_at, get_root,
}
use attesta_protocol_backend.Tree.History.{Entry, nodes, top, row_of, history}
use attesta_protocol_backend.Tree.Rows.{as_i64-small}
use attesta_protocol_backend.Tree.Newest.{newest-of_pool, newest-history}
use attesta_protocol_backend.Tree.Recorded.{Recorded}

-- The hash function returns 32 bytes, as the type of a node says.
abbrev pub Returns32 : TreeHasher → Type 0
Returns32 h = (a b : Node) → length (h.hash_pair a b) ≡ 32

to_32-of_length : (b : Node) → length b ≡ 32 → to_32 b ≡ some b
unfolding to_32
to_32-of_length b e = let i : nat_eq (length b) 32 ≡ true = ground arith in rw i refl

subtree-length :
    (h : TreeHasher) (z : Node) (d : ℕ) (xs : List Node)
    → Returns32 h
    → length (subtree h z (suc d) xs) ≡ 32
unfolding subtree
subtree-length h z d xs k = k _ _

to_32-top :
    (h : TreeHasher) (leaves : List Node) → Returns32 h → to_32 (top h leaves) ≡ some (top h leaves)
unfolding top
to_32-top h leaves k = to_32-of_length (top h leaves) (subtree-length h h.empty_leaf 31 leaves k)

-- The answer for the tree of these entries.
abbrev pub answer_for : TreeHasher → Hex → String → List Entry → ℤ → RootResponse
answer_for h hex pool ls ledger = record {
  pool = pool;
  root = hex0x hex (top h (nodes ls));
  leaf_count = as_i64 (length (nodes ls));
  anchored_ledger = ledger;
}

module _ (h : TreeHasher) (hex : Hex) (pool : String) (k : Returns32 h) where
  recorded_root-row :
      (ls : List Entry) (ledger : ℤ) (s : Server)
      → recorded_root hex pool (some (row_of h pool (nodes ls) ledger)) s
        ≡ (ok (answer_for h hex pool ls ledger), s)
  unfolding recorded_root
  recorded_root-row ls ledger s = rw (to_32-top h (nodes ls) k) refl

  -- The lookup with a test that the row of this entry passes, and no later one.
  pub past_root-row :
      (q : TreeRoot → Bool) (done : List Entry) (e : Entry) (later : List Entry) (s : Server)
      → Recorded h pool s ((done ++ e ∷ []) ++ later)
      → s.answers ≡ []
      → length done + 1 < 2 ^ 63
      → q (row_of h pool (nodes (done ++ e ∷ [])) e.1) ≡ true
      → All (λ r. (r.pool == pool && q r) ≡ false) (history h pool (nodes (done ++ e ∷ [])) later)
      → past_root hex pool (λ r. r.pool == pool && q r) s
        ≡ (ok (answer_for h hex pool (done ++ e ∷ []) e.1), s)
  unfolding past_root
  past_root-row q done e later s m up b i a =
      let test = λ (r : TreeRoot). r.pool == pool && q r in
      let row = row_of h pool (nodes (done ++ e ∷ [])) e.1 in
      let found : newest_root test s.db.tree_roots ≡ some row =
        newest-of_pool pool q s.db.tree_roots
        ∙ ap (newest_root test) m.rows
        ∙ newest-history h pool test done e later b (rw (==_refl pool) i) a in
      ap (λ r. resume r (recorded_root hex pool))
        (fetch_up (λ db. newest_root test db.tree_roots) s up ∙ ap (λ r. (ok r, s)) found)
      ∙ recorded_root-row (done ++ e ∷ []) e.1 s

  after : (n m : ℕ) → n ≤ m → ltb_ℤ (pos n) (pos (suc m)) ≡ true
  after n m e = ground arith

  -- The rows behind a point, by their number of leaves.
  more_leaves :
      (leaves : List Node) (later : List Entry) (n : ℕ)
      → n ≤ length leaves
      → length leaves + length later < 2 ^ 63
      → All (λ r. by_leaf_count pool (pos n) r ≡ false) (history h pool leaves later)
  unfolding history
  more_leaves leaves [] n e b = tt
  more_leaves leaves (l ∷ later) n e b =
      let m : length (leaves ++ l.0 ∷ []) ≡ suc (length leaves) =
        omega (arith, length-append leaves (l.0 ∷ [])) in
      let c : as_i64 (length (leaves ++ l.0 ∷ [])) ≡ pos (suc (length leaves)) =
        ap as_i64 m ∙ as_i64-small (suc (length leaves)) (omega arith) in
      let d : ltb_ℤ (pos n) (as_i64 (length (leaves ++ l.0 ∷ []))) ≡ true =
        ap (ltb_ℤ (pos n)) c ∙ after n (length leaves) e in
      (
        rw (d, ==_refl pool) refl,
        more_leaves (leaves ++ l.0 ∷ []) later n (omega arith) (omega arith),
      )

  -- And by their ledgers.
  more_ledgers :
      (leaves : List Node) (later : List Entry) (at : ℤ)
      → All (λ (l : Entry). ltb_ℤ at l.1 ≡ true) later
      → All (λ r. by_ledger pool at r ≡ false) (history h pool leaves later)
  unfolding history
  more_ledgers leaves [] at a = tt
  more_ledgers leaves (l ∷ later) at a =
      (rw (a.0, ==_refl pool) refl, more_ledgers (leaves ++ l.0 ∷ []) later at a.1)

  pub past_root-at_ledger :
      (done : List Entry) (e : Entry) (later : List Entry) (at : ℤ) (s : Server)
      → Recorded h pool s ((done ++ e ∷ []) ++ later)
      → s.answers ≡ []
      → length done + 1 < 2 ^ 63
      → ltb_ℤ at e.1 ≡ false
      → All (λ (l : Entry). ltb_ℤ at l.1 ≡ true) later
      → past_root hex pool (by_ledger pool at) s
        ≡ (ok (answer_for h hex pool (done ++ e ∷ []) e.1), s)
  past_root-at_ledger done e later at s m up b i a =
      past_root-row (λ r. not (ltb_ℤ at r.ledger)) done e later s m up b (ap not i)
        (more_ledgers (nodes (done ++ e ∷ [])) later at a)

-- While the database answers and the history agrees with the tree, `get_root` with `at_leaf_count` = n
-- answers, for every n from 1 to the number of leaves, with the root of the tree of the first n leaves, with
-- n, and with the ledger of the nth leaf. It holds for a hash function that returns 32 bytes and fewer than
-- 2^63 leaves.
pub get_root-at_leaf_count :
    (h : TreeHasher) (hex : Hex) (pool : String) (s : Server) (t : PoolTree) (s' : Server)
    (done : List Entry) (e : Entry) (later : List Entry)
    → Returns32 h
    → sync_pool_tree h pool s ≡ (ok t, s')
    → Recorded h pool s' ((done ++ e ∷ []) ++ later)
    → s'.answers ≡ []
    → length done + 1 + length later < 2 ^ 63
    → get_root h hex pool
        (record { at_ledger = none; at_leaf_count = some (pos (length done + 1)) })
        s
      ≡ (
        ok (record {
          pool = pool;
          root = hex0x hex (top h (nodes (done ++ e ∷ [])));
          leaf_count = pos (length done + 1);
          anchored_ledger = e.1;
        }),
        s',
      )
unfolding get_root root_at both_given
get_root-at_leaf_count h hex pool s t s' done e later k sync m up b =
    let n : length (nodes (done ++ e ∷ [])) ≡ length done + 1 =
      omega
        (arith, length-append done (e ∷ []), length-map (done ++ e ∷ []) (λ (e : Entry). e.0)) in
    let c : as_i64 (length (nodes (done ++ e ∷ []))) ≡ pos (length done + 1) =
      ap as_i64 n ∙ as_i64-small (length done + 1) (omega arith) in
    ap (λ r. resume r (root_at hex pool none (some (pos (length done + 1))))) sync
    ∙ past_root-row h hex pool k (λ r. not (ltb_ℤ (pos (length done + 1)) r.leaf_count)) done e
        later s' m up (omega arith)
        (ap (λ c. not (ltb_ℤ (pos (length done + 1)) c)) c ∙ ap not (itself (length done + 1)))
        (more_leaves h hex pool k (nodes (done ++ e ∷ [])) later (length done + 1) (omega arith)
          (omega arith))
    ∙ ap (λ c. (ok (record (answer_for h hex pool (done ++ e ∷ []) e.1) { leaf_count = c }), s')) c
  where
    itself : (n : ℕ) → ltb_ℤ (pos n) (pos n) ≡ false
    itself n = ground arith

-- ===== src/Tree/Recorded.antt =====
-- The root history of a pool agrees with its tree: `sync_pool_tree` of crates/attesta-api/src/routes/tree.rs.
use Prim.Native.String.{◌++◌ as str_append}
use attesta_protocol_backend.Prelude.{
  ◌+◌, ◌<◌, ◌≤◌, ◌^◌, ◌≡◌, refl, sym, ◌∙◌, ap, subst, Bool, true, false, String, some, List, [],
  ◌∷◌, ◌++◌, arith, All, length, length-map, if◌then◌else◌,
}
use attesta_protocol_backend.Prelude.Int.{ℤ, pos, as_i64, ltb_ℤ, max_ℤ}
use attesta_protocol_backend.Prelude.Keys.{String_eq, ==_refl}
use attesta_protocol_backend.Prelude.HashMap.{find, insert, find-insert}
use attesta_protocol_backend.Prelude.Exec.{Result, ok, err, pure, fail, resume}
use attesta_protocol_backend.Database.{CommitmentRow, TreeRoot}
use attesta_protocol_backend.Merkle.{TreeHasher, len, is_empty}
use attesta_protocol_backend.Merkle.Append.{mirror, len-mirror}
use attesta_protocol_backend.Api.{Fault, answers_error, not_found}
use attesta_protocol_backend.Tree.{
  PoolTree, Server, or_default, execute, write, answered, select_leaves, append_rows, store_tree,
  insert_roots, flush_roots, unless_empty, sync_pool_tree,
}
use attesta_protocol_backend.Tree.Queries.{fetch_up}
use attesta_protocol_backend.Tree.History.{
  Entry, nodes, history, anchor, Gathers, GathersIf, append_rows-GathersIf, select_leaves-length,
}
use attesta_protocol_backend.Tree.Rows.{of_pool, insert_roots-history}

abbrev pub cached : TreeHasher → String → Server → PoolTree
cached h pool s = or_default h (find pool s.trees)

-- The tree of the pool is the tree of these entries, and the table holds the root after each of them.
pub record Recorded (h : TreeHasher) (pool : String) (s : Server) (ls : List Entry) : Type 0 where
  pub tree : (cached h pool s).tree ≡ mirror h (nodes ls)
  pub anchored : (cached h pool s).anchored_ledger ≡ anchor (pos 0) ls
  pub rows : of_pool pool s.db.tree_roots ≡ history h pool [] ls

-- The commitments that the next top-up reads.
abbrev pub waiting : String → List Entry → Server → List CommitmentRow
waiting pool ls s = select_leaves pool (as_i64 (length ls)) s.db.commitments

-- What a top-up leaves, with the tree that it returns.
pub record ToppedUp (h : TreeHasher) (pool : String) (s : Server) (ls : List Entry) (t : PoolTree)
    (s' : Server) : Type 0 where
  pub entries : List Entry
  pub recorded : Recorded h pool s' (ls ++ entries)
  pub same : cached h pool s' ≡ t
  pub up : s'.answers ≡ []
  pub few : length entries ≤ length (waiting pool ls s)
  pub later :
      (a : ℤ)
      → All (λ (r : CommitmentRow). ltb_ℤ a r.ledger ≡ true) (waiting pool ls s)
      → All (λ (e : Entry). ltb_ℤ a e.1 ≡ true) entries
  pub nonempty : is_empty t.tree ≡ false

pub anchor-append :
    (a : ℤ) (ls more : List Entry) → anchor a (ls ++ more) ≡ anchor (anchor a ls) more
unfolding anchor
anchor-append a [] more = refl
anchor-append a (e ∷ ls) more = anchor-append (max_ℤ a e.1) ls more

nodes-append : (ls more : List Entry) → nodes (ls ++ more) ≡ nodes ls ++ nodes more
nodes-append [] more = refl
nodes-append (e ∷ ls) more = ap (◌∷◌ e.0) (nodes-append ls more)

abbrev add_roots : List TreeRoot → Server → Server
add_roots new_roots s = record s {
  db = record s.db { tree_roots = insert_roots new_roots s.db.tree_roots };
}

flush_roots-up :
    (new_roots : List TreeRoot) (s : Server)
    → s.answers ≡ []
    → flush_roots new_roots s ≡ (ok tt, add_roots new_roots s)
unfolding flush_roots execute write answered insert_roots
flush_roots-up [] s e = refl
flush_roots-up (r ∷ new_roots) s e =
    ap (λ answers. answered answers (λ s. (ok tt, add_roots (r ∷ new_roots) s)) s) e

abbrev or_fail : Fault → PoolTree → Server → Bool → Result Fault PoolTree × Server
or_fail e t s true = (err e, s)
or_fail e t s false = (ok t, s)

returned :
    (b : Bool) (e : Fault) (t t' : PoolTree) (s s' : Server)
    → or_fail e t s b ≡ (ok t', s')
    → (b ≡ false) × (t ≡ t') × (s ≡ s')
returned true e t t' s s' h = absurd (cc)
returned false e t t' s s' h = (refl, cc, cc)

unless_empty-or_fail :
    (pool : String) (t : PoolTree) (s : Server)
    → unless_empty pool t s
      ≡ or_fail
          (answers_error (not_found (str_append "unknown or empty pool: " pool)))
          t
          s
          (is_empty t.tree)
unfolding unless_empty
unless_empty-or_fail pool t s = either (is_empty t.tree)
  where
    either :
        (b : Bool)
        → (if b
              then fail (answers_error (not_found (str_append "unknown or empty pool: " pool)))
              else pure t)
            s
          ≡ or_fail (answers_error (not_found (str_append "unknown or empty pool: " pool))) t s b
    either true = refl
    either false = refl

unless_empty-ok :
    (pool : String) (t t' : PoolTree) (s s' : Server)
    → unless_empty pool t s ≡ (ok t', s')
    → (is_empty t.tree ≡ false) × (t ≡ t') × (s ≡ s')
unless_empty-ok pool t t' s s' e =
    returned (is_empty t.tree) _ t t' s s' (sym (unless_empty-or_fail pool t s) ∙ e)

find-insert_self :
    (pool : String) (t : PoolTree) (s : Server) → find pool (insert pool t s.trees) ≡ some t
find-insert_self pool t s =
    find-insert pool pool t s.trees
    ∙ ap (λ b. if b then some t else find pool s.trees) (==_refl pool)

module _ (h : TreeHasher) (pool : String) (s : Server) (ls : List Entry) (m : Recorded h pool s ls)
    (up : s.answers ≡ []) (small : length ls + length s.db.commitments < 2 ^ 63) where
  -- The state with the tree as the loop leaves it, and the rows that it gathered.
  abbrev topped : PoolTree → List TreeRoot → Server
  topped t new_roots =
      add_roots new_roots
        (record s { trees = insert pool t (insert pool (cached h pool s) s.trees) })

  topped_up :
      (t : PoolTree) (new_roots : List TreeRoot)
      → Gathers h pool (nodes ls) (cached h pool s) (waiting pool ls s) new_roots t
      → is_empty t.tree ≡ false
      → ToppedUp h pool s ls t (topped t new_roots)
  unfolding or_default
  topped_up t new_roots g e =
      let same : cached h pool (topped t new_roots) ≡ t =
        ap (or_default h)
          (find-insert_self pool t (record s { trees = insert pool (cached h pool s) s.trees })) in
      let fits : length ls + length g.entries < 2 ^ 63 =
        omega (arith, g.few, select_leaves-length h pool (as_i64 (length ls)) s.db.commitments) in
      record {
        entries = g.entries;
        recorded = record {
          tree = ap (λ t. t.tree) same ∙ g.tree ∙ ap (mirror h) (sym (nodes-append ls g.entries));
          anchored =
              ap (λ t. t.anchored_ledger) same
              ∙ g.anchored
              ∙ ap (λ a. anchor a g.entries) m.anchored
              ∙ sym (anchor-append (pos 0) ls g.entries);
          rows =
              ap (λ rs. of_pool pool (insert_roots rs s.db.tree_roots)) g.gathered
              ∙ insert_roots-history h pool ls g.entries s.db.tree_roots m.rows fits;
        };
        same = same;
        up = up;
        few = g.few;
        later = g.later;
        nonempty = e;
      }

  -- The rest of a top-up, once the rows were read.
  abbrev rest_of : Result Fault (List TreeRoot) × PoolTree → Result Fault PoolTree × Server
  rest_of r =
      resume (store_tree pool r (record s { trees = insert pool (cached h pool s) s.trees }))
        λ topped_up s. resume (flush_roots topped_up.0 s) λ _ s. unless_empty pool topped_up.1 s

  finish :
      (r : Result Fault (List TreeRoot) × PoolTree) (t : PoolTree) (s' : Server)
      → GathersIf h pool (nodes ls) (cached h pool s) (waiting pool ls s) r
      → rest_of r ≡ (ok t, s')
      → ToppedUp h pool s ls t s'
  unfolding store_tree
  finish (err x, t₁) t s' g e = absurd (cc)
  finish (ok new_roots, t₁) t s' g e =
      let s₁ = record s { trees = insert pool t₁ (insert pool (cached h pool s) s.trees) } in
      let (n, p, q) = unless_empty-ok pool t₁ t (topped t₁ new_roots) s' (
        sym (ap (λ r. resume r (λ _ s. unless_empty pool t₁ s)) (flush_roots-up new_roots s₁ up))
        ∙ e) in
      subst (λ t. ToppedUp h pool s ls t s') p
        (subst (ToppedUp h pool s ls t₁) q (topped_up t₁ new_roots g n))

  sync_pool_tree-rest :
      sync_pool_tree h pool s ≡ rest_of (append_rows pool (waiting pool ls s) (cached h pool s))
  unfolding sync_pool_tree
  sync_pool_tree-rest =
      let n : len (cached h pool s).tree ≡ length ls =
        ap len m.tree ∙ len-mirror h (nodes ls) ∙ length-map ls (λ (e : Entry). e.0) in
      ap
        (λ r. resume r (λ rows s₁.
          resume (store_tree pool (append_rows pool rows (cached h pool s)) s₁) λ topped_up s.
            resume (flush_roots topped_up.0 s) λ _ s. unless_empty pool topped_up.1 s))
        (fetch_up (λ db. select_leaves pool (as_i64 (len (cached h pool s).tree)) db.commitments)
          (record s { trees = insert pool (cached h pool s) s.trees }) up)
      ∙ ap
          (λ n.
            rest_of
              (append_rows pool (select_leaves pool (as_i64 n) s.db.commitments) (cached h pool s)))
          n

pub sync_pool_tree-ToppedUp :
    (h : TreeHasher) (pool : String) (s : Server) (ls : List Entry) (t : PoolTree) (s' : Server)
    → Recorded h pool s ls
    → s.answers ≡ []
    → length ls + length s.db.commitments < 2 ^ 63
    → sync_pool_tree h pool s ≡ (ok t, s')
    → ToppedUp h pool s ls t s'
sync_pool_tree-ToppedUp h pool s ls t s' m up small e =
    finish h pool s ls m up small (append_rows pool (waiting pool ls s) (cached h pool s)) t s'
      (append_rows-GathersIf h pool (waiting pool ls s) (cached h pool s) (nodes ls) m.tree)
      (sym (sync_pool_tree-rest h pool s ls m up small) ∙ e)

-- While the database answers, a top-up that returns a tree keeps the tree and the root history of a pool in
-- agreement, for the earlier leaves and some new ones behind them: the returned tree is the tree of these
-- leaves, its anchored ledger is the newest of their ledgers, and `tree_roots` holds, for the pool, exactly
-- one row for each leaf, in order, with the root that the tree had after that leaf. It holds for fewer
-- than 2^63 leaves and commitments.
pub sync_pool_tree-Recorded :
    (h : TreeHasher) (pool : String) (s : Server) (ls : List Entry) (t : PoolTree) (s' : Server)
    → Recorded h pool s ls
    → s.answers ≡ []
    → length ls + length s.db.commitments < 2 ^ 63
    → sync_pool_tree h pool s ≡ (ok t, s')
    → (new : List Entry) × Recorded h pool s' (ls ++ new) × (cached h pool s' ≡ t)
sync_pool_tree-Recorded h pool s ls t s' m up small e =
    let top = sync_pool_tree-ToppedUp h pool s ls t s' m up small e in
    (top.entries, top.recorded, top.same)

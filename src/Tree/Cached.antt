-- ===== src/Tree/Cached.antt =====
-- The tree that a top-up of crates/attesta-api/src/routes/tree.rs returns stays in the cache.
use attesta_protocol_backend.Prelude.{
  ◌≡◌, refl, ◌∙◌, ap, Bool, true, false, String, some, List, [], ◌∷◌, Bool-cases, inl, inr,
  if◌then◌else◌,
}
use attesta_protocol_backend.Prelude.Keys.{String_eq, ==_refl}
use attesta_protocol_backend.Prelude.HashMap.{find, insert, find-insert}
use attesta_protocol_backend.Prelude.Exec.{Result, ok, err, resume}
use attesta_protocol_backend.Database.{Database, CommitmentRow, TreeRoot}
use attesta_protocol_backend.Merkle.{TreeHasher, is_empty}
use attesta_protocol_backend.Api.{Fault}
use attesta_protocol_backend.Tree.{
  PoolTree, Server, answered, fetch, execute, write, append_rows, or_default, store_tree,
  flush_roots, unless_empty, sync_pool_tree,
}
use attesta_protocol_backend.Tree.Recorded.{cached}

pub answered-trees :
    {A : Type 0} (answers : List Bool) (s : Server) (m : Server → Result Fault A × Server)
    → ((s : Server) → (m s).1.trees ≡ s.trees)
    → (answered answers m s).1.trees ≡ s.trees
unfolding answered
answered-trees [] s m k = k s
answered-trees (true ∷ answers) s m k = k (record s { answers = answers })
answered-trees (false ∷ answers) s m k = refl

pub fetch-trees :
    {A : Type 0} (select : Database → A) (s : Server) → (fetch select s).1.trees ≡ s.trees
unfolding fetch
fetch-trees select s = answered-trees s.answers s _ (λ s. refl)

flush_roots-trees :
    (new_roots : List TreeRoot) (s : Server) → (flush_roots new_roots s).1.trees ≡ s.trees
unfolding flush_roots execute write
flush_roots-trees [] s = refl
flush_roots-trees (r ∷ new_roots) s = answered-trees s.answers s _ (λ s. refl)

module _ (h : TreeHasher) (pool : String) where
  -- The tree that a top-up returns is the cached one, and not empty.
  abbrev pub Kept : Result Fault PoolTree × Server → Type 0
  Kept (ok t, s) = (cached h pool s ≡ t) × (is_empty t.tree ≡ false)
  Kept (err e, s) = Unit

  unless_empty-Kept :
      (t : PoolTree) (s : Server) → find pool s.trees ≡ some t → Kept (unless_empty pool t s)
  unfolding unless_empty or_default
  unless_empty-Kept t s e = elim (Bool-cases (is_empty t.tree)) [
    | inl i ↦ rw i tt
    | inr i ↦ rw i (ap (or_default h) e, i)
  ]

  flushed-Kept :
      (t : PoolTree) (r : Result Fault (Unit {0}) × Server)
      → find pool r.1.trees ≡ some t
      → Kept (resume r λ _ s. unless_empty pool t s)
  flushed-Kept t (ok u, s) e = unless_empty-Kept t s e
  flushed-Kept t (err x, s) e = tt

  stored-Kept :
      (r : Result Fault (List TreeRoot) × PoolTree) (s : Server)
      → Kept (
          resume (store_tree pool r s) λ topped_up s.
            resume (flush_roots topped_up.0 s) λ _ s. unless_empty pool topped_up.1 s)
  unfolding store_tree
  stored-Kept (ok new_roots, t) s =
      let s' = record s { trees = insert pool t s.trees } in
      flushed-Kept t (flush_roots new_roots s') (
        ap (find pool) (flush_roots-trees new_roots s')
        ∙ find-insert pool pool t s.trees
        ∙ ap (λ b. if b then some t else find pool s.trees) (==_refl pool))
  stored-Kept (err e, t) s = tt

  pub sync_pool_tree-Kept : (s : Server) → Kept (sync_pool_tree h pool s)
  unfolding sync_pool_tree
  sync_pool_tree-Kept s =
      read (fetch _ (record s { trees = insert pool (cached h pool s) s.trees }))
    where
      read :
          (r : Result Fault (List CommitmentRow) × Server)
          → Kept (
              resume r λ rows s₁.
                resume (store_tree pool (append_rows pool rows (cached h pool s)) s₁) λ topped_up s.
                  resume (flush_roots topped_up.0 s) λ _ s. unless_empty pool topped_up.1 s)
      read (ok rows, s₁) = stored-Kept (append_rows pool rows (cached h pool s)) s₁
      read (err e, s₁) = tt

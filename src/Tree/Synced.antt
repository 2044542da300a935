-- ===== src/Tree/Synced.antt =====
-- `sync_pool_tree` of crates/attesta-api/src/routes/tree.rs keeps the cached trees.
use attesta_protocol_backend.Prelude.{
  ◌≡◌, refl, sym, subst, ◌∙◌, Bool, true, false, String, Option, none, some, List, [], ◌∷◌, arith,
  Bool-cases, ◌⊎◌, inl, inr, if◌then◌else◌,
}
use attesta_protocol_backend.Prelude.Keys.{◌==◌, String_eq, Bytes_eq}
use attesta_protocol_backend.Prelude.HashMap.{HashMap, find, insert, find-insert}
use attesta_protocol_backend.Prelude.Exec.{Result, ok, err, Exec, resume}
use attesta_protocol_backend.Database.{TreeRoot}
use attesta_protocol_backend.Merkle.{TreeHasher, is_empty}
use attesta_protocol_backend.Api.{ApiError, Fault, answers_error, panicked, or_error}
use attesta_protocol_backend.Tree.{
  PoolTree, Server, append_rows, or_default, answered, fetch, execute, write, store_tree,
  flush_roots, unless_empty, sync_pool_tree,
}
use attesta_protocol_backend.Tree.Mirror.{
  IsMirror, TreeEnds, append_rows-TreeEnds, or_default-IsMirror,
}

-- Every cached tree is the tree of some leaves.
abbrev pub AllMirrors : TreeHasher → HashMap String PoolTree → Type 0
AllMirrors h trees = (pool : String) (t : PoolTree) → find pool trees ≡ some t → IsMirror h t

-- A step of a handler never panics, keeps the cached trees, and returns what `Q` says.
abbrev pub Ends : {A : Type 0} → TreeHasher → (A → Type 0) → Result Fault A × Server → Type 0
Ends h Q (ok a, s) = AllMirrors h s.trees × Q a
Ends h Q (err (answers_error e), s) = AllMirrors h s.trees
Ends h Q (err panicked, s) = ⊥

module _ (h : TreeHasher) where
  pub resume-Ends :
      {A B : Type 0} (Q : A → Type 0) (R : B → Type 0) (r : Result Fault A × Server)
      (f : A → Exec Server Fault B)
      → Ends h Q r
      → ((a : A) (s : Server) → AllMirrors h s.trees → Q a → Ends h R (f a s))
      → Ends h R (resume r f)
  resume-Ends Q R (ok a, s) f m k = k a s m.0 m.1
  resume-Ends Q R (err (answers_error e), s) f m k = m
  resume-Ends Q R (err panicked, s) f m k = m

  pub answered-Ends :
      {A : Type 0} (Q : A → Type 0) (answers : List Bool) (m : Exec Server Fault A) (s : Server)
      → AllMirrors h s.trees
      → ((s : Server) → AllMirrors h s.trees → Ends h Q (m s))
      → Ends h Q (answered answers m s)
  unfolding answered
  answered-Ends Q [] m s a k = k s a
  answered-Ends Q (true ∷ answers) m s a k = k (record s { answers = answers }) a
  answered-Ends Q (false ∷ answers) m s a k = a

  pub or_error-Ends :
      {A : Type 0} (e : ApiError) (o : Option A) (s : Server)
      → AllMirrors h s.trees
      → Ends h (λ a. o ≡ some a) (or_error e o s)
  or_error-Ends e (some a) s m = (m, refl)
  or_error-Ends e none s m = m

  insert-AllMirrors :
      (pool : String) (t : PoolTree) (trees : HashMap String PoolTree)
      → IsMirror h t
      → AllMirrors h trees
      → AllMirrors h (insert pool t trees)
  insert-AllMirrors pool t trees m a other u e =
      either (Bool-cases (pool == other)) (sym (find-insert pool other t trees) ∙ e)
    where
      either :
          (((pool == other) ≡ true) ⊎ ((pool == other) ≡ false))
          → (if pool == other then some t else find other trees) ≡ some u
          → IsMirror h u
      either (inl same) e =
          let e' : some t ≡ some u = ground arith in
          let p : t ≡ u = cc in subst (λ t. IsMirror h t) p m
      either (inr differs) e = let e' : find other trees ≡ some u = ground arith in a other u e'

  store_tree-Ends :
      (pool : String) (r : Result Fault (List TreeRoot) × PoolTree) (s : Server)
      → TreeEnds h r
      → AllMirrors h s.trees
      → Ends h (λ q. IsMirror h q.1) (store_tree pool r s)
  unfolding store_tree
  store_tree-Ends pool (ok new_roots, t) s m a = (insert-AllMirrors pool t s.trees m a, m)
  store_tree-Ends pool (err (answers_error e), t) s m a = insert-AllMirrors pool t s.trees m a
  store_tree-Ends pool (err panicked, t) s m a = m

  flush_roots-Ends :
      (new_roots : List TreeRoot) (s : Server)
      → AllMirrors h s.trees
      → Ends h (λ _. Unit {0}) (flush_roots new_roots s)
  unfolding flush_roots execute write
  flush_roots-Ends [] s a = (a, tt)
  flush_roots-Ends (r ∷ new_roots) s a =
      answered-Ends (λ _. Unit {0}) s.answers _ s a λ s a. (a, tt)

  unless_empty-Ends :
      (pool : String) (t : PoolTree) (s : Server)
      → IsMirror h t
      → AllMirrors h s.trees
      → Ends h (IsMirror h) (unless_empty pool t s)
  unfolding unless_empty
  unless_empty-Ends pool t s m a = elim (Bool-cases (is_empty t.tree)) [
    | inl e ↦ rw e a
    | inr e ↦ rw e (a, m)
  ]

  pub sync_pool_tree-Ends :
      (pool : String) (s : Server)
      → AllMirrors h s.trees
      → Ends h (IsMirror h) (sync_pool_tree h pool s)
  unfolding sync_pool_tree fetch
  sync_pool_tree-Ends pool s a =
      let t = or_default h (find pool s.trees) in
      let m = or_default-IsMirror h (find pool s.trees) (a pool) in
      resume-Ends (λ _. Unit {0}) (IsMirror h) _ _
        (answered-Ends (λ _. Unit {0}) s.answers _ (record s { trees = insert pool t s.trees })
          (insert-AllMirrors pool t s.trees m a) λ s a. (a, tt))
        λ rows s a _.
          resume-Ends (λ q. IsMirror h q.1) (IsMirror h)
            (store_tree pool (append_rows pool rows t) s) _
            (store_tree-Ends pool (append_rows pool rows t) s (append_rows-TreeEnds h pool rows t m)
              a)
            λ topped_up s a m.
              resume-Ends (λ _. Unit {0}) (IsMirror h) (flush_roots topped_up.0 s) _
                (flush_roots-Ends topped_up.0 s a)
                λ _ s a _. unless_empty-Ends pool topped_up.1 s m a

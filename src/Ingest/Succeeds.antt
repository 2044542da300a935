-- ===== src/Ingest/Succeeds.antt =====
-- What the queries of crates/attesta-indexer/src/ingest.rs establish where they succeed.
use attesta_protocol_backend.Prelude.{Bool, true, false, Option, none, some, List, [], ◌∷◌}
use attesta_protocol_backend.Prelude.Keys.{String_eq, ℤ_eq, Bytes_eq}
use attesta_protocol_backend.Prelude.Options.{Yields}
use attesta_protocol_backend.Prelude.Exec.{Result, ok, err, Exec, resume}
use attesta_protocol_backend.Database.{Database}
use attesta_protocol_backend.Ingest.Store.{Indexer, SyncError, query, applied, answered}

-- What holds of the database where a computation succeeds.
abbrev pub Succeeds : {A : Type 0} → (Database → Type 0) → Result SyncError A × Indexer → Type 0
Succeeds Q (ok a, s) = Q s.db
Succeeds Q (err e, s) = Unit

pub applied-Succeeds :
    (Q : Database → Type 0) (o : Option Database) (s : Indexer)
    → Yields Q o
    → Succeeds Q (applied o s)
unfolding applied
applied-Succeeds Q none s y = tt
applied-Succeeds Q (some db) s y = y

pub answered-Succeeds :
    {A : Type 0} (Q : Database → Type 0) (answers : List Bool) (m : Exec Indexer SyncError A)
    (s : Indexer)
    → ((s : Indexer) → Succeeds Q (m s))
    → Succeeds Q (answered answers m s)
unfolding answered
answered-Succeeds Q [] m s k = k s
answered-Succeeds Q (true ∷ answers) m s k = k (record s { answers = answers })
answered-Succeeds Q (false ∷ answers) m s k = tt

pub query-Succeeds :
    (Q : Database → Type 0) (statement : Database → Option Database) (s : Indexer)
    → ((db : Database) → Yields Q (statement db))
    → Succeeds Q (query statement s)
unfolding query
query-Succeeds Q statement s k =
    answered-Succeeds Q s.answers _ s λ s. applied-Succeeds Q (statement s.db) s (k s.db)

pub resume-Succeeds :
    {A B : Type 0} (Q R : Database → Type 0) (r : Result SyncError A × Indexer)
    (f : A → Exec Indexer SyncError B)
    → Succeeds Q r
    → ((a : A) (s : Indexer) → Q s.db → Succeeds R (f a s))
    → Succeeds R (resume r f)
resume-Succeeds Q R (ok a, s) f q k = k a s q
resume-Succeeds Q R (err e, s) f q k = tt

pub Succeeds-both :
    {A : Type 0} (P Q : Database → Type 0) (r : Result SyncError A × Indexer)
    → P r.1.db
    → Succeeds Q r
    → Succeeds (λ db. P db × Q db) r
Succeeds-both P Q (ok a, s) p q = (p, q)
Succeeds-both P Q (err e, s) p q = tt

pub Succeeds-any :
    {A : Type 0} (P : Database → Type 0) (r : Result SyncError A × Indexer)
    → P r.1.db
    → Succeeds P r
Succeeds-any P (ok a, s) p = p
Succeeds-any P (err e, s) p = tt

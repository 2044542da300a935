-- ===== src/Tree/Queries.antt =====
-- What the queries of crates/attesta-api come to, whether the database carries them out or not.
use attesta_protocol_backend.Prelude.{
  ◌≡◌, refl, ap, Bool, true, false, List, [], ◌∷◌, if◌then◌else◌,
}
use attesta_protocol_backend.Prelude.Exec.{Result, ok, err}
use attesta_protocol_backend.Database.{Database}
use attesta_protocol_backend.Api.{Fault}
use attesta_protocol_backend.Tree.{Server, fetch, write, answered}

-- A query that the database will refuse.
unfoldable pub any_down : List Bool → Bool
any_down [] = false
any_down (up ∷ answers) = if up then any_down answers else true

-- What a query that reads comes to.
abbrev pub Fetched : {A : Type 0} → (Database → A) → Server → Result Fault A × Server → Type 0
Fetched select s (ok a, s') =
    (a ≡ select s.db) × (s'.db ≡ s.db) × (any_down s.answers ≡ any_down s'.answers)
Fetched select s (err e, s') = (s'.db ≡ s.db) × (any_down s.answers ≡ true)

pub fetch-Fetched :
    {A : Type 0} (select : Database → A) (s : Server) → Fetched select s (fetch select s)
unfolding fetch answered any_down
fetch-Fetched select s = go s.answers refl
  where
    go :
        (answers : List Bool)
        → s.answers ≡ answers
        → Fetched select s (answered answers (λ s. (ok (select s.db), s)) s)
    go [] e = (refl, refl, refl)
    go (true ∷ answers) e = (refl, refl, ap any_down e)
    go (false ∷ answers) e = (refl, ap any_down e)

-- And one that writes.
abbrev pub Written :
    {A : Type 0} → (Database → A × Database) → Server → Result Fault A × Server → Type 0
Written statement s (ok a, s') =
    (a ≡ (statement s.db).0)
    × (s'.db ≡ (statement s.db).1)
    × (any_down s.answers ≡ any_down s'.answers)
Written statement s (err e, s') =
    (s'.db ≡ s.db)
    × (any_down s.answers ≡ true)
    × (any_down s'.answers ≡ true → any_down s.answers ≡ true)

pub write-Written :
    {A : Type 0} (statement : Database → A × Database) (s : Server)
    → Written statement s (write statement s)
unfolding write answered any_down
write-Written {A} statement s = go s.answers refl
  where
    go :
        (answers : List Bool)
        → s.answers ≡ answers
        → Written statement s (
            answered answers (λ s. (ok (statement s.db).0, record s { db = (statement s.db).1 })) s)
    go [] e = (refl, refl, refl)
    go (true ∷ answers) e = (refl, refl, ap any_down e)
    go (false ∷ answers) e = (refl, ap any_down e, λ _. ap any_down e)

pub fetch_up :
    {A : Type 0} (select : Database → A) (s : Server)
    → s.answers ≡ []
    → fetch select s ≡ (ok (select s.db), s)
unfolding fetch answered
fetch_up select s e = ap (λ answers. answered answers (λ s. (ok (select s.db), s)) s) e

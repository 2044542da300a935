-- ===== src/Issuer/Registry.antt =====
-- `list_issuers` of crates/attesta-api/src/routes/issuer.rs. The order of texts in the database is a parameter.
use attesta_protocol_backend.Prelude.{Bool, not, String, List, [], ◌∷◌, if◌then◌else◌}
use attesta_protocol_backend.Prelude.Keys.{◌==◌, String_eq}
use attesta_protocol_backend.Prelude.Exec.{Exec}
use attesta_protocol_backend.Database.{IssuerRow}
use attesta_protocol_backend.Api.{Fault}
use attesta_protocol_backend.Tree.{Server, fetch}

-- ORDER BY issuer_id
unfoldable pub insert_by_issuer :
    (String → String → Bool) → IssuerRow → List IssuerRow → List IssuerRow
insert_by_issuer collates r [] = r ∷ []
insert_by_issuer collates r (x ∷ rows) =
    if collates x.issuer_id r.issuer_id then x ∷ insert_by_issuer collates r rows else r ∷ x ∷ rows

-- SELECT … FROM issuers WHERE status <> 'revoked' ORDER BY issuer_id
unfoldable pub select_issuers : (String → String → Bool) → List IssuerRow → List IssuerRow
unfolding insert_by_issuer
select_issuers collates [] = []
select_issuers collates (x ∷ rows) =
    let rest = select_issuers collates rows in
    if not (x.status == "revoked") then insert_by_issuer collates x rest else rest

unfoldable pub list_issuers : (String → String → Bool) → Exec Server Fault (List IssuerRow)
unfolding select_issuers
list_issuers collates = fetch (λ db. select_issuers collates db.issuers)

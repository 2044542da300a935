-- ===== src/Issuer.antt =====
-- crates/attesta-api/src/routes/issuer.rs: the credential mailbox and the issuer registry. Base64 (the
-- `base64` crate), SHA-256 and the ids that `Uuid::new_v4` draws are parameters; the database's clock is
-- an argument, in microseconds.
pub mod Claim
pub mod Deliver
pub mod Registry
mod Tests
use Prim.Native.String.{len as byte_len}
use attesta_protocol_backend.Prelude.{
  ℕ, zero, suc, ◌+◌, ◌*◌, ◌^◌, Bool, true, false, ◌&&◌, ◌||◌, not, String, Option, none, some, List,
  [], ◌∷◌, ◌++◌, length, ltb, leb, take, ◌==◌ as nat_eq, if◌then◌else◌,
}
use attesta_protocol_backend.Prelude.Int.{ℤ, pos, ltb_ℤ}
use attesta_protocol_backend.Prelude.Bytes.{Bytes, bytes_eq}
use attesta_protocol_backend.Prelude.Keys.{◌==◌, String_eq}
use attesta_protocol_backend.Prelude.Exec.{Result, ok, err, Exec, pure, fail, resume, ◌>>=◌, ◌>>◌}
use attesta_protocol_backend.Database.{Database, IssuerRow, CredentialDelivery}
use attesta_protocol_backend.Api.{
  ApiError, not_found, bad_request, forbidden, conflict, too_many_requests, Fault, answers_error,
  or_error,
}
use attesta_protocol_backend.Tree.{Server, fetch, write, execute}

abbrev pub max_ciphertext_bytes : ℕ
max_ciphertext_bytes = 64 * 1024

abbrev pub hour : ℕ
hour = 3600000000

pub record DeliverCredentialRequest : Type 0 where
  pub issuer_id : String
  pub recipient_hint : String
  pub ciphertext : String
  pub issuer_signature : String
  pub claim_token_hash : Option String

-- `if bad { return Err(…) }`
abbrev pub refuse_if : {S : Type 0} → Bool → ApiError → Exec S Fault (Unit {0})
refuse_if true e s = (err (answers_error e), s)
refuse_if false e s = (ok tt, s)

unfoldable pub size_out_of_bounds : ℕ → ℕ → Bool
size_out_of_bounds n most = nat_eq n 0 || ltb most n

-- The `claim_token_hash` of a request, decoded.
unfoldable pub token_hash :
    {S : Type 0} → (String → Option Bytes) → Option String → Exec S Fault (Option Bytes)
token_hash base64 none s = (ok none, s)
token_hash base64 (some text) s =
    (do
      hash ← or_error (bad_request "claim_token_hash must be base64") (base64 text)
      refuse_if (not (nat_eq (length hash) 32)) (bad_request "claim_token_hash must be 32 bytes")
      pure (some hash))
      s

-- SELECT … FROM issuers WHERE issuer_id = $1 AND status = 'active'
unfoldable pub select_active : String → List IssuerRow → Option IssuerRow
select_active issuer_id [] = none
select_active issuer_id (x ∷ rows) =
    if x.issuer_id == issuer_id && x.status == "active"
    then some x
    else select_active issuer_id rows

-- SELECT count(*) FROM credential_deliveries WHERE issuer_id = $1 AND created_at > now() - interval '1 hour'
unfoldable pub count_recent : String → ℕ → List CredentialDelivery → ℕ
count_recent issuer_id now [] = 0
count_recent issuer_id now (x ∷ rows) =
    let rest = count_recent issuer_id now rows in
    if x.issuer_id == issuer_id && ltb now (x.created_at + hour) then suc rest else rest

-- `if quota > 0 { … }`
unfoldable pub check_quota : ℕ → String → ℕ → Exec Server Fault (Unit {0})
unfolding count_recent
check_quota zero issuer_id now = pure tt
check_quota (suc q) issuer_id now = do
  delivered ← fetch (λ db. count_recent issuer_id now db.credential_deliveries)
  refuse_if (leb (suc q) delivered) (too_many_requests "issuer hourly delivery quota exceeded")

-- INSERT INTO credential_deliveries …, with the next `seq`
unfoldable pub insert_delivery :
    ℕ → ℕ → DeliverCredentialRequest → Bytes → Bytes → Option Bytes → Database → Database
insert_delivery now delivery_id req ciphertext signature hash db =
    let row : CredentialDelivery = record {
      seq = pos db.next_seq;
      delivery_id = delivery_id;
      issuer_id = req.issuer_id;
      recipient_hint = req.recipient_hint;
      ciphertext = ciphertext;
      issuer_signature = signature;
      created_at = now;
      claimed_at = none;
      claim_token_hash = hash;
    } in
    record db {
      credential_deliveries = db.credential_deliveries ++ row ∷ [];
      next_seq = db.next_seq + 1;
    }

-- The answer 201 carries the id.
unfoldable pub deliver_credential :
    (String → Option Bytes) → ℕ → ℕ → ℕ → DeliverCredentialRequest → Exec Server Fault ℕ
unfolding size_out_of_bounds token_hash select_active check_quota insert_delivery
deliver_credential base64 quota now delivery_id req = do
  ciphertext ← or_error (bad_request "ciphertext must be base64") (base64 req.ciphertext)
  refuse_if (size_out_of_bounds (length ciphertext) max_ciphertext_bytes)
      (bad_request "ciphertext size out of bounds")
  signature ← or_error (bad_request "issuer_signature must be base64") (base64 req.issuer_signature)
  refuse_if (size_out_of_bounds (byte_len req.recipient_hint) 128)
      (bad_request "recipient_hint size out of bounds")
  hash ← token_hash base64 req.claim_token_hash
  found ← fetch (λ db. select_active req.issuer_id db.issuers)
  issuer ← or_error (bad_request "unknown or inactive issuer") found
  check_quota quota req.issuer_id now
  execute (insert_delivery now delivery_id req ciphertext signature hash)
  pure delivery_id

-- SELECT claim_token_hash, claimed_at FROM credential_deliveries WHERE delivery_id = $1
unfoldable pub select_delivery : ℕ → List CredentialDelivery → Option CredentialDelivery
select_delivery delivery_id [] = none
select_delivery delivery_id (x ∷ rows) =
    if nat_eq x.delivery_id delivery_id then some x else select_delivery delivery_id rows

abbrev pub is_claimed : CredentialDelivery → Bool
is_claimed d = elim d.claimed_at [ none ↦ false | some t ↦ true ]

-- `stored_hash.as_deref().is_some_and(|h| h == presented_hash)`
abbrev pub hash_matches : Option Bytes → Bytes → Bool
hash_matches none presented = false
hash_matches (some stored) presented = bytes_eq stored presented

-- UPDATE credential_deliveries SET claimed_at = now() WHERE delivery_id = $1 AND claimed_at IS NULL, with
-- the number of rows affected
unfoldable pub claim_rows : ℕ → ℕ → List CredentialDelivery → ℕ × List CredentialDelivery
claim_rows now delivery_id [] = (0, [])
claim_rows now delivery_id (x ∷ rows) =
    let rest = claim_rows now delivery_id rows in
    if nat_eq x.delivery_id delivery_id && not (is_claimed x)
    then (suc rest.0, record x { claimed_at = some now } ∷ rest.1)
    else (rest.0, x ∷ rest.1)

unfoldable pub claim_statement : ℕ → ℕ → Database → ℕ × Database
unfolding claim_rows
claim_statement now delivery_id db =
    let r = claim_rows now delivery_id db.credential_deliveries in
    (r.0, record db { credential_deliveries = r.1 })

-- The first half of `claim_delivery`: what is checked before the UPDATE.
unfoldable pub check_claim :
    (String → Option Bytes) → (Bytes → Bytes) → ℕ → String → Exec Server Fault (Unit {0})
unfolding size_out_of_bounds select_delivery
check_claim base64 sha256 delivery_id claim_token = do
  token ← or_error (bad_request "claim_token must be base64") (base64 claim_token)
  refuse_if (size_out_of_bounds (length token) 128) (bad_request "claim_token size out of bounds")
  found ← fetch (λ db. select_delivery delivery_id db.credential_deliveries)
  row ← or_error (not_found "unknown delivery") found
  refuse_if (is_claimed row) (conflict "delivery already claimed")
  refuse_if (not (hash_matches row.claim_token_hash (sha256 token)))
      (forbidden "claim token does not match")

-- The second half. Between the two another request may claim the delivery.
unfoldable pub update_claim : ℕ → ℕ → Exec Server Fault (Unit {0})
unfolding claim_statement
update_claim now delivery_id = do
  rows_affected ← write (claim_statement now delivery_id)
  refuse_if (nat_eq rows_affected 0) (conflict "delivery already claimed")

-- The answer is 204.
unfoldable pub claim_delivery :
    (String → Option Bytes) → (Bytes → Bytes) → ℕ → ℕ → String → Exec Server Fault (Unit {0})
unfolding check_claim update_claim
claim_delivery base64 sha256 now delivery_id claim_token = do
  check_claim base64 sha256 delivery_id claim_token
  update_claim now delivery_id

abbrev pub deliveries_page_size : ℕ
deliveries_page_size = 200

-- ORDER BY seq
unfoldable pub insert_by_seq :
    CredentialDelivery → List CredentialDelivery → List CredentialDelivery
insert_by_seq r [] = r ∷ []
insert_by_seq r (x ∷ rows) = if ltb_ℤ x.seq r.seq then x ∷ insert_by_seq r rows else r ∷ x ∷ rows

-- SELECT … WHERE recipient_hint = $1 AND claimed_at IS NULL AND seq > $2 ORDER BY seq
unfoldable pub select_pending : String → ℤ → List CredentialDelivery → List CredentialDelivery
unfolding insert_by_seq
select_pending hint since [] = []
select_pending hint since (x ∷ rows) =
    let rest = select_pending hint since rows in
    if x.recipient_hint == hint && not (is_claimed x) && ltb_ℤ since x.seq
    then insert_by_seq x rest
    else rest

unfoldable pub last_seq : List CredentialDelivery → Option ℤ
last_seq [] = none
last_seq (x ∷ []) = some x.seq
last_seq (x ∷ y ∷ rows) = last_seq (y ∷ rows)

pub record DeliveriesPage : Type 0 where
  pub deliveries : List CredentialDelivery
  pub next_cursor : Option ℤ

unfoldable pub deliveries_page : List CredentialDelivery → DeliveriesPage
unfolding last_seq
deliveries_page rows = record {
  deliveries = rows;
  next_cursor = if nat_eq (length rows) deliveries_page_size then last_seq rows else none;
}

-- `since_cursor.unwrap_or(0)`
abbrev pub since_or_zero : Option ℤ → ℤ
since_or_zero none = pos 0
since_or_zero (some c) = c

unfoldable pub list_deliveries : String → Option ℤ → Exec Server Fault DeliveriesPage
unfolding select_pending deliveries_page
list_deliveries hint since_cursor = do
  rows ← fetch (λ db.
      take deliveries_page_size
        (select_pending hint (since_or_zero since_cursor) db.credential_deliveries))
  pure (deliveries_page rows)

-- ===== src/Issuer/Deliver.antt =====
-- Deliveries of crates/attesta-api/src/routes/issuer.rs: what is accepted, and that nothing else is kept.
use Prim.Native.String.{len as byte_len}
use attesta_protocol_backend.Prelude.{
  ℕ, ◌≤◌, ◌<◌, ◌≡◌, ◌⊎◌, String, Option, none, some, length, ◌==◌ as nat_eq,
}
use attesta_protocol_backend.Prelude.Bytes.{Bytes}
use attesta_protocol_backend.Prelude.Exec.{Result, ok, err, Exec}
use attesta_protocol_backend.Database.{Database, IssuerRow}
use attesta_protocol_backend.Api.{Fault}
use attesta_protocol_backend.Tree.{Server}
use attesta_protocol_backend.Issuer.{
  DeliverCredentialRequest, max_ciphertext_bytes, select_active, count_recent, insert_delivery,
}

-- The hash that a delivery keeps for the text of the request: none for none, and the decoded 32 bytes
-- for a text.
abbrev pub HashOf : (String → Option Bytes) → Option String → Option Bytes → Type 0
HashOf base64 none hash = hash ≡ none
HashOf base64 (some text) hash =
    (b : Bytes) × (base64 text ≡ some b) × (hash ≡ some b) × (length b ≡ 32)

module _ (db : Database) where
  -- A step that leaves the database as it is, and whose value satisfies `Q`.
  abbrev Reads : {A : Type 0} → (A → Type 0) → Result Fault A × Server → Type 0
  Reads Q (ok a, s) = (s.db ≡ db) × Q a
  Reads Q (err e, s) = s.db ≡ db

  -- A handler that changes nothing where it fails.
  abbrev pub Accepts : {A : Type 0} → (Database → Type 0) → Result Fault A × Server → Type 0
  Accepts F (ok a, s) = F s.db
  Accepts F (err e, s) = s.db ≡ db

  -- Unlimited, or fewer deliveries in the last hour than the quota.
  abbrev pub InQuota : ℕ → String → ℕ → Type 0
  InQuota quota issuer_id now =
      (quota ≡ 0) ⊎ (count_recent issuer_id now db.credential_deliveries < quota)

-- A delivery that was accepted into `db`, and the database with it.
pub record Accepted (base64 : String → Option Bytes) (quota now delivery_id : ℕ)
    (req : DeliverCredentialRequest) (db db' : Database) : Type 0 where
  pub ciphertext : Bytes
  pub signature : Bytes
  pub hash : Option Bytes
  pub issuer : IssuerRow
  pub decoded : base64 req.ciphertext ≡ some ciphertext
  pub size : (1 ≤ length ciphertext) × (length ciphertext ≤ max_ciphertext_bytes)
  pub signed : base64 req.issuer_signature ≡ some signature
  pub hint : (1 ≤ byte_len req.recipient_hint) × (byte_len req.recipient_hint ≤ 128)
  pub claim : HashOf base64 req.claim_token_hash hash
  pub active : select_active req.issuer_id db.issuers ≡ some issuer
  pub quota_left : InQuota db quota req.issuer_id now
  pub stored : db' ≡ insert_delivery now delivery_id req ciphertext signature hash db

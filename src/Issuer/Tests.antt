-- ===== src/Issuer/Tests.antt =====
-- Runs of crates/attesta-api/src/routes/issuer.rs.
use attesta_protocol_backend.Prelude.{
  ℕ, ◌≤◌, ◌≡◌, refl, some, none, List, [], ◌∷◌, replicate, ◌==◌, if◌then◌else◌,
}
use attesta_protocol_backend.Prelude.Int.{pos}
use attesta_protocol_backend.Database.{CredentialDelivery, empty_database}
use attesta_protocol_backend.Prelude.{String, Option}
use attesta_protocol_backend.Prelude.Bytes.{Bytes}
use attesta_protocol_backend.Prelude.Exec.{ok}
use attesta_protocol_backend.Database.{IssuerRow}
use attesta_protocol_backend.Tree.{Server, fetch, execute, write, answered}
use attesta_protocol_backend.Issuer.{
  DeliverCredentialRequest, deliver_credential, size_out_of_bounds, token_hash, select_active,
  check_quota, count_recent, insert_delivery,
}
use attesta_protocol_backend.Issuer.Claim.{left, winners, winners-le_one}

abbrev delivery : CredentialDelivery
delivery = record {
  seq = pos 1;
  delivery_id = 41;
  issuer_id = "ISSUER";
  recipient_hint = "hint";
  ciphertext = 1 ∷ [];
  issuer_signature = [];
  created_at = 0;
  claimed_at = none;
  claim_token_hash = some (replicate 32 7);
}

abbrev mailbox : Server
mailbox = record {
  db = record empty_database { credential_deliveries = delivery ∷ [] };
  answers = [];
  trees = [];
}

abbrev race : List (ℕ × ℕ)
race = (5, 41) ∷ (6, 41) ∷ (6, 40) ∷ []

winners-le_one_example : winners 41 race mailbox ≤ (if left 41 mailbox == 0 then 0 else 1)
winners-le_one_example = winners-le_one 41 race mailbox

abbrev sample_base64 : String → Option Bytes
sample_base64 _ = some (replicate 32 1)

abbrev request : DeliverCredentialRequest
request = record {
  issuer_id = "ISSUER";
  recipient_hint = "hint";
  ciphertext = "AQ==";
  issuer_signature = "AQ==";
  claim_token_hash = some "AQ==";
}

abbrev issuer : IssuerRow
issuer = record {
  issuer_id = "ISSUER";
  name = "Issuer";
  public_key = [];
  claim_types = [];
  status = "active";
  registered_ledger = pos 1;
}

abbrev registry : Server
registry = record { db = record empty_database { issuers = issuer ∷ [] }; answers = []; trees = [] }

delivered : (deliver_credential sample_base64 5 1000 42 request registry).0 ≡ ok 42
unfolding deliver_credential size_out_of_bounds token_hash select_active check_quota count_recent
    insert_delivery fetch execute write answered
delivered = refl

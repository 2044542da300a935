-- ===== src/Events/Types.antt =====
-- The types of crates/attesta-indexer/src/events.rs and of the raw events of rpc.rs. Parsers of other
-- crates are parameters, gathered in `Codecs`; `ScVal` has the variants that the code tells apart, and
-- `other` for the rest.
use attesta_protocol_backend.Prelude.{ℕ, String, Option, List}
use attesta_protocol_backend.Prelude.Bytes.{Bytes}
use attesta_protocol_backend.Prelude.Int.{ℤ}

mutual
  pub data ScVal : Type 0 where
    -- The text of a symbol or a string as the contract published it.
    symbol : String → ScVal
    string : String → ScVal
    bytes : Bytes → ScVal
    -- `Map(None)` and `Vec(None)` are `other`.
    map : ScMap → ScVal
    vec : ScVec → ScVal
    u32 : ℕ → ScVal
    u64 : ℕ → ScVal
    i64 : ℤ → ScVal
    -- `Int128Parts { hi, lo }`
    i128 : ℤ → ℕ → ScVal
    other : ScVal

  pub data ScMap : Type 0 where
    end : ScMap
    entry : ScVal → ScVal → ScMap → ScMap

  pub data ScVec : Type 0 where
    nil : ScVec
    item : ScVal → ScVec → ScVec

-- `RawEvent` of crates/attesta-indexer/src/rpc.rs
pub record RawEvent : Type 0 where
  pub id : String
  pub contract_id : String
  pub ledger : ℕ
  pub tx_hash : String
  pub topic : List String
  pub value : String

pub data PoolEvent : Type 0 where
  new_commitment : Bytes → ℤ → Option ℤ → Option String → PoolEvent
  nullifier_spent : Bytes → PoolEvent
  encrypted_note : Bytes → Bytes → Bytes → PoolEvent
  withdrawal : ℤ → String → PoolEvent
  issuer_updated : String → String → Bytes → List String → String → PoolEvent

pub record NewCommitmentShim : Type 0 where
  pub commitment : String
  pub leaf_index : ℤ
  pub deposit_amount : Option String
  pub asset : Option String

pub record NullifierShim : Type 0 where
  pub nullifier : String

pub record NoteShim : Type 0 where
  pub commitment : String
  pub ephemeral_pubkey : String
  pub ciphertext : String

pub record WithdrawalShim : Type 0 where
  pub amount : String
  pub asset : String

pub record IssuerShim : Type 0 where
  pub issuer_id : String
  pub name : String
  pub public_key : String
  pub claim_types : List String
  pub status : String

-- `display` is the `to_string` of an XDR text, which escapes what is not printable ASCII.
-- `ScVal::from_xdr_base64`, `serde_json::from_str` at each shim, `hex::decode`, `str::parse::<i128>`.
pub record Codecs : Type 0 where
  pub scval_b64 : String → Option ScVal
  pub display : String → String
  pub new_commitment_shim : String → Option NewCommitmentShim
  pub nullifier_shim : String → Option NullifierShim
  pub note_shim : String → Option NoteShim
  pub withdrawal_shim : String → Option WithdrawalShim
  pub issuer_shim : String → Option IssuerShim
  pub hex_decode : String → Option Bytes
  pub parse_i128 : String → Option ℤ

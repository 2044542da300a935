-- ===== src/Events.antt =====
-- crates/attesta-indexer/src/events.rs: decoding raw contract events into typed ones. The log lines
-- are left out.
pub mod Types
pub mod Values
pub mod Layout
pub mod RoundTrip
pub mod Samples
mod Tests
use attesta_protocol_backend.Prelude.{
  Bool, true, false, ◌||◌, ◌==◌ as nat_eq, String, Option, none, some, List, [], ◌∷◌, if◌then◌else◌,
}
use attesta_protocol_backend.Prelude.Keys.{◌==◌, String_eq}
use attesta_protocol_backend.Prelude.Options.{◌>>=◌}
use attesta_protocol_backend.Prelude.Text.{all_chars, is_ascii_lowercase}
use Types.{
  ScVal, ScMap, RawEvent, PoolEvent, new_commitment, nullifier_spent, encrypted_note, withdrawal,
  issuer_updated, Codecs,
}
use Values.{
  to_32, value_map, map_get, bytes, bytes32, int64, int128, text, text_vec, hex_bytes, hex32,
}

-- `topic.first()`
first_topic : RawEvent → Option String
first_topic raw = elim raw.topic [ [] ↦ none | t ∷ ts ↦ some t ]

abbrev plain_name : String → Option String
plain_name first =
    if all_chars (λ c. is_ascii_lowercase c || nat_eq c b'_') first then some first else none

unfoldable pub event_name : Codecs → RawEvent → Option String
unfolding first_topic
event_name codecs raw = do
  first ← first_topic raw
  elim (codecs.scval_b64 first) [
    | some v ↦ elim v [ ScVal.symbol s ↦ some (codecs.display s) | _ ↦ plain_name first ]
    | none ↦ plain_name first
  ]

-- A field that may be missing: `map_get(&map, key).and_then(read)`
abbrev optional : {A : Type 0} → Codecs → ScMap → String → (ScVal → Option A) → Option A
optional codecs m key read = map_get codecs m key >>= read

-- A field that must be there: `read(map_get(&map, key)?)?`
abbrev required : {A : Type 0} → Codecs → ScMap → String → (ScVal → Option A) → Option A
required codecs m key read = map_get codecs m key >>= read

unfoldable new_commitment_of_map : Codecs → ScMap → Option PoolEvent
new_commitment_of_map codecs m = do
  commitment ← required codecs m "commitment" bytes32
  leaf_index ← required codecs m "leaf_index" int64
  some (
      new_commitment commitment leaf_index (optional codecs m "deposit_amount" int128)
        (optional codecs m "asset" (text codecs)))

new_commitment_of_shim : Codecs → RawEvent → Option PoolEvent
new_commitment_of_shim codecs raw = do
  v ← codecs.new_commitment_shim raw.value
  commitment ← hex32 codecs v.commitment
  some (new_commitment commitment v.leaf_index (v.deposit_amount >>= codecs.parse_i128) v.asset)

unfoldable pub decode_new_commitment : Codecs → RawEvent → Option PoolEvent
unfolding new_commitment_of_map new_commitment_of_shim
decode_new_commitment codecs raw = elim (value_map codecs raw) [
  | some m ↦ new_commitment_of_map codecs m
  | none ↦ new_commitment_of_shim codecs raw
]

nullifier_of_shim : Codecs → RawEvent → Option PoolEvent
nullifier_of_shim codecs raw = do
  v ← codecs.nullifier_shim raw.value
  nullifier ← hex32 codecs v.nullifier
  some (nullifier_spent nullifier)

unfoldable nullifier_of_value : Codecs → RawEvent → ScVal → Option PoolEvent
nullifier_of_value codecs raw (ScVal.bytes b) = do
  nullifier ← to_32 b
  some (nullifier_spent nullifier)
nullifier_of_value codecs raw (ScVal.map m) = do
  nullifier ← required codecs m "nullifier" bytes32
  some (nullifier_spent nullifier)
nullifier_of_value codecs raw v = nullifier_of_shim codecs raw

unfoldable pub decode_nullifier : Codecs → RawEvent → Option PoolEvent
unfolding nullifier_of_shim nullifier_of_value
decode_nullifier codecs raw = elim (codecs.scval_b64 raw.value) [
  | some v ↦ nullifier_of_value codecs raw v
  | none ↦ nullifier_of_shim codecs raw
]

unfoldable note_of_map : Codecs → ScMap → Option PoolEvent
note_of_map codecs m = do
  commitment ← required codecs m "commitment" bytes32
  ephemeral_pubkey ← required codecs m "ephemeral_pubkey" bytes
  ciphertext ← required codecs m "ciphertext" bytes
  some (encrypted_note commitment ephemeral_pubkey ciphertext)

note_of_shim : Codecs → RawEvent → Option PoolEvent
note_of_shim codecs raw = do
  v ← codecs.note_shim raw.value
  commitment ← hex32 codecs v.commitment
  ephemeral_pubkey ← hex_bytes codecs v.ephemeral_pubkey
  ciphertext ← hex_bytes codecs v.ciphertext
  some (encrypted_note commitment ephemeral_pubkey ciphertext)

unfoldable pub decode_note : Codecs → RawEvent → Option PoolEvent
unfolding note_of_map note_of_shim
decode_note codecs raw = elim (value_map codecs raw) [
  | some m ↦ note_of_map codecs m
  | none ↦ note_of_shim codecs raw
]

unfoldable withdrawal_of_map : Codecs → ScMap → Option PoolEvent
withdrawal_of_map codecs m = do
  amount ← required codecs m "amount" int128
  asset ← required codecs m "asset" (text codecs)
  some (withdrawal amount asset)

withdrawal_of_shim : Codecs → RawEvent → Option PoolEvent
withdrawal_of_shim codecs raw = do
  v ← codecs.withdrawal_shim raw.value
  amount ← codecs.parse_i128 v.amount
  some (withdrawal amount v.asset)

unfoldable pub decode_withdrawal : Codecs → RawEvent → Option PoolEvent
unfolding withdrawal_of_map withdrawal_of_shim
decode_withdrawal codecs raw = elim (value_map codecs raw) [
  | some m ↦ withdrawal_of_map codecs m
  | none ↦ withdrawal_of_shim codecs raw
]

unfoldable issuer_of_map : Codecs → ScMap → Option PoolEvent
issuer_of_map codecs m = do
  issuer_id ← required codecs m "issuer_id" (text codecs)
  name ← required codecs m "name" (text codecs)
  public_key ← required codecs m "public_key" bytes
  claim_types ← required codecs m "claim_types" (text_vec codecs)
  status ← required codecs m "status" (text codecs)
  some (issuer_updated issuer_id name public_key claim_types status)

issuer_of_shim : Codecs → RawEvent → Option PoolEvent
issuer_of_shim codecs raw = do
  v ← codecs.issuer_shim raw.value
  public_key ← hex_bytes codecs v.public_key
  some (issuer_updated v.issuer_id v.name public_key v.claim_types v.status)

unfoldable pub decode_issuer : Codecs → RawEvent → Option PoolEvent
unfolding issuer_of_map issuer_of_shim
decode_issuer codecs raw = elim (value_map codecs raw) [
  | some m ↦ issuer_of_map codecs m
  | none ↦ issuer_of_shim codecs raw
]

-- The match on the event's name.
unfoldable pub decode_named : Codecs → RawEvent → String → Option PoolEvent
decode_named codecs raw name =
    if name == "new_commitment"
    then decode_new_commitment codecs raw
    else if name == "nullifier"
    then decode_nullifier codecs raw
    else if name == "note"
    then decode_note codecs raw
    else if name == "withdrawal"
    then decode_withdrawal codecs raw
    else if name == "issuer"
    then decode_issuer codecs raw
    else none

unfoldable pub decode : Codecs → RawEvent → Option PoolEvent
decode codecs raw = event_name codecs raw >>= decode_named codecs raw

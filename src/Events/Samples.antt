-- ===== src/Events/Samples.antt =====
-- Events as a contract publishes them, for the tests.
use attesta_protocol_backend.Prelude.{String, Option, none, some, [], ◌∷◌, replicate, if◌then◌else◌}
use attesta_protocol_backend.Prelude.Int.{pos}
use attesta_protocol_backend.Prelude.Keys.{◌==◌, String_eq}
use attesta_protocol_backend.Events.Types.{
  ScVal, RawEvent, PoolEvent, new_commitment, nullifier_spent, withdrawal, Codecs,
}
use attesta_protocol_backend.Events.Layout.{layout_fields}

abbrev pub deposit : PoolEvent
deposit = new_commitment (replicate 32 7) (pos 0) (some (pos 100)) (some "USDC")

abbrev pub spent : PoolEvent
spent = nullifier_spent (replicate 32 9)

abbrev pub payout : PoolEvent
payout = withdrawal (pos 30) "USDC"

-- An XDR decoder that knows these events.
abbrev pub sample_scval : String → Option ScVal
sample_scval s =
    if s == "t-commitment"
    then some (ScVal.symbol "new_commitment")
    else if s == "t-nullifier"
    then some (ScVal.symbol "nullifier")
    else if s == "t-withdrawal"
    then some (ScVal.symbol "withdrawal")
    else if s == "v-deposit"
    then some (ScVal.map (layout_fields deposit))
    else if s == "v-spent"
    then some (ScVal.map (layout_fields spent))
    else if s == "v-payout"
    then some (ScVal.map (layout_fields payout))
    else none

abbrev pub sample_codecs : Codecs
sample_codecs = record {
  scval_b64 = sample_scval;
  display = λ s. s;
  new_commitment_shim = λ _. none;
  nullifier_shim = λ _. none;
  note_shim = λ _. none;
  withdrawal_shim = λ _. none;
  issuer_shim = λ _. none;
  hex_decode = λ _. none;
  parse_i128 = λ _. none;
}

abbrev pub raw_event : String → String → RawEvent
raw_event topic value = record {
  id = "1";
  contract_id = "POOL";
  ledger = 7;
  tx_hash = "tx";
  topic = topic ∷ [];
  value = value;
}

abbrev pub raw_deposit : RawEvent
raw_deposit = raw_event "t-commitment" "v-deposit"

abbrev pub raw_spent : RawEvent
raw_spent = raw_event "t-nullifier" "v-spent"

abbrev pub raw_payout : RawEvent
raw_payout = raw_event "t-withdrawal" "v-payout"

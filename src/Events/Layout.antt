-- ===== src/Events/Layout.antt =====
-- The documented event layout of crates/attesta-indexer/src/events.rs: the name and the payload with
-- which a contract publishes an event.
use attesta_protocol_backend.Prelude.{
  ℕ, ◌||◌, ◌==◌ as nat_eq, Bool, ◌-◌, ◌/◌, ◌%◌, ◌^◌, ◌≡◌, String, Option, none, some, List, [], ◌∷◌,
  length,
}
use attesta_protocol_backend.Prelude.Int.{ℤ, pos, negsuc}
use attesta_protocol_backend.Prelude.Keys.{String_eq}
use attesta_protocol_backend.Events.Types.{
  ScVal, ScMap, end, entry, ScVec, nil, item, PoolEvent, new_commitment, nullifier_spent,
  encrypted_note, withdrawal, issuer_updated, Codecs,
}
use attesta_protocol_backend.Prelude.Text.{all_chars, is_ascii_lowercase}

-- The nodes of an event have 32 bytes, as their Rust type says.
abbrev pub HasShape : PoolEvent → Type 0
HasShape (new_commitment c i a s) = length c ≡ 32
HasShape (nullifier_spent n) = length n ≡ 32
HasShape (encrypted_note c k t) = length c ≡ 32
HasShape (withdrawal a s) = Unit
HasShape (issuer_updated i n k c s) = Unit

-- An event with its texts as `display` shows them.
unfoldable pub shown_texts : Codecs → List String → List String
shown_texts codecs [] = []
shown_texts codecs (s ∷ ss) = codecs.display s ∷ shown_texts codecs ss

abbrev pub shown : Codecs → PoolEvent → PoolEvent
shown codecs (new_commitment c i a none) = new_commitment c i a none
shown codecs (new_commitment c i a (some s)) = new_commitment c i a (some (codecs.display s))
shown codecs (nullifier_spent n) = nullifier_spent n
shown codecs (encrypted_note c k t) = encrypted_note c k t
shown codecs (withdrawal a s) = withdrawal a (codecs.display s)
shown codecs (issuer_updated i n k c s) =
    issuer_updated (codecs.display i) (codecs.display n) k (shown_texts codecs c) (codecs.display s)

-- Lower-case letters and underscores, as in every name of an event and of a field.
abbrev pub is_name : String → Bool
is_name s = all_chars (λ c. is_ascii_lowercase c || nat_eq c b'_') s

-- `Int128Parts` of an amount: the high word rounds down.
abbrev pub high_word : ℤ → ℤ
high_word (pos n) = pos (n / 2 ^ 64)
high_word (negsuc n) = negsuc (n / 2 ^ 64)

abbrev pub low_word : ℤ → ℕ
low_word (pos n) = n % 2 ^ 64
low_word (negsuc n) = 2 ^ 64 - 1 - n % 2 ^ 64

abbrev pub field : String → ScVal → ScMap → ScMap
field key v m = entry (ScVal.symbol key) v m

unfoldable pub vec_of_texts : List String → ScVec
vec_of_texts [] = nil
vec_of_texts (s ∷ ss) = item (ScVal.symbol s) (vec_of_texts ss)

abbrev optional_field : String → Option ScVal → ScMap → ScMap
optional_field key none m = m
optional_field key (some v) m = field key v m

abbrev amount_value : Option ℤ → Option ScVal
amount_value none = none
amount_value (some a) = some (ScVal.i128 (high_word a) (low_word a))

abbrev text_value : Option String → Option ScVal
text_value none = none
text_value (some s) = some (ScVal.string s)

-- The name and the payload that the module's layout table gives to an event.
abbrev pub layout_name : PoolEvent → String
layout_name (new_commitment c i a s) = "new_commitment"
layout_name (nullifier_spent n) = "nullifier"
layout_name (encrypted_note c k t) = "note"
layout_name (withdrawal a s) = "withdrawal"
layout_name (issuer_updated i n k c s) = "issuer"

abbrev pub layout_fields : PoolEvent → ScMap
layout_fields (new_commitment c i a s) = field "commitment" (ScVal.bytes c) (
    field "leaf_index" (ScVal.i64 i) (
      optional_field "deposit_amount" (amount_value a) (optional_field "asset" (text_value s) end)))
layout_fields (nullifier_spent n) = field "nullifier" (ScVal.bytes n) end
layout_fields (encrypted_note c k t) =
    field "commitment" (ScVal.bytes c)
      (field "ephemeral_pubkey" (ScVal.bytes k) (field "ciphertext" (ScVal.bytes t) end))
layout_fields (withdrawal a s) =
    field "amount" (ScVal.i128 (high_word a) (low_word a)) (field "asset" (ScVal.string s) end)
layout_fields (issuer_updated i n k c s) = field "issuer_id" (ScVal.string i) (
    field "name" (ScVal.string n) (
      field "public_key" (ScVal.bytes k)
        (field "claim_types" (ScVal.vec (vec_of_texts c)) (field "status" (ScVal.symbol s) end))))

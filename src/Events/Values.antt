-- ===== src/Events/Values.antt =====
-- The XDR helpers and the hexadecimal helpers of crates/attesta-indexer/src/events.rs.
use attesta_protocol_backend.Prelude.{
  ℕ, ◌^◌, Bool, false, String, Option, none, some, List, [], ◌∷◌, length, ltb, if◌then◌else◌,
  ◌==◌ as nat_eq,
}
use attesta_protocol_backend.Prelude.Bytes.{Bytes}
use attesta_protocol_backend.Prelude.Int.{ℤ, pos, ◌+ℤ◌, ◌*ℤ◌}
use attesta_protocol_backend.Prelude.Keys.{◌==◌, String_eq}
use attesta_protocol_backend.Prelude.Options.{◌>>=◌}
use attesta_protocol_backend.Prelude.Text.{trim_start_0x}
use attesta_protocol_backend.Events.Types.{
  ScVal, ScMap, end, entry, ScVec, nil, item, Codecs, RawEvent,
}

-- `try_into::<[u8; 32]>`
unfoldable pub to_32 : Bytes → Option Bytes
to_32 b = if nat_eq (length b) 32 then some b else none

unfoldable pub value_map : Codecs → RawEvent → Option ScMap
value_map codecs raw = codecs.scval_b64 raw.value >>= elim [ ScVal.map m ↦ some m | _ ↦ none ]

has_key : Codecs → ScVal → String → Bool
has_key codecs (ScVal.symbol s) key = codecs.display s == key
has_key codecs v key = false

-- The first entry whose key is this symbol.
unfoldable pub map_get : Codecs → ScMap → String → Option ScVal
unfolding has_key
map_get codecs end key = none
map_get codecs (entry k v m) key = if has_key codecs k key then some v else map_get codecs m key

unfoldable pub bytes : ScVal → Option Bytes
bytes (ScVal.bytes b) = some b
bytes v = none

unfoldable pub bytes32 : ScVal → Option Bytes
unfolding bytes to_32
bytes32 v = bytes v >>= to_32

-- `i64::try_from` of a `u64`
unfoldable pub i64_of_u64 : ℕ → Option ℤ
i64_of_u64 n = if ltb n (2 ^ 63) then some (pos n) else none

unfoldable pub int64 : ScVal → Option ℤ
unfolding i64_of_u64
int64 (ScVal.u32 n) = some (pos n)
int64 (ScVal.u64 n) = i64_of_u64 n
int64 (ScVal.i64 n) = some n
int64 v = none

-- `(i128::from(hi) << 64) | i128::from(lo)`: `lo` fills the 64 bits that the shift left empty, so the
-- disjunction is a sum.
unfoldable pub join_parts : ℤ → ℕ → ℤ
join_parts hi lo = hi *ℤ pos (2 ^ 64) +ℤ pos lo

unfoldable pub int128 : ScVal → Option ℤ
int128 (ScVal.i128 hi lo) = some (join_parts hi lo)
int128 (ScVal.u64 n) = some (pos n)
int128 (ScVal.i64 n) = some n
int128 (ScVal.u32 n) = some (pos n)
int128 v = none

unfoldable pub text : Codecs → ScVal → Option String
text codecs (ScVal.string s) = some (codecs.display s)
text codecs (ScVal.symbol s) = some (codecs.display s)
text codecs v = none

-- `items.iter().map(text).collect()`
unfoldable pub text_items : Codecs → ScVec → Option (List String)
unfolding text
text_items codecs nil = some []
text_items codecs (item v items) = do
  s ← text codecs v
  rest ← text_items codecs items
  some (s ∷ rest)

unfoldable pub text_vec : Codecs → ScVal → Option (List String)
unfolding text_items
text_vec codecs (ScVal.vec items) = text_items codecs items
text_vec codecs v = none

unfoldable pub hex_bytes : Codecs → String → Option Bytes
unfolding trim_start_0x
hex_bytes codecs s = codecs.hex_decode (trim_start_0x s)

unfoldable pub hex32 : Codecs → String → Option Bytes
unfolding hex_bytes to_32
hex32 codecs s = hex_bytes codecs s >>= to_32

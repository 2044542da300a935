-- ===== src/Events/RoundTrip.antt =====
-- The documented event layout of crates/attesta-indexer/src/events.rs: an event that a contract
-- publishes in it is decoded to that event, its texts as `display` shows them.
use attesta_protocol_backend.Prelude.{
  true, ◌≡◌, refl, String, Option, none, some, List, [], ◌∷◌, length, arith,
}
use attesta_protocol_backend.Prelude.Bytes.{Bytes}
use attesta_protocol_backend.Prelude.Int.{ℤ, pos, negsuc, ◌+ℤ◌, ◌*ℤ◌}
use attesta_protocol_backend.Prelude.Keys.{String_eq}
use attesta_protocol_backend.Events.Types.{
  ScVal, ScMap, RawEvent, PoolEvent, new_commitment, nullifier_spent, encrypted_note, withdrawal,
  issuer_updated, Codecs,
}
use attesta_protocol_backend.Events.Values.{
  to_32, value_map, map_get, bytes, bytes32, int64, join_parts, int128, text, text_items, text_vec,
}
use attesta_protocol_backend.Events.{
  new_commitment_of_map, nullifier_of_value, note_of_map, withdrawal_of_map, issuer_of_map,
  event_name, decode_new_commitment, decode_nullifier, decode_note, decode_withdrawal,
  decode_issuer, decode_named, decode,
}
use attesta_protocol_backend.Prelude.Text.{all_chars}
use attesta_protocol_backend.Events.Layout.{
  HasShape, shown_texts, shown, is_name, high_word, low_word, vec_of_texts, layout_name,
  layout_fields,
}

join-split : (a : ℤ) → join_parts (high_word a) (low_word a) ≡ a
unfolding join_parts ◌+ℤ◌ ◌*ℤ◌
join-split (pos n) = ground arith
join-split (negsuc n) = ground arith

text_items-vec_of_texts :
    (codecs : Codecs) (ss : List String)
    → text_items codecs (vec_of_texts ss) ≡ some (shown_texts codecs ss)
unfolding text_items vec_of_texts shown_texts
text_items-vec_of_texts codecs [] = refl
text_items-vec_of_texts codecs (s ∷ ss) = rw (text_items-vec_of_texts codecs ss)

to_32-eq : (b : Bytes) → length b ≡ 32 → to_32 b ≡ some b
unfolding to_32
to_32-eq b h = ground arith

value_map-eq :
    (codecs : Codecs) (raw : RawEvent) (m : ScMap)
    → codecs.scval_b64 raw.value ≡ some (ScVal.map m)
    → value_map codecs raw ≡ some m
unfolding value_map
value_map-eq codecs raw m v = rw v

-- The names of the events are names.
layout_name-Name : (e : PoolEvent) → is_name (layout_name e) ≡ true
unfolding all_chars
layout_name-Name (new_commitment c i a s) = refl
layout_name-Name (nullifier_spent n) = refl
layout_name-Name (encrypted_note c k t) = refl
layout_name-Name (withdrawal a s) = refl
layout_name-Name (issuer_updated i n k c s) = refl

-- Each payload is read back from its map.
module _ (codecs : Codecs) (plain : (s : String) → is_name s ≡ true → codecs.display s ≡ s)
    (raw : RawEvent) where
  new_commitment-layout :
      (c : Bytes) (i : ℤ) (a : Option ℤ) (s : Option String)
      → length c ≡ 32
      → codecs.scval_b64 raw.value ≡ some (ScVal.map (layout_fields (new_commitment c i a s)))
      → decode_new_commitment codecs raw ≡ some (shown codecs (new_commitment c i a s))
  unfolding decode_new_commitment new_commitment_of_map map_get bytes32 int64 int128 text all_chars
  new_commitment-layout c i none none h v =
      rw
        (
          value_map-eq codecs raw (layout_fields (new_commitment c i none none)) v,
          decode_new_commitment,
        )
        (rw (plain "commitment" refl, plain "leaf_index" refl, to_32-eq c h))
  new_commitment-layout c i none (some s) h v =
      rw
        (
          value_map-eq codecs raw (layout_fields (new_commitment c i none (some s))) v,
          decode_new_commitment,
        )
        (rw (plain "commitment" refl, plain "leaf_index" refl, plain "asset" refl, to_32-eq c h))
  new_commitment-layout c i (some a) none h v =
      rw
        (
          value_map-eq codecs raw (layout_fields (new_commitment c i (some a) none)) v,
          decode_new_commitment,
        )
        (rw (
          plain "commitment" refl,
          plain "leaf_index" refl,
          plain "deposit_amount" refl,
          to_32-eq c h,
          join-split a,
        ))
  new_commitment-layout c i (some a) (some s) h v =
      rw
        (
          value_map-eq codecs raw (layout_fields (new_commitment c i (some a) (some s))) v,
          decode_new_commitment,
        )
        (rw (
          plain "commitment" refl,
          plain "leaf_index" refl,
          plain "deposit_amount" refl,
          plain "asset" refl,
          to_32-eq c h,
          join-split a,
        ))

  nullifier-layout :
      (n : Bytes)
      → length n ≡ 32
      → codecs.scval_b64 raw.value ≡ some (ScVal.map (layout_fields (nullifier_spent n)))
      → decode_nullifier codecs raw ≡ some (nullifier_spent n)
  unfolding decode_nullifier nullifier_of_value map_get bytes32 all_chars
  nullifier-layout n h v = rw (v, decode_nullifier) (rw (plain "nullifier" refl, to_32-eq n h))

  -- `nullifier` may publish its bytes directly.
  pub nullifier-bare :
      (n : Bytes)
      → length n ≡ 32
      → codecs.scval_b64 raw.value ≡ some (ScVal.bytes n)
      → decode_nullifier codecs raw ≡ some (nullifier_spent n)
  unfolding decode_nullifier
  nullifier-bare n h v = rw (v, decode_nullifier) (rw (to_32-eq n h))

  note-layout :
      (c k t : Bytes)
      → length c ≡ 32
      → codecs.scval_b64 raw.value ≡ some (ScVal.map (layout_fields (encrypted_note c k t)))
      → decode_note codecs raw ≡ some (encrypted_note c k t)
  unfolding decode_note note_of_map map_get bytes32 all_chars
  note-layout c k t h v =
      rw (value_map-eq codecs raw (layout_fields (encrypted_note c k t)) v, decode_note)
        (rw (
          plain "commitment" refl,
          plain "ephemeral_pubkey" refl,
          plain "ciphertext" refl,
          to_32-eq c h,
        ))

  withdrawal-layout :
      (a : ℤ) (s : String)
      → codecs.scval_b64 raw.value ≡ some (ScVal.map (layout_fields (withdrawal a s)))
      → decode_withdrawal codecs raw ≡ some (shown codecs (withdrawal a s))
  unfolding decode_withdrawal withdrawal_of_map map_get int128 text all_chars
  withdrawal-layout a s v =
      rw (value_map-eq codecs raw (layout_fields (withdrawal a s)) v, decode_withdrawal)
        (rw (plain "amount" refl, plain "asset" refl, join-split a))

  issuer-layout :
      (i n : String) (k : Bytes) (c : List String) (s : String)
      → codecs.scval_b64 raw.value ≡ some (ScVal.map (layout_fields (issuer_updated i n k c s)))
      → decode_issuer codecs raw ≡ some (shown codecs (issuer_updated i n k c s))
  unfolding decode_issuer issuer_of_map map_get text bytes text_vec all_chars
  issuer-layout i n k c s v =
      rw (value_map-eq codecs raw (layout_fields (issuer_updated i n k c s)) v, decode_issuer)
        (rw (
          plain "issuer_id" refl,
          plain "name" refl,
          plain "public_key" refl,
          plain "claim_types" refl,
          plain "status" refl,
          text_items-vec_of_texts codecs c,
        ))

  decode_named-layout :
      (e : PoolEvent)
      → HasShape e
      → codecs.scval_b64 raw.value ≡ some (ScVal.map (layout_fields e))
      → decode_named codecs raw (layout_name e) ≡ some (shown codecs e)
  unfolding decode_named
  decode_named-layout (new_commitment c i a s) h v = new_commitment-layout c i a s h v
  decode_named-layout (nullifier_spent n) h v = nullifier-layout n h v
  decode_named-layout (encrypted_note c k t) h v = note-layout c k t h v
  decode_named-layout (withdrawal a s) h v = withdrawal-layout a s v
  decode_named-layout (issuer_updated i n k c s) h v = issuer-layout i n k c s v

  event_name-symbol :
      (topic name : String) (rest : List String)
      → is_name name ≡ true
      → raw.topic ≡ topic ∷ rest
      → codecs.scval_b64 topic ≡ some (ScVal.symbol name)
      → event_name codecs raw ≡ some name
  unfolding event_name
  event_name-symbol topic name rest h t n = rw (t, n) (rw (plain name h))

-- Let `display` leave texts of lower-case letters and underscores as they are. A raw event whose first
-- topic is the name of an event, and whose value is the map of its fields, is decoded to that event, its
-- texts as `display` shows them: amounts of either sign, missing optional fields and claim types
-- included. The nodes of the event have 32 bytes.
pub decode-layout :
    (codecs : Codecs) (raw : RawEvent) (e : PoolEvent) (topic : String) (rest : List String)
    → ((s : String) → is_name s ≡ true → codecs.display s ≡ s)
    → HasShape e
    → raw.topic ≡ topic ∷ rest
    → codecs.scval_b64 topic ≡ some (ScVal.symbol (layout_name e))
    → codecs.scval_b64 raw.value ≡ some (ScVal.map (layout_fields e))
    → decode codecs raw ≡ some (shown codecs e)
unfolding decode
decode-layout codecs raw e topic rest plain h t n v =
    rw (event_name-symbol codecs plain raw topic (layout_name e) rest (layout_name-Name e) t n)
      (decode_named-layout codecs plain raw e h v)

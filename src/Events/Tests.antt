-- ===== src/Events/Tests.antt =====
-- Runs of the decoder of crates/attesta-indexer/src/events.rs.
use attesta_protocol_backend.Prelude.{ℕ, ◌≡◌, refl, some, none, [], ◌^◌, ◌-◌}
use attesta_protocol_backend.Prelude.Int.{ℤ, negsuc}
use attesta_protocol_backend.Prelude.Text.{all_chars}
use attesta_protocol_backend.Events.{decode, decode_named, event_name}
use attesta_protocol_backend.Events.Layout.{high_word, low_word}
use attesta_protocol_backend.Events.RoundTrip.{decode-layout}
use attesta_protocol_backend.Events.Samples.{
  deposit, spent, sample_codecs, raw_event, raw_deposit, raw_spent,
}

negative_parts : ◌≡◌ {A = ℤ × ℕ} (high_word (negsuc 4), low_word (negsuc 4)) (negsuc 0, 2 ^ 64 - 5)
negative_parts = refl

decode-layout_example : decode sample_codecs raw_deposit ≡ some deposit
decode-layout_example =
    decode-layout sample_codecs raw_deposit deposit "t-commitment" [] (λ s h. refl) refl refl refl
      refl

spent_decodes : decode sample_codecs raw_spent ≡ some spent
spent_decodes =
    decode-layout sample_codecs raw_spent spent "t-nullifier" [] (λ s h. refl) refl refl refl refl

unknown_name : decode sample_codecs (raw_event "transfer" "v-spent") ≡ none
unfolding decode event_name decode_named all_chars
unknown_name = refl

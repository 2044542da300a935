-- ===== src/Serving/Tests.antt =====
-- Runs of the checks of crates/attesta-core/src/config.rs, crates/attesta-api/src/main.rs and crates/attesta-api/src/request_id.rs.
use attesta_protocol_backend.Prelude.{◌≡◌, refl, String, none, some, [], ◌∷◌}
use attesta_protocol_backend.Prelude.Exec.{ok, err}
use attesta_protocol_backend.Prelude.Text.{all_chars}
use attesta_protocol_backend.Serving.Config.{
  Environment, is_blank, add_to_first, split_comma, trimmed, env_list, has_star, parse_all,
  allow_list, any_origin, cors_layer,
}
use attesta_protocol_backend.Serving.RequestId.{is_ascii_graphic, is_acceptable, request_id_of}

abbrev env : Environment
env = record {
  var = λ key. some "A,,B";
  trim = λ s. s;
  parse_u32 = λ s. none;
  parse_u64 = λ s. none;
}

-- An empty part is no contract.
two_contracts : env_list env "POOL_CONTRACT_IDS" ≡ "A" ∷ "B" ∷ []
unfolding env_list trimmed split_comma add_to_first is_blank
two_contracts = refl

star : cors_layer {V = String} (λ o. none) ("*" ∷ []) ≡ ok (some any_origin)
unfolding cors_layer has_star
star = refl

bad_origin : cors_layer {V = String} (λ o. none) ("?" ∷ []) ≡ err "?"
unfolding cors_layer has_star parse_all allow_list
bad_origin = refl

echoed : request_id_of (some "abc-1") "new" ≡ "abc-1"
unfolding request_id_of is_acceptable is_blank is_ascii_graphic all_chars
echoed = refl

replaced : request_id_of (some "a b") "new" ≡ "new"
unfolding request_id_of is_acceptable is_blank is_ascii_graphic all_chars
replaced = refl

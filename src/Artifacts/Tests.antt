-- ===== src/Artifacts/Tests.antt =====
-- Runs of crates/attesta-api/src/routes/artifacts.rs.
use attesta_protocol_backend.Prelude.{◌≡◌, refl, [], ◌∷◌}
use attesta_protocol_backend.Prelude.Text.{all_chars}
use attesta_protocol_backend.Prelude.Exec.{ok, err}
use attesta_protocol_backend.Api.{bad_request}
use attesta_protocol_backend.Artifacts.{
  is_empty, is_plain, contains_dots, segment_ok, below, add_char, split_slash, without_dot,
  starts_with_slash, join, segments_ok, artifact_path,
}
use attesta_protocol_backend.Artifacts.Inside.{IsInside, artifact_path-IsInside}

accepted :
    artifact_path "dir" "spend" "v1.2" "prover.wasm"
    ≡ ok (below "dir" ("spend" ∷ "v1.2" ∷ "prover.wasm" ∷ []))
unfolding artifact_path segments_ok segment_ok is_empty is_plain contains_dots all_chars join
    split_slash add_char without_dot starts_with_slash
accepted = refl

refused : artifact_path "dir" ".." "v1" "x" ≡ err (bad_request "invalid artifact path segment")
unfolding artifact_path segments_ok segment_ok is_empty is_plain contains_dots all_chars
refused = refl

-- A single dot passes, and is no name of the path.
dot_accepted : artifact_path "dir" "." "." "x" ≡ ok (below "dir" ("x" ∷ []))
unfolding artifact_path segments_ok segment_ok is_empty is_plain contains_dots all_chars join
    split_slash add_char without_dot starts_with_slash
dot_accepted = refl

artifact_path-IsInside_example :
    IsInside "dir" (below "dir" ("spend" ∷ "v1.2" ∷ "prover.wasm" ∷ []))
artifact_path-IsInside_example =
    artifact_path-IsInside "dir" "spend" "v1.2" "prover.wasm"
      (below "dir" ("spend" ∷ "v1.2" ∷ "prover.wasm" ∷ [])) accepted

-- ===== src/Artifacts.antt =====
-- crates/attesta-api/src/routes/artifacts.rs: the files of the prover. The file system, the JSON parser, SHA-256 and the
-- hexadecimal codec are parameters. A path is a directory and the names below it.
pub mod Inside
mod Tests
use Prim.Native.String.{len as byte_len}
use Prim.Native.Char.{Char, code}
use attesta_protocol_backend.Prelude.{
  ℕ, Bool, true, false, ◌&&◌, ◌||◌, not, String, Option, none, some, List, [], ◌∷◌, ◌++◌, leb,
  ◌==◌ as nat_eq, if◌then◌else◌,
}
use attesta_protocol_backend.Prelude.Bytes.{Bytes}
use attesta_protocol_backend.Prelude.Keys.{◌==◌, String_eq}
use attesta_protocol_backend.Prelude.Text.{all_chars, is_ascii_lowercase}
use attesta_protocol_backend.Prelude.Exec.{Result, ok, err}
use attesta_protocol_backend.Api.{ApiError, not_found, bad_request}

unfoldable pub is_empty : String → Bool
is_empty String.[] = true
is_empty (String.◌∷◌ c s) = false

-- `c.is_ascii_alphanumeric() || matches!(c, '-' | '_' | '.')`
unfoldable pub is_plain : ℕ → Bool
is_plain c =
    is_ascii_lowercase c
    || (leb b'A' c && leb c b'Z')
    || (leb b'0' c && leb c b'9')
    || nat_eq c b'-'
    || nat_eq c b'_'
    || nat_eq c b'.'

-- `segment.contains("..")`
unfoldable pub contains_dots : String → Bool
contains_dots String.[] = false
contains_dots (String.◌∷◌ c String.[]) = false
contains_dots (String.◌∷◌ c (String.◌∷◌ d s)) =
    (nat_eq (code c) b'.' && nat_eq (code d) b'.') || contains_dots (String.◌∷◌ d s)

unfoldable pub segment_ok : String → Bool
unfolding is_empty is_plain contains_dots
segment_ok segment =
    not (is_empty segment)
    && leb (byte_len segment) 128
    && all_chars is_plain segment
    && not (contains_dots segment)

-- Below a directory, or from the root.
pub data PathBuf : Type 0 where
  below : String → List String → PathBuf
  absolute : List String → PathBuf

unfoldable pub add_char : Char → List String → List String
add_char c [] = String.◌∷◌ c String.[] ∷ []
add_char c (name ∷ names) = String.◌∷◌ c name ∷ names

-- The names between the slashes.
unfoldable pub split_slash : String → List String
unfolding add_char
split_slash String.[] = String.[] ∷ []
split_slash (String.◌∷◌ c s) =
    let rest = split_slash s in if nat_eq (code c) b'/' then String.[] ∷ rest else add_char c rest

-- `Path::components` skips empty names, and `.`.
unfoldable pub without_dot : List String → List String
unfolding is_empty
without_dot [] = []
without_dot (name ∷ names) =
    let rest = without_dot names in if is_empty name || name == "." then rest else name ∷ rest

unfoldable pub starts_with_slash : String → Bool
starts_with_slash String.[] = false
starts_with_slash (String.◌∷◌ c s) = nat_eq (code c) b'/'

-- `PathBuf::join`: an absolute path replaces what it is joined to.
unfoldable pub join : PathBuf → String → PathBuf
unfolding split_slash without_dot starts_with_slash
join (below dir names) segment =
    let added = without_dot (split_slash segment) in
    if starts_with_slash segment then absolute added else below dir (names ++ added)
join (absolute names) segment =
    let added = without_dot (split_slash segment) in
    if starts_with_slash segment then absolute added else absolute (names ++ added)

unfoldable pub segments_ok : List String → Bool
unfolding segment_ok
segments_ok [] = true
segments_ok (segment ∷ segments) = segment_ok segment && segments_ok segments

unfoldable pub artifact_path : String → String → String → String → Result ApiError PathBuf
unfolding segments_ok join
artifact_path dir circuit version file =
    if segments_ok (circuit ∷ version ∷ file ∷ [])
    then ok (join (join (join (below dir []) circuit) version) file)
    else err (bad_request "invalid artifact path segment")

-- What the handlers use of other code.
pub record Files (J : Type 0) : Type 0 where
  pub read : PathBuf → Option Bytes
  pub parse_json : Bytes → Option J
  pub sha256_hex : Bytes → String

abbrev pub then_some :
    {A B : Type 0} → ApiError → Option A → (A → Result ApiError B) → Result ApiError B
then_some e none f = err e
then_some e (some a) f = f a

abbrev pub then_ok :
    {A B : Type 0} → Result ApiError A → (A → Result ApiError B) → Result ApiError B
then_ok (err e) f = err e
then_ok (ok a) f = f a

unfoldable pub get_manifest : {J : Type 0} → Files J → String → String → String → Result ApiError J
unfolding artifact_path
get_manifest files dir circuit version =
    then_ok (artifact_path dir circuit version "manifest.json") λ path.
      then_some (not_found "unknown circuit/version") (files.read path)
        λ bytes. then_some (bad_request "corrupt manifest on server") (files.parse_json bytes) ok

-- The response 200 of a file.
pub record FileResponse : Type 0 where
  pub content_type : String
  pub x_artifact_sha256 : String
  pub cache_control : String
  pub body : Bytes

unfoldable pub get_file :
    {J : Type 0} → Files J → String → String → String → String → Result ApiError FileResponse
unfolding artifact_path
get_file files dir circuit version file = then_ok (artifact_path dir circuit version file) λ path.
    then_some (not_found "unknown artifact") (files.read path) λ bytes. ok (record {
      content_type = "application/octet-stream";
      x_artifact_sha256 = files.sha256_hex bytes;
      cache_control = "public, max-age=31536000, immutable";
      body = bytes;
    })

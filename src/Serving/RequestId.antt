-- ===== src/Serving/RequestId.antt =====
-- crates/attesta-api/src/request_id.rs: the id of a request. The ids that `Uuid::new_v4` draws, the header values and the
-- JSON codec are parameters; the log span is left out.
use Prim.Native.String.{len as byte_len}
use attesta_protocol_backend.Prelude.{
  ℕ, Bool, ◌&&◌, not, String, Option, none, some, [], leb, if◌then◌else◌, length,
}
use attesta_protocol_backend.Prelude.Bytes.{Bytes}
use attesta_protocol_backend.Prelude.Text.{all_chars}
use attesta_protocol_backend.Serving.Config.{is_blank}

abbrev pub max_len : ℕ
max_len = 128

-- `char::is_ascii_graphic`
unfoldable pub is_ascii_graphic : ℕ → Bool
is_ascii_graphic c = leb b'!' c && leb c b'~'

unfoldable pub is_acceptable : String → Bool
unfolding is_blank is_ascii_graphic
is_acceptable s = not (is_blank s) && leb (byte_len s) max_len && all_chars is_ascii_graphic s

-- The id of the request: the client's, where its header is a text and it is acceptable, or a new one.
unfoldable pub request_id_of : Option String → String → String
unfolding is_acceptable
request_id_of none fresh = fresh
request_id_of (some s) fresh = if is_acceptable s then s else fresh

-- A response, where the body may be too large or fail when it is read.
pub record Response : Type 0 where
  pub status : ℕ
  pub request_id : Option String
  pub content_length : Option ℕ
  pub body : Option Bytes

-- `serde_json` on a body: `none` where it is no JSON, else the text of the value, with the member
-- `request_id` set where it is an object.
pub record Json : Type 0 where
  pub with_request_id : String → Bytes → Option Bytes

unfoldable pub embed_id_in_json_body : Json → String → Response → Response
embed_id_in_json_body json id response = read response.body
  where
    parsed : Bytes → Option Bytes → Response
    parsed bytes none = record response { content_length = none }
    parsed bytes (some new_body) = record response {
      content_length = some (length new_body);
      body = some new_body;
    }

    read : Option Bytes → Response
    read none = record response { content_length = none; body = some [] }
    read (some bytes) = parsed bytes (json.with_request_id id bytes)

unfoldable pub attach_request_id :
    Json → (String → Bool) → Option String → String → Response → Response
unfolding request_id_of embed_id_in_json_body
attach_request_id json is_header_value incoming fresh response =
    let id = request_id_of incoming fresh in
    let tagged =
      if is_header_value id then record response { request_id = some id } else response in
    if leb 500 tagged.status && leb tagged.status 599
    then embed_id_in_json_body json id tagged
    else tagged

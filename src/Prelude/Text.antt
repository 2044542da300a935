-- ===== src/Prelude/Text.antt =====
-- The string operations of Rust's standard library that the program uses.
use Prim.Native.String.{String}
use Prim.Native.Char.{code}
use attesta_protocol_backend.Prelude.{ℕ, Bool, true, ◌&&◌, ◌==◌, leb, if◌then◌else◌}

-- `s.chars().all(test)`, the test on code points
unfoldable pub all_chars : (ℕ → Bool) → String → Bool
all_chars test String.[] = true
all_chars test (String.◌∷◌ c s) = test (code c) && all_chars test s

-- `s.trim_start_matches("0x")`: every leading `0x` goes.
unfoldable pub trim_start_0x : String → String
trim_start_0x String.[] = String.[]
trim_start_0x (String.◌∷◌ c String.[]) = String.◌∷◌ c String.[]
trim_start_0x (String.◌∷◌ c (String.◌∷◌ d s)) =
    if code c == b'0' && code d == b'x' then trim_start_0x s else String.◌∷◌ c (String.◌∷◌ d s)

abbrev pub is_ascii_lowercase : ℕ → Bool
is_ascii_lowercase c = leb b'a' c && leb c b'z'

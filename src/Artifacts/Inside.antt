-- ===== src/Artifacts/Inside.antt =====
-- The paths of crates/attesta-api/src/routes/artifacts.rs stay inside their directory.
use Prim.Native.Char.{code}
use attesta_protocol_backend.Prelude.{
  ℕ, ◌≡◌, ◌≢◌, refl, ap, subst, Bool, true, false, ◌&&◌, ◌||◌, String, List, [], ◌∷◌, ◌++◌, arith,
  All, ◌==◌ as nat_eq, if◌then◌else◌,
}
use attesta_protocol_backend.Prelude.Keys.{◌==◌, String_eq}
use attesta_protocol_backend.Prelude.Text.{all_chars}
use attesta_protocol_backend.Prelude.Exec.{Result, ok, err}
use attesta_protocol_backend.Api.{ApiError, bad_request}
use attesta_protocol_backend.Artifacts.{
  is_empty, is_plain, contains_dots, segment_ok, PathBuf, below, absolute, add_char, split_slash,
  without_dot, starts_with_slash, join, segments_ok, artifact_path,
}

both : (a b : Bool) → (a && b) ≡ true → (a ≡ true) × (b ≡ true)
both a b e = ground arith

is_plain-slash : (c : ℕ) → is_plain c ≡ true → nat_eq c b'/' ≡ false
unfolding is_plain
is_plain-slash c e = ground arith

-- A text without a slash is one name.
split_slash-plain : (s : String) → all_chars is_plain s ≡ true → split_slash s ≡ s ∷ []
unfolding all_chars split_slash add_char
split_slash-plain String.[] e = refl
split_slash-plain (String.◌∷◌ c s) e =
    let (first, rest) = both (is_plain (code c)) (all_chars is_plain s) e in
    rw (is_plain-slash (code c) first, split_slash-plain s rest) refl

starts_plain : (s : String) → all_chars is_plain s ≡ true → starts_with_slash s ≡ false
unfolding all_chars starts_with_slash
starts_plain String.[] e = refl
starts_plain (String.◌∷◌ c s) e =
    is_plain-slash (code c) (both (is_plain (code c)) (all_chars is_plain s) e).0

no_dots : (s : String) → contains_dots s ≡ false → s ≢ ".."
unfolding contains_dots
no_dots s e same = absurd (let f : contains_dots s ≡ true = ap contains_dots same in cc)

-- A name that no file system reads as a step up or as more than one name.
abbrev pub IsName : String → Type 0
IsName name = (name ≢ "..") × (split_slash name ≡ name ∷ [])

segment_ok-IsName : (s : String) → segment_ok s ≡ true → IsName s × (starts_with_slash s ≡ false)
unfolding segment_ok
segment_ok-IsName s e =
    let chars : all_chars is_plain s ≡ true = ground arith in
    let dots : contains_dots s ≡ false = ground arith in
    ((no_dots s dots, split_slash-plain s chars), starts_plain s chars)

-- What stays inside a directory.
unfoldable pub IsInside : String → PathBuf → Type 0
IsInside dir (below d names) = (d ≡ dir) × All IsName names
IsInside dir (absolute names) = ⊥

All-snoc :
    (names more : List String) → All IsName names → All IsName more → All IsName (names ++ more)
All-snoc [] more a b = b
All-snoc (name ∷ names) more a b = (a.0, All-snoc names more a.1 b)

without_dot-IsName : (s : String) → IsName s → All IsName (without_dot (s ∷ []))
unfolding without_dot
without_dot-IsName s n = go (is_empty s || s == ".")
  where
    go : (b : Bool) → All IsName (if b then [] else s ∷ [])
    go true = tt
    go false = (n, tt)

join-IsInside :
    (dir : String) (p : PathBuf) (s : String)
    → IsInside dir p
    → segment_ok s ≡ true
    → IsInside dir (join p s)
unfolding join IsInside
join-IsInside dir (absolute names) s i e = absurd i
join-IsInside dir (below d names) s i e =
    let (name, start) = segment_ok-IsName s e in
    rw (start, name.1) (i.0, All-snoc names (without_dot (s ∷ [])) i.1 (without_dot-IsName s name))

path_or : PathBuf → Result ApiError PathBuf → PathBuf
path_or d (ok p) = p
path_or d (err e) = d

all_ok :
    (circuit version file : String)
    → segments_ok (circuit ∷ version ∷ file ∷ []) ≡ true
    → (segment_ok circuit ≡ true) × (segment_ok version ≡ true) × (segment_ok file ≡ true)
unfolding segments_ok
all_ok circuit version file e = ground arith

joined : (dir circuit version file : String) → PathBuf
joined dir circuit version file = join (join (join (below dir []) circuit) version) file

joined-IsInside :
    (dir circuit version file : String)
    → segments_ok (circuit ∷ version ∷ file ∷ []) ≡ true
    → IsInside dir (joined dir circuit version file)
unfolding joined IsInside
joined-IsInside dir circuit version file i =
    let (a, b, c) = all_ok circuit version file i in
    join-IsInside dir (join (join (below dir []) circuit) version) file
      (join-IsInside dir (join (below dir []) circuit) version
        (join-IsInside dir (below dir []) circuit (refl, tt) a) b)
      c

-- A path that `artifact_path` returns stays below the directory of the artifacts: none of its names holds a
-- slash, and none is `..`.
pub artifact_path-IsInside :
    (dir circuit version file : String) (p : PathBuf)
    → artifact_path dir circuit version file ≡ ok p
    → IsInside dir p
unfolding artifact_path joined path_or
artifact_path-IsInside dir circuit version file p e =
    go (segments_ok (circuit ∷ version ∷ file ∷ [])) refl e
  where
    go :
        (b : Bool)
        → segments_ok (circuit ∷ version ∷ file ∷ []) ≡ b
        → (if b
            then ok (joined dir circuit version file)
            else err (bad_request "invalid artifact path segment"))
          ≡ ok p
        → IsInside dir p
    go true i e =
        subst (IsInside dir) (ap (path_or p) e) (joined-IsInside dir circuit version file i)
    go false i e = absurd (cc)

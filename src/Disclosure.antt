-- ===== src/Disclosure.antt =====
-- crates/attesta-disclosure/src/main.rs: the reports for an auditor, generated from the public data of a backend and
-- verified against it. A backend is what it answers to the two requests; the files are what was read.
-- Printing is left out.
pub mod Pages
pub mod Reported
pub mod Verdict
mod Tests
use attesta_protocol_backend.Prelude.{
  ℕ, zero, suc, ◌≡◌, Bool, true, false, String, Option, none, some, List, [], ◌∷◌, ◌++◌, length,
  if◌then◌else◌,
}
use attesta_protocol_backend.Prelude.Int.{ℤ, pos}
use attesta_protocol_backend.Prelude.Bytes.{Bytes}
use attesta_protocol_backend.Prelude.Keys.{◌==◌, String_eq}
use attesta_protocol_backend.Prelude.Exec.{Result, ok, err, Exec, pure, fail, resume, ◌>>=◌}
use attesta_protocol_backend.Merkle.{TreeHasher}
use attesta_protocol_backend.Database.{EncryptedNoteRow}
use attesta_protocol_backend.Api.{Fault, Hex}
use attesta_protocol_backend.Tree.{Server}
use attesta_protocol_backend.Tree.Roots.{RootResponse, get_root}
use attesta_protocol_backend.Notes.{NotesPage, list_notes}

-- How a command fails.
pub data CliError : Type 0 where
  reading_viewing_key : CliError
  reading_report : CliError
  report_missing : String → CliError
  request_failed : CliError

-- The JSON values, where a member that is absent or of another type is `none`.
pub record RootJson : Type 0 where
  pub root : Option String
  pub anchored_ledger : Option ℤ

pub record PageJson (N : Type 0) : Type 0 where
  pub notes : Option (List N)
  pub next_cursor : Option ℤ

pub record ReportJson : Type 0 where
  pub pool : Option String
  pub tree_root : Option String
  pub anchored_ledger : Option ℤ

pub record Report (N : Type 0) : Type 0 where
  pub version : ℕ
  pub pool : String
  pub generated_at : String
  pub tree_root : String
  pub anchored_ledger : ℤ
  pub entries : List N
  pub total_notes_scanned : ℕ

-- GET /v1/tree/{pool}/root?at_ledger= and GET /v1/notes?pool=&since_cursor=
pub record Backend (S N : Type 0) : Type 0 where
  pub tree_root : String → Option ℤ → Exec S CliError RootJson
  pub notes_page : String → Option ℤ → Exec S CliError (PageJson N)

-- `if let Some(items) = page["notes"].as_array()`
abbrev pub items : {N : Type 0} → Option (List N) → List N
items none = []
items (some notes) = notes

module _ {S N : Type 0} where
  -- `match page["next_cursor"].as_i64()`
  unfoldable pub next_page :
      Option ℤ
      → List N
      → S
      → (ℤ → List N → S → Option (Result CliError (List N) × S))
      → Option (Result CliError (List N) × S)
  next_page none notes s next = some (ok notes, s)
  next_page (some c) notes s next = next c notes s

  -- The rest of a round: the notes of the page, and the next request if there is one.
  unfoldable pub after_page :
      List N
      → Result CliError (PageJson N) × S
      → (ℤ → List N → S → Option (Result CliError (List N) × S))
      → Option (Result CliError (List N) × S)
  unfolding next_page
  after_page notes (err e, s) next = some (err e, s)
  after_page notes (ok page, s) next = next_page page.next_cursor (notes ++ items page.notes) s next

  -- The loop of `generate`, with fuel; `none` where the fuel ran out.
  unfoldable pub page_through :
      (Option ℤ → Exec S CliError (PageJson N))
      → ℕ
      → List N
      → Option ℤ
      → S
      → Option (Result CliError (List N) × S)
  unfolding after_page
  page_through get zero notes cursor s = none
  page_through get (suc fuel) notes cursor s =
      after_page notes (get cursor s) (λ c notes s. page_through get fuel notes (some c) s)

abbrev pub text_or_default : Option String → String
text_or_default none = ""
text_or_default (some text) = text

abbrev pub number_or_default : Option ℤ → ℤ
number_or_default none = pos 0
number_or_default (some n) = n

-- The decryption of the notes is not written yet: a report has no entries.
unfoldable pub report_of : {N : Type 0} → String → String → RootJson → List N → Report N
report_of now pool root notes = record {
  version = 1;
  pool = pool;
  generated_at = now;
  tree_root = text_or_default root.root;
  anchored_ledger = number_or_default root.anchored_ledger;
  entries = [];
  total_notes_scanned = length notes;
}

abbrev pub member : {S A : Type 0} → CliError → Option A → Exec S CliError A
member e none = fail e
member e (some a) = pure a

-- `historical["root"] == report["tree_root"]`
abbrev pub same_text : Option String → Option String → Bool
same_text none none = true
same_text none (some b) = false
same_text (some a) none = false
same_text (some a) (some b) = a == b

module _ {S N : Type 0} where
  unfoldable pub with_notes :
      String
      → String
      → RootJson
      → Option (Result CliError (List N) × S)
      → Option (Result CliError (Report N) × S)
  unfolding report_of
  with_notes now pool root none = none
  with_notes now pool root (some (err e, s)) = some (err e, s)
  with_notes now pool root (some (ok notes, s)) = some (ok (report_of now pool root notes), s)

  unfoldable pub after_root :
      Backend S N
      → ℕ
      → String
      → String
      → Result CliError RootJson × S
      → Option (Result CliError (Report N) × S)
  unfolding with_notes page_through
  after_root backend fuel now pool (err e, s) = some (err e, s)
  after_root backend fuel now pool (ok root, s) =
      with_notes now pool root (page_through (backend.notes_page pool) fuel [] none s)

  -- `generate`, with what was read from the file of the viewing key.
  unfoldable pub generate :
      Backend S N → ℕ → String → String → Option Bytes → S → Option (Result CliError (Report N) × S)
  unfolding after_root
  generate backend fuel now pool none s = some (err reading_viewing_key, s)
  generate backend fuel now pool (some key) s =
      after_root backend fuel now pool (backend.tree_root pool none s)

  -- `verify`, with what was read from the file of the report; the answer is `roots_match`.
  unfoldable pub verify : Backend S N → Option ReportJson → Exec S CliError Bool
  verify backend none = fail reading_report
  verify backend (some report) = do
    pool ← member (report_missing "pool") report.pool
    anchored_ledger ← member (report_missing "anchored_ledger") report.anchored_ledger
    historical ← backend.tree_root pool (some anchored_ledger)
    pure (same_text historical.root report.tree_root)

-- A report as it is written to the file.
unfoldable pub report_json : {N : Type 0} → Report N → ReportJson
report_json report = record {
  pool = some report.pool;
  tree_root = some report.tree_root;
  anchored_ledger = some report.anchored_ledger;
}

-- `error_for_status`, for the handlers of crates/attesta-api.
abbrev pub over_http :
    {A B : Type 0} → (A → B) → Result Fault A × Server → Result CliError B × Server
over_http json (ok a, s) = (ok (json a), s)
over_http json (err e, s) = (err request_failed, s)

abbrev pub root_json : RootResponse → RootJson
root_json response = record {
  root = some response.root;
  anchored_ledger = some response.anchored_ledger;
}

abbrev pub page_json : NotesPage → PageJson EncryptedNoteRow
page_json page = record { notes = some page.notes; next_cursor = page.next_cursor }

-- The backend that crates/attesta-api serves.
unfoldable pub api : TreeHasher → Hex → Backend Server EncryptedNoteRow
unfolding get_root list_notes
api h hex = record {
  tree_root = λ pool at s.
      over_http root_json (get_root h hex pool (record { at_ledger = at; at_leaf_count = none }) s);
  notes_page = λ pool cursor s.
      over_http page_json (list_notes (record { since_cursor = cursor; pool = some pool }) s);
}

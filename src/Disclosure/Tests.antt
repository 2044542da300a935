-- ===== src/Disclosure/Tests.antt =====
-- Runs of the commands of crates/attesta-disclosure/src/main.rs.
use attesta_protocol_backend.Prelude.{ℕ, ◌≡◌, refl, ◌<◌, true, none, some, [], ◌∷◌, arith, length}
use attesta_protocol_backend.Prelude.Int.{pos, as_i64, max_ℤ}
use attesta_protocol_backend.Prelude.HashMap.{find, insert}
use attesta_protocol_backend.Prelude.Exec.{ok, err}
use attesta_protocol_backend.Database.{EncryptedNoteRow, empty_database}
use attesta_protocol_backend.Notes.Order.{kept}
use attesta_protocol_backend.Merkle.{
  len, new, push_zeros, append, push_leaf, update_ancestors, put_parent, root, is_empty,
}
use attesta_protocol_backend.Merkle.Append.{mirror}
use attesta_protocol_backend.Merkle.Layers.{layers_above}
use attesta_protocol_backend.Events.Values.{to_32}
use attesta_protocol_backend.Tree.{
  Server, append_rows, append_node, select_leaves, insert_by_leaf, store_tree, flush_roots,
  insert_roots, has_root, execute, write, fetch, answered, or_default, new_pool_tree, unless_empty,
  sync_pool_tree, hex0x,
}
use attesta_protocol_backend.Tree.Roots.{get_root, both_given, root_at, current_root}
use attesta_protocol_backend.Tree.Samples.{
  toy, toy_hex, server, leaf, server, one_synced, grown, two_tree, two_synced,
}
use attesta_protocol_backend.Tree.Runs.{two_sync, one-Recorded, grown-Recorded, toy_returns_32}
use attesta_protocol_backend.Notes.{
  in_pool, insert_by_id, select_notes, last_id, notes_page, list_notes,
}
use attesta_protocol_backend.Disclosure.{
  CliError, Report, api, next_page, after_page, page_through, report_of, with_notes, after_root,
  generate, verify, report_json,
}
use attesta_protocol_backend.Disclosure.Pages.{page_through-all}
use attesta_protocol_backend.Disclosure.Verdict.{verify-generate}

abbrev note : ℕ → EncryptedNoteRow
note id = record {
  id = pos id;
  pool = "POOL";
  commitment = [];
  ephemeral_pubkey = [];
  ciphertext = [];
  ledger = pos 1;
  tx_hash = "tx";
}

abbrev with_two_notes : Server
with_two_notes = record {
  db = record empty_database { encrypted_notes = note 2 ∷ note 5 ∷ [] };
  answers = [];
  trees = [];
}

abbrev first_report : Report EncryptedNoteRow
first_report = record {
  version = 1;
  pool = "POOL";
  generated_at = "now";
  tree_root = "0x07";
  anchored_ledger = pos 5;
  entries = [];
  total_notes_scanned = 0;
}

generated :
    generate (api toy toy_hex) 1 "now" "POOL" (some []) server ≡ some (ok first_report, one_synced)
unfolding generate after_root with_notes report_of page_through after_page next_page api get_root
    both_given root_at current_root hex0x list_notes select_notes insert_by_id notes_page last_id
    sync_pool_tree len as_i64 find insert new push_zeros to_32 append push_leaf update_ancestors
    put_parent root append_rows append_node select_leaves insert_by_leaf store_tree flush_roots
    insert_roots has_root execute write fetch answered or_default new_pool_tree unless_empty
    is_empty max_ℤ mirror layers_above
generated = refl

no_key :
    generate (api toy toy_hex) 1 "now" "POOL" none server
    ≡ some (err CliError.reading_viewing_key, server)
unfolding generate
no_key = refl

verify-generate_example :
    verify (api toy toy_hex) (some (report_json first_report)) grown ≡ (ok true, two_synced)
unfolding select_leaves as_i64
verify-generate_example =
    verify-generate toy toy_hex "POOL" "now" [] 1 first_report server one_synced grown two_synced
      ((leaf, pos 5) ∷ []) [] two_tree toy_returns_32 generated one-Recorded grown-Recorded refl
      (omega arith) tt (refl, tt) two_sync

two_kept : length (kept (in_pool (some "POOL")) with_two_notes.db.encrypted_notes) < 500
unfolding kept
two_kept = omega arith

page_through-all_example :
    page_through ((api toy toy_hex).notes_page "POOL") 1 [] none with_two_notes
    ≡ some (ok (kept (in_pool (some "POOL")) with_two_notes.db.encrypted_notes), with_two_notes)
page_through-all_example =
    page_through-all toy toy_hex "POOL" with_two_notes 1 ((refl, tt), (tt, tt)) (refl, (refl, tt))
      refl (omega (arith, two_kept))

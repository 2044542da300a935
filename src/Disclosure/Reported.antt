-- ===== src/Disclosure/Reported.antt =====
-- What a report of crates/attesta-disclosure/src/main.rs says of the tree that it was generated from.
use attesta_protocol_backend.Prelude.{
  ℕ, zero, suc, ◌≡◌, refl, sym, ◌∙◌, ap, false, ◌&&◌, take, String, Option, none, some, List, [],
  ◌++◌,
}
use attesta_protocol_backend.Prelude.Bytes.{Bytes}
use attesta_protocol_backend.Prelude.Int.{ℤ, pos, as_i64, ltb_ℤ}
use attesta_protocol_backend.Prelude.Keys.{String_eq}
use attesta_protocol_backend.Prelude.HashMap.{find}
use attesta_protocol_backend.Prelude.Exec.{Result, ok, err, pure, resume}
use attesta_protocol_backend.Database.{Database, EncryptedNoteRow}
use attesta_protocol_backend.Merkle.{Node, TreeHasher, len, is_empty, root}
use attesta_protocol_backend.Prelude.Run.{Run, returns, panics}
use attesta_protocol_backend.Merkle.Append.{mirror}
use attesta_protocol_backend.Api.{Fault, Hex, lift}
use attesta_protocol_backend.Tree.{PoolTree, Server, fetch, or_default, sync_pool_tree, hex0x}
use attesta_protocol_backend.Tree.Roots.{RootResponse, root_at, current_root, get_root, both_given}
use attesta_protocol_backend.Tree.History.{Entry, nodes, top, anchor, root-top}
use attesta_protocol_backend.Tree.Recorded.{Recorded, cached}
use attesta_protocol_backend.Tree.Cached.{fetch-trees, Kept, sync_pool_tree-Kept}
use attesta_protocol_backend.Notes.{
  NotesQuery, NotesPage, page_size, id_or, in_pool, select_notes, notes_page, list_notes,
}
use attesta_protocol_backend.Disclosure.{
  CliError, PageJson, Report, api, next_page, items, after_page, page_through, report_of,
  with_notes, after_root, generate, over_http, page_json, root_json,
}

-- The answer for the tree as it stands.
abbrev current : Hex → String → PoolTree → Node → RootResponse
current hex pool t r = record {
  pool = pool;
  root = hex0x hex r;
  leaf_count = as_i64 (len t.tree);
  anchored_ledger = t.anchored_ledger;
}

list_notes-trees : (q : NotesQuery) (s : Server) → (list_notes q s).1.trees ≡ s.trees
unfolding list_notes
list_notes-trees q s = returned (fetch select s) (fetched s)
  where
    select : Database → List EncryptedNoteRow
    select db = take page_size (
        select_notes (λ n. ltb_ℤ (id_or (pos 0) q.since_cursor) n.id && in_pool q.pool n)
          db.encrypted_notes)

    fetched : (s : Server) → (fetch select s).1.trees ≡ s.trees
    fetched s = fetch-trees select s

    returned :
        (r : Result Fault (List EncryptedNoteRow) × Server)
        → r.1.trees ≡ s.trees
        → (resume r (λ notes. pure (notes_page notes))).1.trees ≡ s.trees
    returned (ok rows, s') e = e
    returned (err x, s') e = e

module _ (h : TreeHasher) (hex : Hex) (pool : String) where
  abbrev get : Option ℤ → Server → Result CliError (PageJson EncryptedNoteRow) × Server
  get = (api h hex).notes_page pool

  get-trees : (cursor : Option ℤ) (s : Server) → (get cursor s).1.trees ≡ s.trees
  unfolding api
  get-trees cursor s = sent (list_notes q s) ∙ list_notes-trees q s
    where
      q : NotesQuery
      q = record { since_cursor = cursor; pool = some pool }

      sent : (r : Result Fault NotesPage × Server) → (over_http page_json r).1.trees ≡ r.1.trees
      sent (ok a, s') = refl
      sent (err e, s') = refl

  -- Reading the pages leaves the trees.
  abbrev SameTrees : {A : Type 0} → Server → Option (Result CliError A × Server) → Type 0
  SameTrees s none = Unit
  SameTrees s (some (r, s')) = s'.trees ≡ s.trees

  abbrev Loop : Type 0
  Loop =
      ℤ → List EncryptedNoteRow → Server → Option (Result CliError (List EncryptedNoteRow) × Server)

  module _ (s₀ : Server) where
    module _ (loop : Loop)
        (k : (c : ℤ) (notes : List EncryptedNoteRow) (s : Server)
          → s.trees ≡ s₀.trees
          → SameTrees s₀ (loop c notes s)) where
      next_page-SameTrees :
          (c : Option ℤ) (notes : List EncryptedNoteRow) (s : Server)
          → s.trees ≡ s₀.trees
          → SameTrees s₀ (next_page c notes s loop)
      unfolding next_page
      next_page-SameTrees none notes s e = e
      next_page-SameTrees (some c) notes s e = k c notes s e

      after_page-SameTrees :
          (notes : List EncryptedNoteRow) (r : Result CliError (PageJson EncryptedNoteRow) × Server)
          → r.1.trees ≡ s₀.trees
          → SameTrees s₀ (after_page notes r loop)
      unfolding after_page
      after_page-SameTrees notes (err e, s) t = t
      after_page-SameTrees notes (ok page, s) t =
          next_page-SameTrees page.next_cursor (notes ++ items page.notes) s t

    page_through-SameTrees :
        (fuel : ℕ) (notes : List EncryptedNoteRow) (cursor : Option ℤ) (s : Server)
        → s.trees ≡ s₀.trees
        → SameTrees s₀ (page_through get fuel notes cursor s)
    unfolding page_through
    page_through-SameTrees zero notes cursor s e = tt
    page_through-SameTrees (suc fuel) notes cursor s e =
        after_page-SameTrees (λ c notes s. page_through get fuel notes (some c) s)
          (λ c notes s e. page_through-SameTrees fuel notes (some c) s e) notes (get cursor s)
          (get-trees cursor s ∙ e)

  -- What a report says of the tree of these entries.
  pub record Reports (report : Report EncryptedNoteRow) (ls : List Entry) : Type 0 where
    pub pool_of : report.pool ≡ pool
    pub root_of : report.tree_root ≡ hex0x hex (top h (nodes ls))
    pub anchor_of : report.anchored_ledger ≡ anchor (pos 0) ls
    pub nonempty : is_empty (mirror h (nodes ls)) ≡ false

  module _ (fuel : ℕ) (now : String) (report : Report EncryptedNoteRow) (s₁ : Server)
      (ls : List Entry) (m : Recorded h pool s₁ ls) where
    written :
        (r : Node) (t : PoolTree) (s : Server)
        (p : Option (Result CliError (List EncryptedNoteRow) × Server))
        → root t.tree ≡ returns r
        → cached h pool s ≡ t
        → is_empty t.tree ≡ false
        → SameTrees s p
        → with_notes now pool (root_json (current hex pool t r)) p ≡ some (ok report, s₁)
        → Reports report ls
    unfolding with_notes report_of
    written r t s none q c i k e = absurd (cc)
    written r t s (some (err x, s')) q c i k e = absurd (cc)
    written r t s (some (ok notes, s')) q c i k e =
        let same : s' ≡ s₁ = cc in
        let at : cached h pool s₁ ≡ t =
          ap (cached h pool) (sym same) ∙ ap (λ trees. or_default h (find pool trees)) k ∙ c in
        let tree : t.tree ≡ mirror h (nodes ls) = ap (λ t. t.tree) (sym at) ∙ m.tree in
        let now_root : returns r ≡ returns (top h (nodes ls)) =
          sym q ∙ ap root tree ∙ root-top h (nodes ls) in
        let same_root : r ≡ top h (nodes ls) = cc in
        let is : report_of now pool (root_json (current hex pool t r)) notes ≡ report = cc in
        record {
          pool_of = ap (λ r. r.pool) (sym is);
          root_of = ap (λ r. r.tree_root) (sym is) ∙ ap (hex0x hex) same_root;
          anchor_of =
              ap (λ r. r.anchored_ledger) (sym is)
              ∙ ap (λ t. t.anchored_ledger) (sym at)
              ∙ m.anchored;
          nonempty = ap is_empty (sym tree) ∙ i;
        }

    answered_root :
        (run : Run Node) (t : PoolTree) (s : Server)
        → root t.tree ≡ run
        → cached h pool s ≡ t
        → is_empty t.tree ≡ false
        → after_root
            (api h hex)
            fuel
            now
            pool
            (over_http root_json (resume (lift run s) λ r. pure (current hex pool t r)))
          ≡ some (ok report, s₁)
        → Reports report ls
    unfolding after_root api
    answered_root panics t s r c i e = absurd (cc)
    answered_root (returns r) t s q c i e =
        written r t s (page_through get fuel [] none s) q c i
          (page_through-SameTrees s fuel [] none s refl) e

    synced :
        (x : Result Fault PoolTree × Server)
        → Kept h pool x
        → after_root
            (api h hex)
            fuel
            now
            pool
            (over_http root_json (resume x (root_at hex pool none none)))
          ≡ some (ok report, s₁)
        → Reports report ls
    unfolding after_root root_at current_root
    synced (err x, s) k e = absurd (cc)
    synced (ok t, s) k e = answered_root (root t.tree) t s refl k.0 k.1 e

    pub generate-Reports :
        (key : Bytes) (s : Server)
        → generate (api h hex) fuel now pool (some key) s ≡ some (ok report, s₁)
        → Reports report ls
    unfolding generate api get_root both_given
    generate-Reports key s e = synced (sync_pool_tree h pool s) (sync_pool_tree-Kept h pool s) e

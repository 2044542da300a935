-- ===== src/Disclosure/Verdict.antt =====
-- A report of crates/attesta-disclosure/src/main.rs is verified against the backend that it was generated
-- from, after other deposits have followed.
use attesta_protocol_backend.Prelude.{
  ℕ, ◌+◌, ◌<◌, ◌^◌, ◌≡◌, refl, sym, ◌∙◌, ap, subst, true, false, String, none, some, List, [], ◌∷◌,
  ◌++◌, arith, All, length, length-append,
}
use mathlib.Core.List.{append_assoc}
use attesta_protocol_backend.Prelude.Bytes.{Bytes}
use attesta_protocol_backend.Prelude.Int.{ℤ, pos, ltb_ℤ, max_ℤ}
use attesta_protocol_backend.Prelude.Keys.{◌==◌, String_eq, ==_refl}
use attesta_protocol_backend.Prelude.Exec.{ok, pure, resume}
use attesta_protocol_backend.Database.{CommitmentRow, EncryptedNoteRow}
use attesta_protocol_backend.Merkle.{TreeHasher, is_empty, len}
use attesta_protocol_backend.Merkle.Append.{mirror}
use attesta_protocol_backend.Api.{Hex}
use attesta_protocol_backend.Tree.{PoolTree, Server, sync_pool_tree, hex0x}
use attesta_protocol_backend.Tree.Roots.{by_ledger, past_root, root_at, get_root, both_given}
use attesta_protocol_backend.Tree.History.{Entry, nodes, top, anchor}
use attesta_protocol_backend.Tree.Recorded.{
  Recorded, waiting, anchor-append, sync_pool_tree-ToppedUp,
}
use attesta_protocol_backend.Tree.Past.{Returns32, answer_for, past_root-at_ledger}
use attesta_protocol_backend.Disclosure.{
  Report, api, generate, verify, report_json, over_http, root_json, same_text,
}
use attesta_protocol_backend.Disclosure.Reported.{generate-Reports}

-- A list with a last item.
record Snoc (ls : List Entry) : Type 0 where
  done : List Entry
  last : Entry
  split : ls ≡ done ++ last ∷ []

split_last : (e : Entry) (ls : List Entry) → Snoc (e ∷ ls)
split_last e [] = record { done = []; last = e; split = refl }
split_last e (f ∷ ls) =
    let rest = split_last f ls in
    record { done = e ∷ rest.done; last = rest.last; split = ap (◌∷◌ e) rest.split }

nonempty-Snoc :
    (h : TreeHasher) (ls : List Entry) → is_empty (mirror h (nodes ls)) ≡ false → Snoc ls
unfolding is_empty mirror len
nonempty-Snoc h [] e = absurd (cc)
nonempty-Snoc h (l ∷ ls) e = split_last l ls

anchor-last : (done : List Entry) (e : Entry) → ltb_ℤ (anchor (pos 0) (done ++ e ∷ [])) e.1 ≡ false
unfolding anchor max_ℤ
anchor-last done e =
    ap (λ a. ltb_ℤ a e.1) (anchor-append (pos 0) done (e ∷ [])) ∙ not_less (anchor (pos 0) done) e.1
  where
    not_less : (a b : ℤ) → ltb_ℤ (max_ℤ a b) b ≡ false
    not_less a b = ground arith

All-append :
    (a : ℤ) (ls more : List Entry)
    → All (λ (l : Entry). ltb_ℤ a l.1 ≡ true) ls
    → All (λ (l : Entry). ltb_ℤ a l.1 ≡ true) more
    → All (λ (l : Entry). ltb_ℤ a l.1 ≡ true) (ls ++ more)
All-append a [] more p q = q
All-append a (l ∷ ls) more p q = (p.0, All-append a ls more p.1 q)

module _ (h : TreeHasher) (hex : Hex) (pool : String) (k : Returns32 h) where
  -- The root at the anchor of these entries, when all that came later has later ledgers.
  abbrev Found : List Entry → List Entry → Server → Type 0
  Found later ls s =
      (ledger : ℤ) × (past_root hex pool (by_ledger pool (anchor (pos 0) ls)) s
        ≡ (ok (answer_for h hex pool ls ledger), s))

  root_at_anchor :
      (ls later : List Entry) (s : Server)
      → Recorded h pool s (ls ++ later)
      → s.answers ≡ []
      → length ls < 2 ^ 63
      → is_empty (mirror h (nodes ls)) ≡ false
      → All (λ (l : Entry). ltb_ℤ (anchor (pos 0) ls) l.1 ≡ true) later
      → Found later ls s
  root_at_anchor ls later s m up b n a =
      let sn = nonempty-Snoc h ls n in
      let fits : length sn.done + 1 < 2 ^ 63 =
        omega (arith, b, ap length sn.split, length-append sn.done (sn.last ∷ [])) in
      subst
        (λ ls.
          Recorded h pool s (ls ++ later)
          → All (λ (l : Entry). ltb_ℤ (anchor (pos 0) ls) l.1 ≡ true) later
          → Found later ls s)
        (sym sn.split)
        (λ m a. (
          sn.last.1,
          past_root-at_ledger h hex pool k sn.done sn.last later
              (anchor (pos 0) (sn.done ++ sn.last ∷ [])) s m up fits (anchor-last sn.done sn.last)
              a,
        ))
        m a

-- A report is confirmed also when deposits have followed: `verify` answers that the roots match, for a report
-- that `generate` wrote, in every later state of the server whose tree and history continue those that the
-- report was generated from with leaves of later ledgers. It holds while the database answers, for a hash
-- function that returns 32 bytes, commitments waiting to be added that have later ledgers too, and
-- fewer than 2^63 leaves and commitments.
pub verify-generate :
    (h : TreeHasher) (hex : Hex) (pool now : String) (key : Bytes) (fuel : ℕ)
    (report : Report EncryptedNoteRow) (s s₁ s₂ s₃ : Server) (ls later : List Entry) (t : PoolTree)
    → Returns32 h
    → generate (api h hex) fuel now pool (some key) s ≡ some (ok report, s₁)
    → Recorded h pool s₁ ls
    → Recorded h pool s₂ (ls ++ later)
    → s₂.answers ≡ []
    → length (ls ++ later) + length s₂.db.commitments < 2 ^ 63
    → All (λ (l : Entry). ltb_ℤ report.anchored_ledger l.1 ≡ true) later
    → All
        (λ (r : CommitmentRow). ltb_ℤ report.anchored_ledger r.ledger ≡ true)
        (waiting pool (ls ++ later) s₂)
    → sync_pool_tree h pool s₂ ≡ (ok t, s₃)
    → verify (api h hex) (some (report_json report)) s₂ ≡ (ok true, s₃)
unfolding verify report_json api get_root root_at both_given
verify-generate h hex pool now key fuel report s s₁ s₂ s₃ ls later t k g m₁ m₂ up small a w sync =
    let says = generate-Reports h hex pool fuel now report s₁ ls m₁ key s g in
    let topped = sync_pool_tree-ToppedUp h pool s₂ (ls ++ later) t s₃ m₂ up small sync in
    let after =
      All-append report.anchored_ledger later topped.entries a
        (topped.later report.anchored_ledger w) in
    let m₃ : Recorded h pool s₃ (ls ++ (later ++ topped.entries)) =
      subst (Recorded h pool s₃) (append_assoc ls later topped.entries) topped.recorded in
    let (ledger, found) =
      root_at_anchor h hex pool k ls (later ++ topped.entries) s₃ m₃ topped.up
        (omega (arith, small, length-append ls later)) says.nonempty
        (subst (λ at. All (λ (l : Entry). ltb_ℤ at l.1 ≡ true) (later ++ topped.entries))
          says.anchor_of after) in
    let at = anchor (pos 0) ls in
    let answer : get_root h hex report.pool
          (record { at_ledger = some report.anchored_ledger; at_leaf_count = none }) s₂
        ≡ (ok (answer_for h hex pool ls ledger), s₃) =
      ap
        (λ p.
          get_root h hex p
            (record { at_ledger = some report.anchored_ledger; at_leaf_count = none }) s₂)
        says.pool_of
      ∙ ap (λ a. get_root h hex pool (record { at_ledger = some a; at_leaf_count = none }) s₂)
          says.anchor_of
      ∙ ap (λ r. resume r (root_at hex pool (some at) none)) sync
      ∙ found in
    ap
      (λ r.
        resume (over_http root_json r)
          (λ historical. pure (same_text historical.root (some report.tree_root))))
      answer
    ∙ ap (λ b. (ok b, s₃))
        (ap (λ x. hex0x hex (top h (nodes ls)) == x) says.root_of
          ∙ ==_refl (hex0x hex (top h (nodes ls))))

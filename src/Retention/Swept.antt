-- ===== src/Retention/Swept.antt =====
-- The loop of `sweep` of crates/attesta-api/src/retention.rs.
use attesta_protocol_backend.Prelude.{
  ℕ, ◌+◌, ◌/◌, ◌<◌, ◌≤◌, ◌≡◌, refl, sym, ◌∙◌, ap, subst, ◌⊎◌, inl, inr, Bool, true, false, Option,
  some, List, [], ◌∷◌, arith, All, Bool-cases, length, ltb,
}
use attesta_protocol_backend.Prelude.Exec.{Result, ok, err}
use attesta_protocol_backend.Database.{Database, CredentialDelivery}
use attesta_protocol_backend.Api.{Fault}
use attesta_protocol_backend.Tree.{Server, write}
use attesta_protocol_backend.Tree.Queries.{any_down, Written, write-Written}
use attesta_protocol_backend.Retention.{
  sweep_batch, delete_batch, delete_statement, after_batch, sweep,
}
use attesta_protocol_backend.Retention.Batches.{
  spared, delete_batch-spared, delete_batch-length, delete_batch-All, delete_batch-Done,
}

abbrev pub deliveries : Server → List CredentialDelivery
deliveries s = s.db.credential_deliveries

-- Every reading of the clock is between these.
abbrev pub Within : ℕ → ℕ → List ℕ → Type 0
Within start end clock = All (λ now. (start ≤ now) × (now ≤ end)) clock

-- What is due stays due.
abbrev pub StaysDue : (ℕ → CredentialDelivery → Bool) → Type 0
StaysDue p =
    (now then_ : ℕ) (d : CredentialDelivery) → now ≤ then_ → p now d ≡ true → p then_ d ≡ true

-- What a sweep leaves: every delivery that is not due at the end, in order, and, unless a statement
-- failed, none that was due at the start; and the other tables.
pub record Swept (p : ℕ → CredentialDelivery → Bool) (start end : ℕ) (s s' : Server) : Type 0 where
  pub kept : spared (p end) (deliveries s') ≡ spared (p end) (deliveries s)
  pub done : All (λ d. p start d ≡ false) (deliveries s') ⊎ (any_down s.answers ≡ true)
  pub down : any_down s'.answers ≡ true → any_down s.answers ≡ true
  pub fewer : length (deliveries s') ≤ length (deliveries s)
  pub stays :
      (q : CredentialDelivery → Bool)
      → All (λ d. q d ≡ false) (deliveries s)
      → All (λ d. q d ≡ false) (deliveries s')
  pub others : s'.db ≡ record s.db { credential_deliveries = deliveries s' }

fewer_batches :
    (n left all rounds : ℕ)
    → n + left ≡ all
    → ltb n sweep_batch ≡ false
    → all / sweep_batch < rounds + 1
    → left / sweep_batch < rounds
fewer_batches n left all rounds e h k = let b : sweep_batch ≤ n = ground arith in omega arith

module _ (p : ℕ → CredentialDelivery → Bool) (mono : StaysDue p) (start end : ℕ) where
  earlier :
      (now : ℕ) (rows : List CredentialDelivery)
      → start ≤ now
      → All (λ d. p now d ≡ false) rows
      → All (λ d. p start d ≡ false) rows
  earlier now [] b a = tt
  earlier now (d ∷ rows) b a = (not_due, earlier now rows b a.1)
    where
      not_due : p start d ≡ false
      not_due = elim (Bool-cases (p start d)) [
        | inl e ↦ absurd (let later = mono start now d b e in cc)
        | inr e ↦ e
      ]

  one_batch :
      (now n : ℕ) (s s' : Server)
      → start ≤ now
      → now ≤ end
      → Written (delete_statement (p now)) s (ok n, s')
      → ltb n sweep_batch ≡ true
      → Swept p start end s s'
  one_batch now n s s' b c (v, d, w) h =
      let r = delete_batch (p now) sweep_batch (deliveries s) in
      let rows : deliveries s' ≡ r.1 = ap (λ db. db.credential_deliveries) d in
      record {
        kept =
            ap (spared (p end)) rows
            ∙ delete_batch-spared (p now) (p end) sweep_batch (deliveries s)
                (λ d e. mono now end d c e);
        done = inl (
            subst (λ rows. All (λ d. p start d ≡ false) rows) (sym rows)
              (earlier now r.1 b (
                delete_batch-Done (p now) sweep_batch (deliveries s)
                  (ap (λ n. ltb n sweep_batch) (sym v) ∙ h))));
        down = λ e. w ∙ e;
        fewer =
            omega (arith, ap length rows, delete_batch-length (p now) sweep_batch (deliveries s));
        stays = λ q a.
            subst (λ rows. All (λ d. q d ≡ false) rows) (sym rows)
              (delete_batch-All (p now) q sweep_batch (deliveries s) a);
        others = d ∙ ap (λ rows. record s.db { credential_deliveries = rows }) (sym rows);
      }

  full_batch :
      (now n : ℕ) (s s₁ s' : Server)
      → now ≤ end
      → Written (delete_statement (p now)) s (ok n, s₁)
      → Swept p start end s₁ s'
      → Swept p start end s s'
  full_batch now n s s₁ s' c (v, d, w) st =
      let r = delete_batch (p now) sweep_batch (deliveries s) in
      let rows : deliveries s₁ ≡ r.1 = ap (λ db. db.credential_deliveries) d in
      record {
        kept =
            st.kept
            ∙ ap (spared (p end)) rows
            ∙ delete_batch-spared (p now) (p end) sweep_batch (deliveries s)
                (λ d e. mono now end d c e);
        done = elim st.done [ inl a ↦ inl a | inr e ↦ inr (w ∙ e) ];
        down = λ e. w ∙ st.down e;
        fewer = omega (
          arith,
          st.fewer,
          ap length rows,
          delete_batch-length (p now) sweep_batch (deliveries s),
        );
        stays = λ q a. st.stays q (
            subst (λ rows. All (λ d. q d ≡ false) rows) (sym rows)
              (delete_batch-All (p now) q sweep_batch (deliveries s) a));
        others =
            st.others
            ∙ ap (λ (db : Database). record db { credential_deliveries = deliveries s' }) d;
      }

  failed :
      (now : ℕ) (e : Fault) (s s' : Server)
      → Written (delete_statement (p now)) s (err e, s')
      → Swept p start end s s'
  failed now e s s' (d, w, k) = record {
    kept = ap (λ db. spared (p end) db.credential_deliveries) d;
    done = inr w;
    down = k;
    fewer = omega (arith, ap (λ (db : Database). length db.credential_deliveries) d);
    stays =
        λ q a. subst (λ (db : Database). All (λ d. q d ≡ false) db.credential_deliveries) (sym d) a;
    others =
        d
        ∙ ap (λ (db : Database). record s.db { credential_deliveries = db.credential_deliveries })
            (sym d);
  }

  Ends : Option Server → Server → Type 0
  Ends o s = (s' : Server) × (o ≡ some s') × Swept p start end s s'

  after_batch-Ends :
      (now : ℕ) (s : Server) (r : Result Fault ℕ × Server) (next : Server → Option Server)
      (rounds : ℕ)
      → start ≤ now
      → now ≤ end
      → Written (delete_statement (p now)) s r
      → length (deliveries s) / sweep_batch < rounds + 1
      → ((s₁ : Server) → length (deliveries s₁) / sweep_batch < rounds → Ends (next s₁) s₁)
      → Ends (after_batch r next) s
  unfolding after_batch Ends
  after_batch-Ends now s (err e, s₁) next rounds b c w k ih = (s₁, refl, failed now e s s₁ w)
  after_batch-Ends now s (ok n, s₁) next rounds b c w k ih = elim (Bool-cases (ltb n sweep_batch)) [
    | inl h ↦ (s₁, rw h refl, one_batch now n s s₁ b c w h)
    | inr h ↦
        let count : n + length (deliveries s₁) ≡ length (deliveries s) = omega (
          arith,
          w.0,
          ap (λ (db : Database). length db.credential_deliveries) w.1,
          delete_batch-length (p now) sweep_batch (deliveries s),
        ) in
        let (s', e, st) =
          ih s₁
            (fewer_batches n (length (deliveries s₁)) (length (deliveries s)) rounds count h k) in
        (s', rw h e, full_batch now n s s₁ s' c w st)
  ]

pub sweep-Ends :
    (p : ℕ → CredentialDelivery → Bool) (start end : ℕ) (clock : List ℕ) (s : Server)
    → StaysDue p
    → Within start end clock
    → length (deliveries s) / sweep_batch < length clock
    → (s' : Server) × (sweep p clock s ≡ some s') × Swept p start end s s'
unfolding sweep Ends
sweep-Ends p start end [] s mono b k = absurd (omega arith)
sweep-Ends p start end (now ∷ clock) s mono b k =
    after_batch-Ends p mono start end now s (write (delete_statement (p now)) s) (sweep p clock)
      (length clock) b.0.0 b.0.1 (write-Written (delete_statement (p now)) s) (omega arith)
      (λ s₁ k. sweep-Ends p start end clock s₁ mono b.1 k)

-- A sweep ends, within one statement for each 10,000 deliveries and one more, whether or not statements fail.
-- It deletes no delivery that is not due by the last reading of the clock and keeps their order, it
-- leaves none that was due at the first reading unless a statement failed, and touches no other table.
-- It holds for a predicate that stays true once it is, and readings that lie between the two times.
pub sweep-exact :
    (p : ℕ → CredentialDelivery → Bool) (start end : ℕ) (clock : List ℕ) (s : Server)
    → StaysDue p
    → Within start end clock
    → length (deliveries s) / sweep_batch < length clock
    → (s' : Server) × (sweep p clock s ≡ some s')
      × (spared (p end) (deliveries s') ≡ spared (p end) (deliveries s))
      × (All (λ d. p start d ≡ false) (deliveries s') ⊎ (any_down s.answers ≡ true))
      × (s'.db ≡ record s.db { credential_deliveries = deliveries s' })
sweep-exact p start end clock s mono b k =
    let (s', e, st) = sweep-Ends p start end clock s mono b k in
    (s', e, st.kept, st.done, st.others)

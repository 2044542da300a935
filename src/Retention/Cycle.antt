-- ===== src/Retention/Cycle.antt =====
-- A cycle of the sweeper of crates/attesta-api/src/retention.rs, both windows together.
use attesta_protocol_backend.Prelude.{
  ℕ, ◌^◌, ◌/◌, ◌<◌, ◌≤◌, ◌≡◌, refl, sym, ◌∙◌, ap, ◌⊎◌, inl, inr, Bool, true, false, ◌||◌, some,
  List, [], ◌∷◌, arith, All, Bool-cases, length,
}
use attesta_protocol_backend.Database.{CredentialDelivery}
use attesta_protocol_backend.Tree.{Server}
use attesta_protocol_backend.Tree.Queries.{any_down}
use attesta_protocol_backend.Retention.{
  sweep_batch, claimed_before, created_before, sweep_unless_zero, then_sweep, locked, run_cycle,
}
use attesta_protocol_backend.Retention.Batches.{spared}
use attesta_protocol_backend.Retention.Swept.{deliveries, Within}
use attesta_protocol_backend.Retention.Windows.{
  due, in_force, claimed-StaysDue, created-StaysDue, due-in_force, unless_zero-Ends,
}

-- What a weaker test spares.
spared-both :
    (p q : CredentialDelivery → Bool) (rows : List CredentialDelivery)
    → ((d : CredentialDelivery) → p d ≡ true → q d ≡ true)
    → spared q (spared p rows) ≡ spared q rows
unfolding spared
spared-both p q [] k = refl
spared-both p q (d ∷ rows) k = elim (Bool-cases (p d)) [
  | inl e ↦ rw (e, k d e) (spared-both p q rows k)
  | inr e ↦ rw (e, spared-both p q rows k) refl
]

spared_weaker :
    (p q : CredentialDelivery → Bool) (rows rows' : List CredentialDelivery)
    → ((d : CredentialDelivery) → p d ≡ true → q d ≡ true)
    → spared p rows ≡ spared p rows'
    → spared q rows ≡ spared q rows'
spared_weaker p q rows rows' k e =
    sym (spared-both p q rows k) ∙ ap (spared q) e ∙ spared-both p q rows' k

neither :
    (p q r : CredentialDelivery → Bool) (rows : List CredentialDelivery)
    → ((d : CredentialDelivery) → r d ≡ (p d || q d))
    → All (λ d. p d ≡ false) rows
    → All (λ d. q d ≡ false) rows
    → All (λ d. r d ≡ false) rows
neither p q r [] k a b = tt
neither p q r (d ∷ rows) k a b = (rw (k d, a.0, b.0) refl, neither p q r rows k a.1 b.1)

-- A cycle that holds the lock ends, whether or not statements fail, with one statement for each 10,000
-- deliveries, and one more, for each window. It deletes no delivery whose window is not over by the last
-- reading of the clock, and none of a kind whose window is 0; and it leaves none whose window was over
-- at the first reading, unless a statement failed. It holds for windows below 2^31 days.
pub run_cycle-due :
    (claimed_days unclaimed_days start end : ℕ) (clock clock' : List ℕ) (s : Server)
    → claimed_days < 2 ^ 31
    → unclaimed_days < 2 ^ 31
    → Within start end clock
    → Within start end clock'
    → length (deliveries s) / sweep_batch < length clock
    → length (deliveries s) / sweep_batch < length clock'
    → (s' : Server) × (run_cycle locked claimed_days unclaimed_days clock clock' s ≡ some s')
      × (spared (due claimed_days unclaimed_days end) (deliveries s')
          ≡ spared (due claimed_days unclaimed_days end) (deliveries s))
      × (All (λ d. due claimed_days unclaimed_days start d ≡ false) (deliveries s')
          ⊎ (any_down s.answers ≡ true))
unfolding run_cycle
run_cycle-due c u start end clock clock' s b b' w w' k k' =
    let p = in_force claimed_before c in
    let q = in_force created_before u in
    let (s₁, e, st) =
      unless_zero-Ends claimed_before c start end clock s (claimed-StaysDue c b) w k in
    let (s₂, f, st') =
      unless_zero-Ends created_before u start end clock' s₁ (created-StaysDue u b') w'
        (fewer_left (length (deliveries s₁)) (length (deliveries s)) (length clock') st.fewer k') in
    let is = λ (now : ℕ) (d : CredentialDelivery). due-in_force now d c u b b' in
    (
      s₂,
      ap (λ o. then_sweep o (sweep_unless_zero created_before u clock')) e ∙ f,
      spared_weaker (q end) (due c u end) (deliveries s₂) (deliveries s₁)
            (λ d e. is end d ∙ right (p end d) (q end d) e) st'.kept
          ∙ spared_weaker (p end) (due c u end) (deliveries s₁) (deliveries s)
              (λ d e. is end d ∙ left (p end d) (q end d) e) st.kept,
      elim st.done [
        | inr x ↦ inr x
        | inl a ↦ elim st'.done [
          | inr x ↦ inr (st.down x)
          | inl a' ↦ inl (
              neither (p start) (q start) (due c u start) (deliveries s₂) (is start)
                (st'.stays (p start) a) a')
        ]
      ],
    )
  where
    left : (a b : Bool) → a ≡ true → (a || b) ≡ true
    left a b e = ground arith

    right : (a b : Bool) → b ≡ true → (a || b) ≡ true
    right a b e = ground arith

    fewer_left : (m n rounds : ℕ) → m ≤ n → n / sweep_batch < rounds → m / sweep_batch < rounds
    fewer_left m n rounds h k = omega arith

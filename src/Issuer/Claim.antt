-- ===== src/Issuer/Claim.antt =====
-- Claims of crates/attesta-api/src/routes/issuer.rs: one winner for each delivery.
use attesta_protocol_backend.Prelude.{
  ℕ, zero, suc, ◌≤◌, ◌≡◌, refl, sym, ◌∙◌, Bool, true, false, ◌&&◌, not, List, [], ◌∷◌, arith,
  ◌==◌ as nat_eq, ==_iff, if◌then◌else◌, Bool-cases, inl, inr,
}
use attesta_protocol_backend.Database.{CredentialDelivery}
use attesta_protocol_backend.Prelude.Exec.{Result, ok, err, resume}
use attesta_protocol_backend.Api.{Fault, conflict}
use attesta_protocol_backend.Tree.{Server, answered, write}
use attesta_protocol_backend.Issuer.{
  is_claimed, claim_rows, claim_statement, refuse_if, update_claim,
}

-- The deliveries with this id that can still be claimed.
unfoldable pub claimable : ℕ → List CredentialDelivery → ℕ
claimable delivery_id [] = 0
claimable delivery_id (x ∷ rows) =
    let rest = claimable delivery_id rows in
    if nat_eq x.delivery_id delivery_id && not (is_claimed x) then suc rest else rest

-- One claim takes them all.
claim_rows-claimed :
    (now delivery_id : ℕ) (rows : List CredentialDelivery)
    → ((claim_rows now delivery_id rows).0 ≡ claimable delivery_id rows)
      × (claimable delivery_id (claim_rows now delivery_id rows).1 ≡ 0)
unfolding claim_rows claimable
claim_rows-claimed now delivery_id [] = (refl, refl)
claim_rows-claimed now delivery_id (x ∷ rows) =
    ground (arith, claim_rows-claimed now delivery_id rows)

-- And leaves the others.
claim_rows-claimable_ne :
    (now delivery_id other : ℕ) (rows : List CredentialDelivery)
    → nat_eq delivery_id other ≡ false
    → claimable other (claim_rows now delivery_id rows).1 ≡ claimable other rows
unfolding claim_rows claimable
claim_rows-claimable_ne now delivery_id other [] h = refl
claim_rows-claimable_ne now delivery_id other (x ∷ rows) h =
    ground (arith, claim_rows-claimable_ne now delivery_id other rows h)

abbrev pub left : ℕ → Server → ℕ
left delivery_id s = claimable delivery_id s.db.credential_deliveries

-- What an UPDATE does to the deliveries that are left: a claim that succeeds takes its own, which was
-- there, and any other outcome takes none.
abbrev pub ClaimEffect : ℕ → Server → Result Fault (Unit {0}) × Server → Type 0
ClaimEffect delivery_id s (ok u, s') =
    (1 ≤ left delivery_id s)
    × (left delivery_id s' ≡ 0)
    × ((other : ℕ) → nat_eq delivery_id other ≡ false → left other s' ≡ left other s)
ClaimEffect delivery_id s (err e, s') = (other : ℕ) → left other s' ≡ left other s

module _ (now delivery_id : ℕ) where
  refused-ClaimEffect :
      (s s' : Server)
      → s'.db ≡ (claim_statement now delivery_id s.db).1
      → (n : ℕ) → (claim_rows now delivery_id s.db.credential_deliveries).0 ≡ n
      → ClaimEffect delivery_id s (refuse_if (nat_eq n 0) (conflict "delivery already claimed") s')
  unfolding claim_statement
  refused-ClaimEffect s s' e zero n =
      let c = claim_rows-claimed now delivery_id s.db.credential_deliveries in
      λ other. rw e (elim (Bool-cases (nat_eq delivery_id other)) [
        | inl same ↦
            let q : delivery_id ≡ other = (==_iff delivery_id other).0 same in
            rw (sym q) (c.1 ∙ sym n ∙ c.0)
        | inr differs ↦
            claim_rows-claimable_ne now delivery_id other s.db.credential_deliveries differs
      ])
  refused-ClaimEffect s s' e (suc k) n =
      let c = claim_rows-claimed now delivery_id s.db.credential_deliveries in
      let some_left : 1 ≤ left delivery_id s = omega (arith, c.0) in
      let f : nat_eq (suc k) 0 ≡ false = ground arith in
      rw (f, e)
        (
          some_left,
          c.1,
          λ other differs.
              claim_rows-claimable_ne now delivery_id other s.db.credential_deliveries differs,
        )

  update_claim-ClaimEffect :
      (s : Server) → ClaimEffect delivery_id s (update_claim now delivery_id s)
  unfolding update_claim write answered claim_statement
  update_claim-ClaimEffect s = go s.answers
    where
      go :
          (answers : List Bool)
          → ClaimEffect delivery_id s (
              resume
                (answered answers
                  (λ s. (
                    ok (claim_statement now delivery_id s.db).0,
                    record s { db = (claim_statement now delivery_id s.db).1 },
                  ))
                  s)
                (λ n. refuse_if (nat_eq n 0) (conflict "delivery already claimed")))
      go [] = refused-ClaimEffect s _ refl _ refl
      go (true ∷ answers) = refused-ClaimEffect s _ refl _ refl
      go (false ∷ answers) = λ other. refl

abbrev pub is_ok : {A : Type 0} → Result Fault A → Bool
is_ok (ok a) = true
is_ok (err e) = false

-- How many of these UPDATEs, one after the other, report a claim of this delivery.
unfoldable pub winners : ℕ → List (ℕ × ℕ) → Server → ℕ
winners delivery_id [] s = 0
winners delivery_id ((now, claimed) ∷ claims) s =
    let rest = winners delivery_id claims (update_claim now claimed s).1 in
    if nat_eq claimed delivery_id && is_ok (update_claim now claimed s).0 then suc rest else rest

winners_step :
    (delivery_id claimed rest : ℕ) (s : Server) (r : Result Fault (Unit {0}) × Server)
    → ClaimEffect claimed s r
    → rest ≤ (if nat_eq (left delivery_id r.1) 0 then 0 else 1)
    → (if nat_eq claimed delivery_id && is_ok r.0 then suc rest else rest)
      ≤ (if nat_eq (left delivery_id s) 0 then 0 else 1)
winners_step delivery_id claimed rest s (ok u, s') e h =
    ground (arith, e.2 delivery_id, ==_iff claimed delivery_id)
winners_step delivery_id claimed rest s (err x, s') e h = ground (arith, e delivery_id)

-- A race of claims, of which the checks were made at any earlier time, has at most one winner for each
-- delivery, and none where no unclaimed delivery has the id, whichever of the UPDATEs the database refuses.
pub winners-le_one :
    (delivery_id : ℕ) (claims : List (ℕ × ℕ)) (s : Server)
    → winners delivery_id claims s ≤ (if nat_eq (left delivery_id s) 0 then 0 else 1)
unfolding winners
winners-le_one delivery_id [] s = ground arith
winners-le_one delivery_id ((now, claimed) ∷ claims) s =
    winners_step delivery_id claimed _ s (update_claim now claimed s)
      (update_claim-ClaimEffect now claimed s)
      (winners-le_one delivery_id claims (update_claim now claimed s).1)

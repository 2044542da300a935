-- ===== src/Retention/Windows.antt =====
-- The two windows of the sweeper of crates/attesta-api/src/retention.rs, and a sweep for each.
use attesta_protocol_backend.Prelude.{
  ℕ, zero, suc, ◌+◌, ◌*◌, ◌^◌, ◌/◌, ◌<◌, ◌≤◌, ◌≡◌, refl, sym, ◌∙◌, inl, inr, Bool, true, false,
  ◌&&◌, ◌||◌, Option, none, some, List, [], ◌∷◌, arith, All, Option-cases, length, ltb,
}
use attesta_protocol_backend.Prelude.Int.{◌+ℤ◌, ◌*ℤ◌}
use attesta_protocol_backend.Database.{CredentialDelivery}
use attesta_protocol_backend.Tree.{Server}
use attesta_protocol_backend.Retention.{
  day, sweep_batch, as_i32, older, claimed_before, created_before, sweep_unless_zero,
}
use attesta_protocol_backend.Retention.Swept.{deliveries, Within, StaysDue, Swept, sweep-Ends}

-- The deliveries that the two windows, in days, are over for; a window of 0 is never over.
unfoldable pub due : ℕ → ℕ → ℕ → CredentialDelivery → Bool
due claimed_days unclaimed_days now d = elim d.claimed_at [
  | none ↦ ltb 0 unclaimed_days && ltb (d.created_at + unclaimed_days * day) now
  | some time ↦ ltb 0 claimed_days && ltb (time + claimed_days * day) now
]

older_lem : (days now time : ℕ) → days < 2 ^ 31 → older days now time ≡ ltb (time + days * day) now
unfolding older as_i32 ◌+ℤ◌ ◌*ℤ◌
older_lem days now time b = ground arith

older-stays :
    (days now then_ time : ℕ)
    → days < 2 ^ 31
    → now ≤ then_
    → older days now time ≡ true
    → older days then_ time ≡ true
older-stays days now then_ time b h e =
    older_lem days then_ time b ∙ longer (time + days * day) (sym (older_lem days now time b) ∙ e)
  where
    longer : (t : ℕ) → ltb t now ≡ true → ltb t then_ ≡ true
    longer t e = ground arith

-- A window that is not 0.
abbrev pub in_force : (ℕ → ℕ → CredentialDelivery → Bool) → ℕ → ℕ → CredentialDelivery → Bool
in_force predicate zero now d = false
in_force predicate (suc days) now d = predicate (suc days) now d

pub claimed-StaysDue : (days : ℕ) → days < 2 ^ 31 → StaysDue (in_force claimed_before days)
unfolding claimed_before
claimed-StaysDue zero b now then_ d h e = e
claimed-StaysDue (suc days) b now then_ d h e = go d.claimed_at e
  where
    go :
        (t : Option ℕ)
        → elim t [ none ↦ false | some time ↦ older (suc days) now time ] ≡ true
        → elim t [ none ↦ false | some time ↦ older (suc days) then_ time ] ≡ true
    go none e = e
    go (some time) e = older-stays (suc days) now then_ time b h e

pub created-StaysDue : (days : ℕ) → days < 2 ^ 31 → StaysDue (in_force created_before days)
unfolding created_before
created-StaysDue zero b now then_ d h e = e
created-StaysDue (suc days) b now then_ d h e = go d.claimed_at e
  where
    go :
        (t : Option ℕ)
        → elim t [ none ↦ older (suc days) now d.created_at | some time ↦ false ] ≡ true
        → elim t [ none ↦ older (suc days) then_ d.created_at | some time ↦ false ] ≡ true
    go none e = older-stays (suc days) now then_ d.created_at b h e
    go (some time) e = e

within_window :
    (days now time : ℕ)
    → suc days < 2 ^ 31
    → older (suc days) now time ≡ (ltb 0 (suc days) && ltb (time + suc days * day) now)
within_window days now time b =
    older_lem (suc days) now time b ∙ opened (ltb (time + suc days * day) now)
  where
    opened : (b : Bool) → b ≡ (ltb 0 (suc days) && b)
    opened b = let e : ltb 0 (suc days) ≡ true = ground arith in rw e refl

or_false : (b : Bool) → b ≡ (b || false)
or_false true = refl
or_false false = refl

module _ (now : ℕ) (d : CredentialDelivery) where
  claimed_none : (c : ℕ) → d.claimed_at ≡ none → in_force claimed_before c now d ≡ false
  unfolding claimed_before
  claimed_none zero e = refl
  claimed_none (suc c) e = rw e refl

  claimed_some :
      (c time : ℕ)
      → d.claimed_at ≡ some time
      → c < 2 ^ 31
      → in_force claimed_before c now d ≡ (ltb 0 c && ltb (time + c * day) now)
  unfolding claimed_before
  claimed_some zero time e b = refl
  claimed_some (suc c) time e b = rw e (within_window c now time b)

  created_some : (u time : ℕ) → d.claimed_at ≡ some time → in_force created_before u now d ≡ false
  unfolding created_before
  created_some zero time e = refl
  created_some (suc u) time e = rw e refl

  created_none :
      (u : ℕ)
      → d.claimed_at ≡ none
      → u < 2 ^ 31
      → in_force created_before u now d ≡ (ltb 0 u && ltb (d.created_at + u * day) now)
  unfolding created_before
  created_none zero e b = refl
  created_none (suc u) e b = rw e (within_window u now d.created_at b)

  pub due-in_force :
      (c u : ℕ)
      → c < 2 ^ 31
      → u < 2 ^ 31
      → due c u now d ≡ (in_force claimed_before c now d || in_force created_before u now d)
  unfolding due
  due-in_force c u b b' = elim (Option-cases d.claimed_at) [
    | inl e ↦ rw (claimed_none c e, created_none u e b', e) refl
    | inr (time, e) ↦
        rw (claimed_some c time e b, created_some u time e, e)
          (or_false (ltb 0 c && ltb (time + c * day) now))
  ]

pub unless_zero-Ends :
    (predicate : ℕ → ℕ → CredentialDelivery → Bool) (days start end : ℕ) (clock : List ℕ)
    (s : Server)
    → StaysDue (in_force predicate days)
    → Within start end clock
    → length (deliveries s) / sweep_batch < length clock
    → (s' : Server) × (sweep_unless_zero predicate days clock s ≡ some s')
      × Swept (in_force predicate days) start end s s'
unfolding sweep_unless_zero
unless_zero-Ends predicate zero start end clock s mono b k = (
  s,
  refl,
  record {
    kept = refl;
    done = inl (never (deliveries s));
    down = λ e. e;
    fewer = omega arith;
    stays = λ q a. a;
    others = refl;
  },
)
  where
    never : (rows : List CredentialDelivery) → All (λ d. false ≡ false) rows
    never [] = tt
    never (d ∷ rows) = (refl, never rows)
unless_zero-Ends predicate (suc days) start end clock s mono b k =
    sweep-Ends (predicate (suc days)) start end clock s mono b k

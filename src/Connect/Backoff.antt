-- ===== src/Connect/Backoff.antt =====
-- The retry budget of crates/attesta-core/src/db.rs.
use attesta_protocol_backend.Prelude.{
  ℕ, zero, suc, ◌+◌, ◌*◌, ◌≤◌, ◌<◌, ◌≡◌, refl, sym, ap, subst, ◌⊎◌, inl, inr, Bool-cases, min,
  false, Option, none, some, List, [], ◌∷◌, arith,
}
use attesta_protocol_backend.Connect.{
  connect_max_backoff, connect_attempt_timeout, connect_initial_backoff, connect_max_attempts,
  SqlxError, is_retryable, Attempt, Outcome, after_attempt, settle, time_taken, attempt_from,
  connect,
}

abbrev pub sum : List ℕ → ℕ
sum [] = 0
sum (x ∷ xs) = x + sum xs

-- The backoffs of `n` retries.
abbrev pub budget : ℕ → ℕ → ℕ
budget zero backoff = 0
budget (suc n) backoff = backoff + budget n (min (backoff * 2) connect_max_backoff)

-- An outcome within these bounds of attempts, time in attempts and backoffs.
abbrev pub Within : ℕ → ℕ → Outcome → Type 0
Within n slept o =
    (1 ≤ o.attempts)
    × (o.attempts ≤ n)
    × (o.waited ≤ o.attempts * connect_attempt_timeout)
    × (sum o.backoffs ≤ slept)

retried-Within :
    (n slept took backoff : ℕ) (o : Outcome)
    → took ≤ connect_attempt_timeout
    → Within n slept o
    → Within (suc n) (backoff + slept) (after_attempt took backoff o)
retried-Within n slept took backoff o h w = omega arith

settle-Within :
    (n slept took : ℕ) (r : Option SqlxError) (o : Outcome)
    → took ≤ connect_attempt_timeout
    → Within (suc n) slept o
    → Within (suc n) slept (settle took r o)
unfolding settle
settle-Within n slept took none o h w = omega arith
settle-Within n slept took (some e) o h w = ground arith

attempt_from-Within :
    (pool : ℕ → Attempt) (attempt n backoff : ℕ)
    → Within (suc n) (budget n backoff) (attempt_from pool attempt n backoff)
unfolding attempt_from
attempt_from-Within pool attempt zero backoff = omega arith
attempt_from-Within pool attempt (suc n) backoff =
    let next = min (backoff * 2) connect_max_backoff in
    let took = time_taken (pool attempt) in
    let rest = attempt_from pool (attempt + 1) n next in
    settle-Within (suc n) (budget (suc n) backoff) took (pool attempt).result
      (after_attempt took backoff rest) (omega arith)
      (retried-Within (suc n) (budget n next) took backoff rest (omega arith)
        (attempt_from-Within pool (attempt + 1) n next))

-- However the attempts end and however long they hang, `connect` returns after at most ten of them, at
-- most fifty seconds in attempts and at most 55.5 seconds of backoff: less than two minutes in all.
pub connect-in_budget :
    (pool : ℕ → Attempt)
    → ((connect pool).attempts ≤ connect_max_attempts)
      × ((connect pool).waited ≤ 50000)
      × (sum (connect pool).backoffs ≤ 55500)
      × ((connect pool).waited + sum (connect pool).backoffs < 120000)
unfolding connect
connect-in_budget pool =
    let w = attempt_from-Within pool 1 9 connect_initial_backoff in omega (arith, w)

-- The end of the loop: the result is that of the last attempt, which is the last one allowed or ended
-- without an error to retry.
abbrev pub Final : Option SqlxError → Type 0
Final none = Unit
Final (some e) = is_retryable e ≡ false

abbrev pub Ended : (ℕ → Attempt) → ℕ → ℕ → Outcome → Type 0
Ended pool attempt n o =
    (k : ℕ) × (o.attempts ≡ suc k)
    × (o.result ≡ (pool (attempt + k)).result)
    × ((k ≡ n) ⊎ Final o.result)

retried-Ended :
    (pool : ℕ → Attempt) (attempt n took backoff : ℕ) (o : Outcome)
    → Ended pool (attempt + 1) n o
    → Ended pool attempt (suc n) (after_attempt took backoff o)
retried-Ended pool attempt n took backoff o (k, e, r, f) =
    let shift : attempt + 1 + k ≡ attempt + suc k = omega arith in
    (suc k, ap suc e, subst (λ m. o.result ≡ (pool m).result) shift r, deeper f)
  where
    deeper : ((k ≡ n) ⊎ Final o.result) → ((suc k ≡ suc n) ⊎ Final o.result)
    deeper (inl e) = inl (ap suc e)
    deeper (inr f) = inr f

settle-Ended :
    (pool : ℕ → Attempt) (attempt n took : ℕ) (r : Option SqlxError) (o : Outcome)
    → (pool attempt).result ≡ r
    → Ended pool attempt n o
    → Ended pool attempt n (settle took r o)
unfolding settle
settle-Ended pool attempt n took none o e w =
    let here : attempt + 0 ≡ attempt = omega arith in (0, refl, rw here (sym e), inr tt)
settle-Ended pool attempt n took (some x) o e w =
    let here : attempt + 0 ≡ attempt = omega arith in
    elim (Bool-cases (is_retryable x)) [
      | inl y ↦ rw y w
      | inr over ↦ rw over (0, refl, rw here (sym e), inr over)
    ]

attempt_from-Ended :
    (pool : ℕ → Attempt) (attempt n backoff : ℕ)
    → Ended pool attempt n (attempt_from pool attempt n backoff)
unfolding attempt_from
attempt_from-Ended pool attempt zero backoff =
    let here : attempt + 0 ≡ attempt = omega arith in (0, refl, rw here refl, inl refl)
attempt_from-Ended pool attempt (suc n) backoff =
    let next = min (backoff * 2) connect_max_backoff in
    let took = time_taken (pool attempt) in
    let rest = attempt_from pool (attempt + 1) n next in
    settle-Ended pool attempt (suc n) took (pool attempt).result (after_attempt took backoff rest)
      refl
      (retried-Ended pool attempt n took backoff rest
        (attempt_from-Ended pool (attempt + 1) n next))

-- `connect` returns the result of the last attempt that it made, and it stops before the tenth attempt
-- only at a success or at an error that is not retryable.
pub connect-Ended : (pool : ℕ → Attempt) → Ended pool 1 9 (connect pool)
unfolding connect
connect-Ended pool = attempt_from-Ended pool 1 9 connect_initial_backoff

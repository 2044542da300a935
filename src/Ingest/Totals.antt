-- ===== src/Ingest/Totals.antt =====
-- The pool totals that crates/attesta-indexer/src/ingest.rs accumulates from deposits and withdrawals.
use attesta_protocol_backend.Prelude.{
  ◌≡◌, refl, sym, ap₂, true, false, String, Option, none, some, List, [], ◌∷◌, arith, if◌then◌else◌,
  Bool-cases, inl, inr,
}
use attesta_protocol_backend.Prelude.Int.{ℤ, pos, ◌+ℤ◌, +ℤ_assoc}
use attesta_protocol_backend.Prelude.Keys.{◌==◌, String_eq}
use attesta_protocol_backend.Prelude.Options.{Yields, if_Yields, option_map}
use attesta_protocol_backend.Database.{PoolTotal}
use attesta_protocol_backend.Events.Types.{RawEvent, PoolEvent, new_commitment, withdrawal, Codecs}
use attesta_protocol_backend.Events.{decode}
use attesta_protocol_backend.Ingest.Tables.{grow_total, add_total_row}

-- What flowed into a pool and out of it.
abbrev pub Flow : Type 0
Flow = ℤ × ℤ

abbrev pub no_flow : Flow
no_flow = (pos 0, pos 0)

abbrev pub plus : Flow → Flow → Flow
plus a b = (a.0 +ℤ b.0, a.1 +ℤ b.1)

unfoldable pub totals_of : String → List PoolTotal → Flow
totals_of pool [] = no_flow
totals_of pool (x ∷ rows) =
    if x.pool == pool then (x.total_in, x.total_out) else totals_of pool rows

-- The flow of an event, and of a page.
abbrev pub flow_of : PoolEvent → Flow
flow_of (new_commitment c i (some amount) (some asset)) = (amount, pos 0)
flow_of (withdrawal amount asset) = (pos 0, amount)
flow_of _ = no_flow

abbrev pub decoded_flow : Option PoolEvent → Flow
decoded_flow none = no_flow
decoded_flow (some e) = flow_of e

unfoldable pub page_flow : Codecs → List RawEvent → Flow
page_flow codecs [] = no_flow
page_flow codecs (raw ∷ events) = plus (decoded_flow (decode codecs raw)) (page_flow codecs events)

pub zero_plus : (a : ℤ) → pos 0 +ℤ a ≡ a
unfolding ◌+ℤ◌
zero_plus a = ground arith

pub plus_zero : (a : ℤ) → a +ℤ pos 0 ≡ a
unfolding ◌+ℤ◌
plus_zero a = ground arith

pub no_plus : (a : Flow) → plus no_flow a ≡ a
no_plus a = ap₂ (λ x y. (x, y)) (zero_plus a.0) (zero_plus a.1)

pub plus_no : (a : Flow) → plus a no_flow ≡ a
plus_no a = ap₂ (λ x y. (x, y)) (plus_zero a.0) (plus_zero a.1)

pub plus_assoc : (a b c : Flow) → plus (plus a b) c ≡ plus a (plus b c)
plus_assoc a b c = ap₂ (λ x y. (x, y)) (+ℤ_assoc a.0 b.0 c.0) (+ℤ_assoc a.1 b.1 c.1)

module _ (r : PoolTotal) where
  abbrev flow : PoolTotal → Flow
  flow x = (x.total_in, x.total_out)

  abbrev Grown : List PoolTotal → List PoolTotal → Type 0
  Grown rows rows' = totals_of r.pool rows' ≡ plus (totals_of r.pool rows) (flow r)

  grow_total-flow :
      (x : PoolTotal)
      → Yields (λ y. (y.pool ≡ x.pool) × (flow y ≡ plus (flow x) (flow r))) (grow_total r x)
  unfolding grow_total
  grow_total-flow x =
      let grown : PoolTotal = record x {
        total_in = x.total_in +ℤ r.total_in;
        total_out = x.total_out +ℤ r.total_out;
      } in
      if_Yields (λ y. (y.pool ≡ x.pool) × (flow y ≡ plus (flow x) (flow r))) _ (some grown) none
        (refl, refl) tt

  option_map-Grown_head :
      (x : PoolTotal) (rows : List PoolTotal)
      → (x.pool == r.pool) ≡ true
      → (o : Option PoolTotal)
      → Yields (λ y. (y.pool ≡ x.pool) × (flow y ≡ plus (flow x) (flow r))) o
      → Yields (Grown (x ∷ rows)) (option_map (λ y. y ∷ rows) o)
  unfolding totals_of
  option_map-Grown_head x rows e none h = tt
  option_map-Grown_head x rows e (some y) h = rw (e, h.0, e) h.1

  option_map-Grown_tail :
      (x : PoolTotal) (rows : List PoolTotal)
      → (x.pool == r.pool) ≡ false
      → (o : Option (List PoolTotal)) → Yields (Grown rows) o
      → Yields (Grown (x ∷ rows)) (option_map (λ rows'. x ∷ rows') o)
  unfolding totals_of
  option_map-Grown_tail x rows e none h = tt
  option_map-Grown_tail x rows e (some rows') h = rw e h

  first_flow : totals_of r.pool (r ∷ []) ≡ plus no_flow (flow r)
  unfolding totals_of
  first_flow = rw ((String_eq.beq_iff r.pool r.pool).1 refl) (sym (no_plus (flow r)))

  pub add_total_row-Grown : (rows : List PoolTotal) → Yields (Grown rows) (add_total_row r rows)
  unfolding add_total_row totals_of
  add_total_row-Grown [] = if_Yields (Grown []) _ (some (r ∷ [])) none first_flow tt
  add_total_row-Grown (x ∷ rows) = elim (Bool-cases (x.pool == r.pool)) [
    | inl e ↦ rw e (option_map-Grown_head x rows e (grow_total r x) (grow_total-flow x))
    | inr e ↦
        rw e (option_map-Grown_tail x rows e (add_total_row r rows) (add_total_row-Grown rows))
  ]

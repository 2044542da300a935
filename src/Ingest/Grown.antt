-- ===== src/Ingest/Grown.antt =====
-- The tables only grow under the statements of crates/attesta-indexer/src/ingest.rs: no row is lost.
use attesta_protocol_backend.Prelude.{
  ◌≡◌, refl, sym, ap, ◌∙◌, ◌⊎◌, inl, inr, Bool-cases, String, Option, none, some, List, [], ◌∷◌,
  ◌++◌,
}
use attesta_protocol_backend.Prelude.Int.{ℤ}
use attesta_protocol_backend.Prelude.Keys.{◌==◌, String_eq, ℤ_eq, Bytes_eq}
use attesta_protocol_backend.Prelude.Options.{Yields, option_map, if_Yields}
use attesta_protocol_backend.Database.{Database, IssuerRow, PoolTotal}
use attesta_protocol_backend.Ingest.Tables.{
  conflicts_commitment, insert_commitment, conflicts_nullifier, insert_nullifier, insert_note,
  upsert_issuer_row, upsert_issuer, add_total_row, add_total, upsert_cursor,
}
use attesta_protocol_backend.Ingest.Keeps.{Kept, RowsKept}

-- Some row of a table satisfies `P`.
abbrev pub Any {ℓ} : {A : Type ℓ} → (A → Type 0) → List A → Type 0
Any P [] = ⊥
Any P (x ∷ xs) = P x ⊎ Any P xs

pub Any-snoc {ℓ} : {A : Type ℓ} (P : A → Type 0) (xs : List A) (x : A) → P x → Any P (xs ++ x ∷ [])
Any-snoc P [] x p = inl p
Any-snoc P (y ∷ xs) x p = inr (Any-snoc P xs x p)

Any-++ {ℓ} : {A : Type ℓ} (P : A → Type 0) (xs ys : List A) → Any P xs → Any P (xs ++ ys)
Any-++ P [] ys a = absurd a
Any-++ P (x ∷ xs) ys (inl p) = inl p
Any-++ P (x ∷ xs) ys (inr a) = inr (Any-++ P xs ys a)

-- A table with more rows at its end.
abbrev pub Extends {ℓ} : {A : Type ℓ} → List A → List A → Type ℓ
Extends {A = A} xs ys = (new : List A) × (ys ≡ xs ++ new)

pub Any-Extends {ℓ} :
    {A : Type ℓ} (P : A → Type 0) (xs ys : List A) → Extends xs ys → Any P xs → Any P ys
Any-Extends P xs ys (new, e) a = rw e (Any-++ P xs new a)

++-nil {ℓ} : {A : Type ℓ} (xs : List A) → xs ++ [] ≡ xs
++-nil [] = refl
++-nil (x ∷ xs) = rw (++-nil xs)

++-assoc {ℓ} : {A : Type ℓ} (xs ys zs : List A) → (xs ++ ys) ++ zs ≡ xs ++ (ys ++ zs)
++-assoc [] ys zs = refl
++-assoc (x ∷ xs) ys zs = rw (++-assoc xs ys zs)

Extends-refl {ℓ} : {A : Type ℓ} (xs : List A) → Extends xs xs
Extends-refl xs = ([], sym (++-nil xs))

Extends-snoc {ℓ} : {A : Type ℓ} (xs ys : List A) (y : A) → Extends xs ys → Extends xs (ys ++ y ∷ [])
Extends-snoc xs ys y (new, e) =
    (new ++ y ∷ [], ap (λ ys. ys ++ y ∷ []) e ∙ ++-assoc xs new (y ∷ []))

abbrev pub HasIssuer : String → List IssuerRow → Type 0
HasIssuer issuer_id rows = Any (λ x. x.issuer_id ≡ issuer_id) rows

-- No row is lost or changed, but for the record of an issuer, which stays one of that issuer.
pub record Grown (db db' : Database) : Type 0 where
  pub commitments : Extends db.commitments db'.commitments
  pub nullifiers : Extends db.nullifiers db'.nullifiers
  pub encrypted_notes : Extends db.encrypted_notes db'.encrypted_notes
  pub issuers :
      (issuer_id : String) → HasIssuer issuer_id db.issuers → HasIssuer issuer_id db'.issuers

pub Grown-refl : (db : Database) → Grown db db
Grown-refl db = record {
  commitments = Extends-refl db.commitments;
  nullifiers = Extends-refl db.nullifiers;
  encrypted_notes = Extends-refl db.encrypted_notes;
  issuers = λ i a. a;
}

pub upsert_issuer_row-HasIssuer :
    (r : IssuerRow) (rows : List IssuerRow) → HasIssuer r.issuer_id (upsert_issuer_row r rows)
unfolding upsert_issuer_row
upsert_issuer_row-HasIssuer r [] = inl refl
upsert_issuer_row-HasIssuer r (x ∷ rows) = elim (Bool-cases (x.issuer_id == r.issuer_id)) [
  | inl e ↦ rw e (inl refl)
  | inr e ↦ rw e (inr (upsert_issuer_row-HasIssuer r rows))
]

upsert_issuer_row-kept :
    (r : IssuerRow) (i : String) (rows : List IssuerRow)
    → HasIssuer i rows
    → HasIssuer i (upsert_issuer_row r rows)
unfolding upsert_issuer_row
upsert_issuer_row-kept r i [] a = absurd a
upsert_issuer_row-kept r i (x ∷ rows) (inl h) = elim (Bool-cases (x.issuer_id == r.issuer_id)) [
  | inl e ↦ rw e (inl (sym ((String_eq.beq_iff x.issuer_id r.issuer_id).0 e) ∙ h))
  | inr e ↦ rw e (inl h)
]
upsert_issuer_row-kept r i (x ∷ rows) (inr a) = elim (Bool-cases (x.issuer_id == r.issuer_id)) [
  | inl e ↦ rw e (inr a)
  | inr e ↦ rw e (inr (upsert_issuer_row-kept r i rows a))
]

module _ (db₀ : Database) where
  totals-Grown :
      (db : Database) (o : Option (List PoolTotal))
      → Grown db₀ db
      → Yields (Grown db₀) (option_map (λ rows. record db { pool_totals = rows }) o)
  totals-Grown db none g = tt
  totals-Grown db (some rows) g = record {
    commitments = g.commitments;
    nullifiers = g.nullifiers;
    encrypted_notes = g.encrypted_notes;
    issuers = g.issuers;
  }

  pub upsert_cursor-Grown :
      (contract_id : String) (n : ℤ) (c : Option String)
      → Kept (Grown db₀) (upsert_cursor contract_id n c)
  unfolding upsert_cursor
  upsert_cursor-Grown contract_id n c db g = record {
    commitments = g.commitments;
    nullifiers = g.nullifiers;
    encrypted_notes = g.encrypted_notes;
    issuers = g.issuers;
  }

  -- Every statement of an event keeps the rows.
  pub Grown-rows : RowsKept (Grown db₀)
  unfolding insert_commitment insert_nullifier insert_note upsert_issuer add_total
  Grown-rows = record {
    commitment = λ r db g.
        if_Yields (Grown db₀) (conflicts_commitment r db.commitments) (some db) (some _) g record {
          commitments = Extends-snoc db₀.commitments db.commitments r g.commitments;
          nullifiers = g.nullifiers;
          encrypted_notes = g.encrypted_notes;
          issuers = g.issuers;
        };
    nullifier = λ r db g.
        if_Yields (Grown db₀) (conflicts_nullifier r db.nullifiers) (some db) (some _) g record {
          commitments = g.commitments;
          nullifiers = Extends-snoc db₀.nullifiers db.nullifiers r g.nullifiers;
          encrypted_notes = g.encrypted_notes;
          issuers = g.issuers;
        };
    note = λ pool c k t l h db g. record {
      commitments = g.commitments;
      nullifiers = g.nullifiers;
      encrypted_notes = Extends-snoc db₀.encrypted_notes db.encrypted_notes _ g.encrypted_notes;
      issuers = g.issuers;
    };
    issuer = λ r db g. record {
      commitments = g.commitments;
      nullifiers = g.nullifiers;
      encrypted_notes = g.encrypted_notes;
      issuers = λ i a. upsert_issuer_row-kept r i db.issuers (g.issuers i a);
    };
    total = λ r db g. totals-Grown db (add_total_row r db.pool_totals) g;
  }

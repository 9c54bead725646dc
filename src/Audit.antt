-- ===== src/Audit.antt =====
-- The hash chains of app/core/audit_chain.py: the inventory ledger, the authentication log and
-- the general ledger each hash a record of fields together with the hash before it. The three
-- pairs of functions there differ in the fields alone, which are a parameter here; so is the
-- digest, which stands for SHA-256 over the canonical JSON text of the fields and the hash.
pub mod Walk
pub mod Tamper
pub mod Ledger
pub mod Events
use jewelry_backend.Common.{
  ℕ, zero, ◌+◌, Bool, true, false, not, ◌||◌, Option, none, some, List, [], ◌∷◌, String, str_eq,
  ltb, if◌then◌else◌, Result, ok, err, ◌>>=◌, ◌++◌, ◌≡◌, ◌≢◌,
}

abbrev pub genesis_hash : String
genesis_hash = "GENESIS"

-- The `ValueError` for an empty `prev_hash`.
pub data ChainError : Type 0 where
  empty_prev_hash : ChainError

-- A stored row: its chain pointers and the fields that are hashed.
pub record Row (F : Type 0) : Type 0 where
  pub id : String
  pub prev_hash : String
  pub entry_hash : String
  pub fields : F

pub data Status : Type 0 where
  intact broken empty : Status

pub record Break : Type 0 where
  pub id : String
  pub expected_prev_hash : String
  pub actual_prev_hash : String
  pub expected_entry_hash : String
  pub actual_entry_hash : String

pub record Report : Type 0 where
  pub status : Status
  pub total_rows : ℕ
  pub first_break : Option Break

abbrev pub break_report : ℕ → Break → Report
break_report total b = record { status = broken; total_rows = total; first_break = some b }

abbrev pub clean_report : ℕ → Report
clean_report total = record {
  status = if ltb 0 total then intact else empty;
  total_rows = total;
  first_break = none;
}

module _ {F : Type 0} (digest : String → F → String) where
  -- `compute_ledger_entry_hash`, `compute_auth_entry_hash`, `compute_gl_entry_hash`
  unfoldable pub compute_entry_hash : String → F → Result ChainError String
  compute_entry_hash prev_hash fields =
      if str_eq prev_hash "" then err empty_prev_hash else ok (digest prev_hash fields)

  -- The test of the loop, and what it reports.
  abbrev pub mismatch : String → Row F → String → Bool
  mismatch expected_prev row recomputed =
      not (str_eq row.prev_hash expected_prev) || not (str_eq row.entry_hash recomputed)

  abbrev pub break_at : String → Row F → String → Break
  break_at expected_prev row recomputed = record {
    id = row.id;
    expected_prev_hash = expected_prev;
    actual_prev_hash = row.prev_hash;
    expected_entry_hash = recomputed;
    actual_entry_hash = row.entry_hash;
  }

  -- The loop over the rows, with its two variables.
  unfoldable pub verify_from : String → ℕ → List (Row F) → Result ChainError Report
  unfolding compute_entry_hash
  verify_from expected_prev total [] = ok (clean_report total)
  verify_from expected_prev total (row ∷ rows) =
      let rest = verify_from row.entry_hash (total + 1) rows in
      compute_entry_hash row.prev_hash row.fields >>= λ recomputed.
      if mismatch expected_prev row recomputed
      then ok (break_report (total + 1) (break_at expected_prev row recomputed))
      else rest

  -- `verify_chain`, `verify_auth_chain`, `verify_gl_chain`
  unfoldable pub verify_chain : List (Row F) → Result ChainError Report
  unfolding verify_from
  verify_chain rows = verify_from genesis_hash 0 rows

  -- The abstract view: each row points to the row before it and carries its own digest.
  abbrev pub IsChain : String → List (Row F) → Type 0
  IsChain prev [] = Unit
  IsChain prev (row ∷ rows) =
      (row.prev_hash ≡ prev)
      × (row.entry_hash ≡ digest prev row.fields)
      × IsChain row.entry_hash rows

  -- The hash that the next row will point to.
  abbrev pub last_hash : String → List (Row F) → String
  last_hash prev [] = prev
  last_hash prev (row ∷ rows) = last_hash row.entry_hash rows

-- ===== src/Audit/Ledger.antt =====
-- The appends: `record` of app/core/ledger.py and `append_auth_event` of app/core/auth_audit.py.
-- Both take the head row, hash the new event onto it, store the row and advance the head; the
-- row lock makes them atomic, so that an append is one step here.
use jewelry_backend.Common.{
  ℕ, ◌+◌, ◌≡◌, ◌≢◌, refl, ap, sym, ◌∙◌, Bool, Option, List, [], ◌∷◌, ◌++◌, String, eq_iff, arith,
  Result, ok, ◌>>=◌, length, length-append,
}
use jewelry_backend.Common.Dates.{DocNo}
use jewelry_backend.Common.Int.{ℤ}
use jewelry_backend.Money.{Decimal}
use jewelry_backend.Audit.{
  Row, ChainError, IsChain, last_hash, compute_entry_hash, genesis_hash, verify_chain, clean_report,
}
use jewelry_backend.Audit.Walk.{
  IsChain-append, last_hash-append, verify_chain_iff, genesis_hash-ne-empty,
}

-- The values of a JSON payload.
pub data Value : Type 0 where
  text : String → Value
  optional : Option String → Value
  number : ℕ → Value
  amount : Decimal → Value
  doc_no : DocNo → Value
  integer : ℤ → Value
  flag : Bool → Value
  texts : List (String × String) → Value
  amounts : List (String × Decimal) → Value

-- `_CHAINED_FIELDS`; a payload is a list of named values.
pub record LedgerFields : Type 0 where
  pub event_type : String
  pub actor_user_id : String
  pub occurred_at : ℕ
  pub ref_type : String
  pub ref_id : String
  pub payload : List (String × Value)

-- `_AUTH_CHAINED_FIELDS`
pub record AuthFields : Type 0 where
  pub event_type : String
  pub occurred_at : ℕ
  pub user_id : Option String
  pub claimed_email : Option String
  pub client_ip : Option String
  pub user_agent : Option String
  pub detail : Option String

-- A log table with its head row.
pub record Log (F : Type 0) : Type 0 where
  pub rows : List (Row F)
  pub latest_entry_hash : String
  pub row_count : ℕ

abbrev pub empty_log : {F : Type 0} → Log F
empty_log = record { rows = []; latest_entry_hash = genesis_hash; row_count = 0 }

module _ {F : Type 0} (digest : String → F → String) where
  -- `id` is the key that the database gives the row.
  unfoldable pub append : Log F → String → F → Result ChainError (Log F)
  unfolding compute_entry_hash
  append log id fields = compute_entry_hash digest log.latest_entry_hash fields >>= λ entry_hash.
      ok (record {
        rows =
            log.rows
            ++ record {
              id = id;
              prev_hash = log.latest_entry_hash;
              entry_hash = entry_hash;
              fields = fields;
            }
              ∷ [];
        latest_entry_hash = entry_hash;
        row_count = log.row_count + 1;
      })

  -- What the head row says of the table.
  pub record IsSound (log : Log F) : Type 0 where
    pub chain : IsChain digest genesis_hash log.rows
    pub head : log.latest_entry_hash ≡ last_hash digest genesis_hash log.rows
    pub count : log.row_count ≡ length log.rows
    pub nonempty : log.latest_entry_hash ≢ ""

  -- Appends in a row.
  unfoldable pub append_all : Log F → List (String × F) → Result ChainError (Log F)
  unfolding append
  append_all log [] = ok log
  append_all log ((id, fields) ∷ events) = append log id fields >>= λ log'. append_all log' events

  -- The log after an append that does not raise.
  abbrev pub appended : Log F → String → F → Log F
  appended log id fields = record {
    rows =
        log.rows
        ++ record {
          id = id;
          prev_hash = log.latest_entry_hash;
          entry_hash = digest log.latest_entry_hash fields;
          fields = fields;
        }
          ∷ [];
    latest_entry_hash = digest log.latest_entry_hash fields;
    row_count = log.row_count + 1;
  }

  pub append-eq :
      (log : Log F) (id : String) (fields : F)
      → log.latest_entry_hash ≢ ""
      → append log id fields ≡ ok (appended log id fields)
  unfolding append
  append-eq log id fields ne = ground (arith, eq_iff log.latest_entry_hash "")

  module _ (digest_nonempty : (p : String) (f : F) → digest p f ≢ "") where
    pub appended-IsSound :
        (log : Log F) (id : String) (fields : F) → IsSound log → IsSound (appended log id fields)
    appended-IsSound log id fields s = record {
      chain =
          IsChain-append digest genesis_hash log.rows _ s.chain
            (s.head, ap (λ (p : String). digest p fields) s.head, tt);
      head = sym (last_hash-append digest genesis_hash log.rows _);
      count = rw length-append (omega (arith, s.count));
      nonempty = digest_nonempty log.latest_entry_hash fields;
    }

    pub append_all_total :
        (log : Log F) (events : List (String × F))
        → IsSound log
        → (log' : Log F) × (append_all log events ≡ ok log')
          × IsSound log'
          × (log'.row_count ≡ log.row_count + length events)
    unfolding append_all
    append_all_total log [] s = (log, refl, s, omega arith)
    append_all_total log ((id, fields) ∷ events) s =
        let next = appended log id fields in
        let (log', run, sound, count) =
          append_all_total next events (appended-IsSound log id fields s) in
        (log', rw (append-eq log id fields s.nonempty) run, sound, omega (arith, count))

    pub empty_log-IsSound : IsSound empty_log
    empty_log-IsSound = record {
      chain = tt;
      head = refl;
      count = refl;
      nonempty = genesis_hash-ne-empty;
    }

    -- Appends to the empty log, however many, never raise; the walk of the stored rows then
    -- reports all of them clean, the head row counts them, and its hash is that of the last row.
    pub append_all-verify_chain :
        (events : List (String × F))
        → (log : Log F) × (append_all empty_log events ≡ ok log)
          × (verify_chain digest log.rows ≡ ok (clean_report (length events)))
          × (log.row_count ≡ length events)
          × (log.latest_entry_hash ≡ last_hash digest genesis_hash log.rows)
    append_all-verify_chain events =
        let (log, run, sound, count) = append_all_total empty_log events empty_log-IsSound in
        let counted : log.row_count ≡ length events = omega (arith, count) in
        (
          log,
          run,
          (verify_chain_iff digest digest_nonempty log.rows).1 sound.chain
              ∙ ap (λ (n : ℕ). ok (clean_report n)) (sym sound.count ∙ counted),
          counted,
          sound.head,
        )

-- `append_auth_event`: the row of an event of authentication, at the time that the clock gives.
abbrev pub append_auth_event :
    (String → AuthFields → String)
    → Log AuthFields
    → String
    → ℕ
    → AuthFields
    → Result ChainError (Log AuthFields)
append_auth_event digest log id now fields =
    append digest log id (record fields { occurred_at = now })

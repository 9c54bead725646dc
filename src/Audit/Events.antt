-- ===== src/Audit/Events.antt =====
-- The calls of `record` in app/core/ledger.py that a handler makes, in order: what a handler decides
-- is a state and the events of its ledger rows, and recording them is the last part of its work.
use jewelry_backend.Common.{ℕ, suc, List, [], ◌∷◌, String}
use jewelry_backend.Audit.Ledger.{LedgerFields, Value}

-- The arguments of a call, without the actor, who is the same for all calls of a handler.
pub record Event : Type 0 where
  pub event_type : String
  pub ref_type : String
  pub ref_id : String
  pub payload : List (String × Value)

-- Who acts, and what the database and the clock supply: the key and the time of the n-th row.
pub record Recorder : Type 0 where
  pub actor_user_id : String
  pub key : ℕ → String
  pub now : ℕ → ℕ

abbrev pub fields_at : Recorder → ℕ → Event → LedgerFields
fields_at r n e = record {
  event_type = e.event_type;
  actor_user_id = r.actor_user_id;
  occurred_at = r.now n;
  ref_type = e.ref_type;
  ref_id = e.ref_id;
  payload = e.payload;
}

abbrev pub rows_from : Recorder → ℕ → List Event → List (String × LedgerFields)
rows_from r n [] = []
rows_from r n (e ∷ events) = (r.key n, fields_at r n e) ∷ rows_from r (suc n) events

-- ===== src/Inventory/Lot.antt =====
-- `consume_from_lot` of app/core/inventory.py: the only debit of a gold lot.
pub mod Weight
use jewelry_backend.Common.{
  ℕ, ◌+◌, ◌*◌, ◌/◌, Bool, true, false, not, ◌||◌, Option, none, some, List, [], ◌∷◌, ◌++◌, String,
  str_eq, if◌then◌else◌, Result, ok, err, ◌>>=◌, ◌>>◌, raise_if, find,
}
use jewelry_backend.Common.Int.{ℤ, pos, negsuc, pos_part, neg_part, ◌+ℤ◌, ◌-ℤ◌, ◌*ℤ◌, leb_ℤ, ltb_ℤ}
use jewelry_backend.Money.{Decimal, half_even, negate, quantize_quotient}
use jewelry_backend.Audit.{ChainError}
use jewelry_backend.Audit.Ledger.{Log, LedgerFields, Value, append}
use jewelry_backend.Gl.Lines.{q_money}
use jewelry_backend.Pricing.{Karat}

-- `GoldLot`. The columns of grams hold three decimals; a finer amount, which the database rounds,
-- is kept as it is here.
pub record Lot : Type 0 where
  pub id : String
  pub karat : Karat
  pub weight_grams : Decimal
  pub weight_remaining_grams : Decimal
  pub cost_basis_usd : Decimal
  pub is_depleted : Bool

-- `GoldLotConsumption`, with grams of three decimals likewise.
pub record Consumption : Type 0 where
  pub id : String
  pub lot_id : String
  pub grams : Decimal
  pub cost_basis_consumed_usd : Decimal
  pub ref_type : String
  pub ref_id : String
  pub created_by_user_id : String

pub record Stock : Type 0 where
  pub lots : List Lot
  pub consumptions : List Consumption
  pub ledger : Log LedgerFields

pub data Error : Type 0 where
  grams_not_positive : Error
  lot_not_found : Error
  lot_depleted : Error
  insufficient_grams : Decimal → Decimal → Error
  hash_refused : Error

pub status_code : Error → ℕ
status_code grams_not_positive = 422
status_code lot_not_found = 404
status_code lot_depleted = 422
status_code (insufficient_grams _ _) = 422
status_code hash_refused = 500

pub record Request : Type 0 where
  pub lot_id : String
  pub grams : Decimal
  pub ref_type : String
  pub ref_id : String
  pub actor_user_id : String

-- The keys and times that the database and the clock supply.
pub record Supply : Type 0 where
  pub consumption_id : String
  pub consumed_event : String
  pub consumed_at : ℕ
  pub depleted_event : String
  pub depleted_at : ℕ

-- `(cost_basis_usd * grams / weight_grams).quantize(0.01)`, zero for a lot of no weight
unfoldable pub cost_basis_share : Lot → Decimal → Decimal
cost_basis_share lot grams =
    if ltb_ℤ (pos 0) lot.weight_grams
    then quantize_quotient q_money (lot.cost_basis_usd *ℤ grams) lot.weight_grams
    else pos 0

-- The checks on the row that was read.
unfoldable pub lot_checks : Lot → Decimal → Result Error (Unit {0})
lot_checks lot grams =
    raise_if lot.is_depleted lot_depleted
    >> raise_if (ltb_ℤ lot.weight_remaining_grams grams)
        (insufficient_grams grams lot.weight_remaining_grams)

-- The row after the debit.
unfoldable pub debited : Lot → Decimal → Lot
debited lot grams =
    let remaining = lot.weight_remaining_grams -ℤ grams in
    record lot {
      weight_remaining_grams = remaining;
      is_depleted = leb_ℤ remaining (pos 0) || lot.is_depleted;
    }

-- The table with the row of this key replaced.
unfoldable pub store_lot : Lot → List Lot → List Lot
store_lot new [] = []
store_lot new (lot ∷ lots) = if str_eq lot.id new.id then new ∷ lots else lot ∷ store_lot new lots

abbrev pub hashed : {A : Type 0} → Result ChainError A → Result Error A
hashed (ok a) = ok a
hashed (err _) = err hash_refused

abbrev pub consumption_of : Request → Supply → Lot → Consumption
consumption_of r supply lot = record {
  id = supply.consumption_id;
  lot_id = lot.id;
  grams = r.grams;
  cost_basis_consumed_usd = cost_basis_share lot r.grams;
  ref_type = r.ref_type;
  ref_id = r.ref_id;
  created_by_user_id = r.actor_user_id;
}

abbrev consumed_event : Request → Supply → Consumption → Lot → LedgerFields
consumed_event r supply c new = record {
  event_type = "LOT_CONSUMED";
  actor_user_id = r.actor_user_id;
  occurred_at = supply.consumed_at;
  ref_type = "gold_lot";
  ref_id = new.id;
  payload =
      ("consumption_id", Value.text c.id)
      ∷ ("grams", Value.amount r.grams)
      ∷ ("cost_basis_consumed_usd", Value.amount c.cost_basis_consumed_usd)
      ∷ ("remaining_after", Value.amount new.weight_remaining_grams)
      ∷ ("consumer_ref_type", Value.text r.ref_type)
      ∷ ("consumer_ref_id", Value.text r.ref_id)
      ∷ [];
}

abbrev depleted_event : Request → Supply → Consumption → Lot → LedgerFields
depleted_event r supply c new = record {
  event_type = "LOT_DEPLETED";
  actor_user_id = r.actor_user_id;
  occurred_at = supply.depleted_at;
  ref_type = "gold_lot";
  ref_id = new.id;
  payload = ("depleted_at_consumption_id", Value.text c.id) ∷ [];
}

abbrev pub find_lot : List Lot → String → Option Lot
find_lot lots id = find (λ (lot : Lot). str_eq lot.id id) lots

module _ (digest : String → LedgerFields → String) where
  -- The one or two audit events.
  unfoldable pub record_events :
      Log LedgerFields → Request → Supply → Consumption → Lot → Result Error (Log LedgerFields)
  record_events ledger r supply c new =
      hashed (append digest ledger supply.consumed_event (consumed_event r supply c new))
      >>= λ ledger'.
          if new.is_depleted
          then hashed (append digest ledger' supply.depleted_event (depleted_event r supply c new))
          else ok ledger'

  unfoldable pub consume_found :
      Stock → Request → Supply → Option Lot → Result Error (Consumption × Stock)
  consume_found stock r supply none = err lot_not_found
  consume_found stock r supply (some lot) =
      let new = debited lot r.grams in
      let c = consumption_of r supply lot in
      lot_checks lot r.grams
      >> (record_events stock.ledger r supply c new >>= λ ledger. ok (
        c,
        record {
          lots = store_lot new stock.lots;
          consumptions = stock.consumptions ++ c ∷ [];
          ledger = ledger;
        },
      ))

  unfoldable pub consume_from_lot : Stock → Request → Supply → Result Error (Consumption × Stock)
  consume_from_lot stock r supply =
      raise_if (leb_ℤ r.grams (pos 0)) grams_not_positive
      >> consume_found stock r supply (find_lot stock.lots r.lot_id)

-- ===== src/Tests/Inventory.antt =====
-- A lot of 10 g at 500.00 that gives 4 g, and a supplier who is repaid in part.
use mathlib.Core.Path.{subst}
use jewelry_backend.Common.{
  ◌≡◌, refl, false, some, List, [], ◌∷◌, String, ok, err, Result, arith, if◌then◌else◌,
}
use jewelry_backend.Common.Int.{pos, negsuc, ◌+ℤ◌, ◌-ℤ◌, ◌*ℤ◌}
use jewelry_backend.Money.{quantize_quotient, nearest, half_even}
use jewelry_backend.Audit.Ledger.{LedgerFields, empty_log, append}
use jewelry_backend.Inventory.Supplier.{
  Balance, Key, cash_unit, owed, has_row, store_balance, key_eq, adjust_balance,
}
use jewelry_backend.Inventory.Supplier.Owed
use jewelry_backend.Inventory.Supplier.Owed.{NoneNegative, adjust_balance_moves}
use jewelry_backend.Pricing.{k21}
use jewelry_backend.Inventory.Lot
use jewelry_backend.Inventory.Lot.{
  Stock, Request, Supply, Consumption, consume_from_lot, consume_found, find_lot, Error,
  record_events, lot_checks, debited, store_lot, cost_basis_share,
}
use jewelry_backend.Inventory.Lot.Weight.{InThousandths, IsSound, IsValid, consume_from_lot-IsSound}

abbrev owed_cash : Key
owed_cash = record { supplier_id = "s1"; unit = cash_unit; karat = "" }

abbrev one_debt : List Balance
one_debt =
    record { supplier_id = "s1"; unit = cash_unit; karat = ""; balance = pos 90_000_000 } ∷ []

abbrev debt_after : List Balance
debt_after =
    record { supplier_id = "s1"; unit = cash_unit; karat = ""; balance = pos 60_000_000 } ∷ []

repaid :
    adjust_balance one_debt owed_cash (negsuc 29_999_999) false
    ≡ ok (pos 90_000_000, pos 60_000_000, debt_after)
unfolding adjust_balance owed has_row store_balance key_eq ◌+ℤ◌
repaid = refl

adjust_balance_moves_example :
    (pos 90_000_000 ≡ owed owed_cash one_debt)
    × (pos 60_000_000 ≡ pos 90_000_000 +ℤ negsuc 29_999_999)
    × ((j : Key)
        → owed j debt_after ≡ (if key_eq owed_cash j then pos 60_000_000 else owed j one_debt))
    × (false ≡ false → NoneNegative one_debt → NoneNegative debt_after)
    × Owed.InThousandths debt_after
adjust_balance_moves_example =
    adjust_balance_moves one_debt debt_after owed_cash (negsuc 29_999_999) (pos 90_000_000)
      (pos 60_000_000) false (refl, tt) refl repaid

abbrev digest : String → LedgerFields → String
digest h f = "audit"

abbrev lot : Lot.Lot
lot = record {
  id = "l1";
  karat = k21;
  weight_grams = pos 1_000_000_000;
  weight_remaining_grams = pos 1_000_000_000;
  cost_basis_usd = pos 50_000_000_000;
  is_depleted = false;
}

abbrev stock : Stock
stock = record { lots = lot ∷ []; consumptions = []; ledger = empty_log }

abbrev request : Request
request = record {
  lot_id = "l1";
  grams = pos 400_000_000;
  ref_type = "order";
  ref_id = "o1";
  actor_user_id = "u1";
}

abbrev supply : Supply
supply = record {
  consumption_id = "c1";
  consumed_event = "e1";
  consumed_at = 1;
  depleted_event = "e2";
  depleted_at = 2;
}

lot-IsValid : IsValid lot
lot-IsValid = record { nonneg = omega arith; within = omega arith; flagged = refl }

only_lot : (id : String) (found : Lot.Lot) → find_lot (lot ∷ []) id ≡ some found → lot ≡ found
only_lot id found h = ground (arith, h)

stock-IsSound : IsSound stock
unfolding ◌+ℤ◌
stock-IsSound = record {
  valid = λ id found h. subst IsValid (only_lot id found h) lot-IsValid;
  accounted = λ id found h.
      subst (λ (l : Lot.Lot). l.weight_grams ≡ l.weight_remaining_grams +ℤ pos 0)
        (only_lot id found h) refl;
}

stock-InThousandths : InThousandths stock
stock-InThousandths = record { lots = ((refl, refl), tt); consumptions = tt }

abbrev stock_of : Result Error (Consumption × Stock) → Stock
stock_of (ok (c, after)) = after
stock_of (err raised) = stock

abbrev consumption_in : Consumption → Result Error (Consumption × Stock) → Consumption
consumption_in d (ok (c, after)) = c
consumption_in d (err raised) = d

abbrev no_consumption : Consumption
no_consumption = record {
  id = "";
  lot_id = "";
  grams = pos 0;
  cost_basis_consumed_usd = pos 0;
  ref_type = "";
  ref_id = "";
  created_by_user_id = "";
}

abbrev used : Result Error (Consumption × Stock)
used = consume_from_lot digest stock request supply

used_ok : used ≡ ok (consumption_in no_consumption used, stock_of used)
unfolding consume_from_lot consume_found record_events lot_checks debited store_lot cost_basis_share
    append quantize_quotient nearest half_even ◌+ℤ◌ ◌-ℤ◌ ◌*ℤ◌
used_ok = refl

consume_from_lot-IsSound_example : IsSound (stock_of used) × InThousandths (stock_of used)
consume_from_lot-IsSound_example =
    consume_from_lot-IsSound digest stock request supply stock-IsSound stock-InThousandths refl
      used_ok

-- ===== src/Tests/Suppliers.antt =====
-- A supplier sells gold and stones on credit and is repaid in part.
use jewelry_backend.Common.{ℕ, true, ◌≡◌, refl, none, some, [], ◌∷◌, String, ok, err, Result, All}
use jewelry_backend.Common.Int.{ℤ, pos, ◌+ℤ◌, ◌-ℤ◌}
use jewelry_backend.Gl.Lines.{sum_of}
use jewelry_backend.Audit.Ledger.{append_all}
use jewelry_backend.Inventory.Supplier.{
  cash_unit, adjust_balance, owed, has_row, store_balance, key_eq,
}
use jewelry_backend.Suppliers.{Shop, Error, mixed_mode, parse_karat, record_all, add_grams}
use jewelry_backend.Suppliers.Intake.{
  pure_gold, consume_lots, materialize_items, materialize_item, receive_gold,
}
use jewelry_backend.Suppliers.Purchases.{
  Caller, PurchaseRequest, create_purchase, book_purchase, purchase_checks, check_mode,
  check_karats, check_grams_paid, owe, owe_gold, owe_all,
}
use jewelry_backend.Suppliers.Payments.{PaymentRequest, create_payment, book_payment, checked_unit}
use jewelry_backend.Inventory.Supplier.Owed.{InThousandths}
use jewelry_backend.Suppliers.Scale.{InScale}
use jewelry_backend.Suppliers.Changed.{IsSettled}
use jewelry_backend.Suppliers.Settled.{Reach, here, next, purchased, paid, Reach-IsSettled}
use jewelry_backend.Ap.{compute_ap_aging, cash_total, ApAging}
use jewelry_backend.Ap.Open.{InCents}
use jewelry_backend.Ap.Reconciled.{compute_ap_aging_lem, balance_of, Agrees}
use jewelry_backend.Tests.Shop.{gl_digest, ledger_digest, start}

abbrev pub opened : Shop
opened = record {
  suppliers = record { id = "s1"; name = "Al Noor"; is_active = true } ∷ [];
  balances = [];
  lots = [];
  consumptions = [];
  units = [];
  products = [];
  purchases = [];
  payments = [];
  db = start;
}

opened-IsSettled : IsSettled opened
unfolding owed ◌-ℤ◌
opened-IsSettled = record {
  history = λ j. refl;
  none_negative = tt;
  paid_nonneg = tt;
  inactive_owed = λ id s found idle j of. refl;
}

abbrev pub caller : String → Caller
caller id = record {
  recorder = record { actor_user_id = "u1"; key = λ n. "k"; now = λ n. n };
  document_id = id;
  now = 10;
  supply = λ n. record {
    consumption_id = "c";
    consumed_event = "e";
    consumed_at = n;
    depleted_event = "d";
    depleted_at = n;
  };
  key = λ n. "l1";
  posting = none;
}

-- 10 g of K21 on credit, and 500 dollars of which 200 are paid.
abbrev pub purchase : PurchaseRequest
purchase = record {
  occurred_at = none;
  payment_mode = mixed_mode;
  trade_markup_per_gram = none;
  total_cash_due = pos 50_000_000_000;
  total_grams_due_by_karat = record { karat = "K21"; grams = pos 1_000_000_000 } ∷ [];
  cash_paid_at_creation = pos 20_000_000_000;
  gold_payments_at_creation = [];
  items =
      record {
        item_kind = pure_gold;
        unit_cost_usd = pos 50_000_000_000;
        spec = none;
        coin_type_id = none;
        ounce_type_id = none;
        quantity = none;
        weight_grams = some (pos 1_000_000_000);
        karat = some "K21";
      }
      ∷ [];
}

abbrev pub shop_or : Result Error Shop → Shop
shop_or (ok shop) = shop
shop_or (err raised) = opened

abbrev stocked : Shop
stocked = shop_or (create_purchase gl_digest ledger_digest (caller "p1") "s1" purchase opened)

bought_ok : create_purchase gl_digest ledger_digest (caller "p1") "s1" purchase opened ≡ ok stocked
unfolding create_purchase book_purchase purchase_checks check_mode check_karats check_grams_paid owe
    owe_gold owe_all parse_karat record_all append_all add_grams consume_lots materialize_items
    materialize_item receive_gold adjust_balance owed has_row store_balance key_eq ◌+ℤ◌ ◌-ℤ◌
bought_ok = refl

-- 100 dollars are repaid.
abbrev payment : PaymentRequest
payment = record {
  unit = cash_unit;
  karat = none;
  amount = pos 10_000_000_000;
  gold_payments = [];
  notes = none;
}

abbrev repaid_shop : Shop
repaid_shop = shop_or (create_payment gl_digest ledger_digest (caller "y1") "s1" payment stocked)

paid_ok : create_payment gl_digest ledger_digest (caller "y1") "s1" payment stocked ≡ ok repaid_shop
unfolding create_purchase book_purchase purchase_checks check_mode check_karats check_grams_paid owe
    owe_gold owe_all parse_karat record_all append_all add_grams consume_lots materialize_items
    materialize_item receive_gold adjust_balance owed has_row store_balance key_eq ◌+ℤ◌ ◌-ℤ◌
    create_payment book_payment checked_unit
paid_ok = refl

pub in_scale : InScale purchase
in_scale = record { cash_due = refl; cash_paid = refl; grams_due = (refl, tt); gold_paid = tt }

abbrev run : Reach gl_digest ledger_digest opened repaid_shop
run =
    next (next here (purchased (caller "p1") "s1" purchase in_scale bought_ok))
      (paid (caller "y1") "s1" payment refl refl paid_ok)

Reach-IsSettled_example : IsSettled repaid_shop × InThousandths repaid_shop.balances
Reach-IsSettled_example = Reach-IsSettled gl_digest ledger_digest run opened-IsSettled tt

in_cents : InCents repaid_shop
unfolding create_purchase book_purchase purchase_checks check_mode check_karats check_grams_paid owe
    owe_gold owe_all parse_karat record_all append_all add_grams consume_lots materialize_items
    materialize_item receive_gold adjust_balance owed has_row store_balance key_eq ◌+ℤ◌ ◌-ℤ◌
    create_payment book_payment checked_unit
in_cents = ((refl, tt), (refl, tt))

abbrev days_ago : ℕ → ℤ
days_ago n = pos 40

compute_ap_aging_lem_example :
    (cash_total days_ago repaid_shop ≡ sum_of (balance_of repaid_shop) repaid_shop.suppliers)
    × All (Agrees repaid_shop) (ApAging.by_supplier (compute_ap_aging days_ago repaid_shop))
compute_ap_aging_lem_example =
    compute_ap_aging_lem days_ago repaid_shop
      (Reach-IsSettled gl_digest ledger_digest run opened-IsSettled tt).0 in_cents

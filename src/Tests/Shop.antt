-- ===== src/Tests/Shop.antt =====
-- A chart of accounts, one open month, and a sale.
use jewelry_backend.Common.{
  ◌≢◌, refl, true, none, some, List, [], ◌∷◌, String, ok, err, Result, arith,
}
use jewelry_backend.Common.Int.{pos, ◌+ℤ◌, ◌-ℤ◌, ◌*ℤ◌}
use jewelry_backend.Common.Dates.{Date}
use jewelry_backend.Money.{half_even, quantize}
use jewelry_backend.Audit.{genesis_hash}
use jewelry_backend.Audit.Walk.{genesis_hash-ne-empty}
use jewelry_backend.Audit.Ledger.{LedgerFields, empty_log, empty_log-IsSound}
use jewelry_backend.Gl.Lines.{GlLine, Denomination, money, dual}
use jewelry_backend.Gl.Store.{Account, asset, GlFields, Db, Error}
use jewelry_backend.Gl.Post.Invariant.{IsSound}
use jewelry_backend.Pricing.{k21}
use jewelry_backend.Postings.{Context}
use jewelry_backend.Postings.Sale.{SoldItem, SoldOrder, coin, cash}
use jewelry_backend.Postings.Even.{IsPriced}

abbrev pub gl_digest : String → GlFields → String
gl_digest h f = "gl"

abbrev pub ledger_digest : String → LedgerFields → String
ledger_digest h f = "audit"

pub gl_digest-ne-empty : (h : String) (f : GlFields) → gl_digest h f ≢ ""
gl_digest-ne-empty h f e = cc

pub ledger_digest-ne-empty : (h : String) (f : LedgerFields) → ledger_digest h f ≢ ""
ledger_digest-ne-empty h f e = cc

-- The key serves as the id and the code.
abbrev account : String → Denomination → Account
account key d = record {
  id = key;
  code = key;
  type = asset;
  denomination = d;
  system_key = some key;
  is_active = true;
}

abbrev pub start : Db
start = record {
  accounts =
      account "CASH" money
      ∷ account "SALES_REVENUE" money
      ∷ account "MAKING_CHARGE_REVENUE" money
      ∷ account "VAT_PAYABLE" money
      ∷ account "SALES_DISCOUNTS" money
      ∷ account "METAL_COGS" dual
      ∷ account "METAL_INVENTORY" dual
      ∷ account "METAL_AP" dual
      ∷ account "PRODUCT_INVENTORY" money
      ∷ account "AP" money
      ∷ account "METAL_CLEARING" dual
      ∷ account "ADJUSTMENT_EXPENSE" money
      ∷ [];
  periods = [];
  sequences = [];
  entries = [];
  latest_entry_hash = genesis_hash;
  row_count = 0;
  ledger = empty_log;
}

pub start-IsSound : IsSound gl_digest ledger_digest start
start-IsSound = record {
  chain = tt;
  head = refl;
  count = refl;
  hash_present = genesis_hash-ne-empty;
  audit = empty_log-IsSound ledger_digest ledger_digest-ne-empty;
  balanced = tt;
  reversed_once = λ id. omega arith;
  posted_once = λ t id u. omega arith;
  normal = tt;
  numbered = tt;
  numbers_differ = λ n. omega arith;
}

abbrev pub day : Date
day = record { year = 2026; month = 1; day = 31 }

abbrev pub context : Context
context = record {
  settings = record { accounting_auto_post_enabled = true; vat_percent = pos 1_000_000_000 };
  actor_user_id = "u1";
  entry_date = day;
  period_id = "p1";
  supply = record { entry_id = "e1"; event_id = "a1"; now = 100 };
}

abbrev pub void_context : Context
void_context = record context {
  period_id = "p2";
  supply = record { entry_id = "e2"; event_id = "a2"; now = 200 };
}

abbrev pub sold : SoldItem
sold = record {
  item_kind = coin;
  product_id = none;
  karat = k21;
  weight_grams = pos 800_000_000;
  gold_rate_at_sale = pos 10_000_000_000;
  making_charge = pos 0;
  stone_cost_at_sale = none;
  quantity = pos 1;
}

-- 1000 dollars, 10% of VAT and 5% of discount.
abbrev pub order : SoldOrder
order = record {
  id = "o1";
  order_number = "ORD-1";
  payment_method = cash;
  subtotal = pos 100_000_000_000;
  vat_amount = pos 10_000_000_000;
  discount_amount = pos 5_000_000_000;
  total_usd = pos 105_000_000_000;
  items = sold ∷ [];
}

abbrev pub lines_or : Result Error (List GlLine) → List GlLine
lines_or (ok lines) = lines
lines_or (err raised) = []

pub order-IsPriced : IsPriced order
unfolding ◌+ℤ◌ ◌-ℤ◌ ◌*ℤ◌ half_even quantize
order-IsPriced = record {
  total = refl;
  subtotal_cents = refl;
  discount_cents = refl;
  making = omega arith;
  vat = omega arith;
  discount = omega arith;
}

-- ===== src/Tests/Postings.antt =====
-- One operation of each kind, posted to the chart of accounts of Tests/Shop.
use jewelry_backend.Common.{◌≡◌, refl, none, some, Option, List, [], ◌∷◌, ok, err, Result, arith}
use mathlib.Core.Bool.{xor}
use jewelry_backend.Common.Int.{pos, ◌+ℤ◌, ◌-ℤ◌, ◌*ℤ◌}
use jewelry_backend.Money.{half_even, quantize, quantize_quotient, nearest}
use jewelry_backend.Gl.Lines.{
  validate_balanced, money_errors, metal_errors, line_errors, karats, insert_sorted,
  normalize_line_decimals,
}
use jewelry_backend.Gl.Store.{
  Entry, Db, Error, resolve_open_period, resolve_denominations, next_doc_no,
  refuse_duplicate_posting, unique_live_source_type, find_reversal,
}
use jewelry_backend.Gl.Post.{post_entry, post_checks, write_entry}
use jewelry_backend.Gl.Reverse.{reverse_entry, reversal_checks, reversal_posting, swap_line}
use jewelry_backend.Gl.Reverse.Mirror.{Cancels}
use jewelry_backend.Pricing.{k18, k21}
use jewelry_backend.Postings.{
  Context, ProductCost, ensure_period, resolve_account_id, find_live_entry, gold_value,
  unless_posted, post_lines,
}
use jewelry_backend.Postings.Sale.{
  post_sale, lines_of_sale, sale_accounts, sale_lines, stone_lines, cogs_by_karat, cogs_lines,
  add_cogs, cogs_cost_for_item,
}
use jewelry_backend.Postings.Refund.{
  Slice, post_order_refund, post_full_refund, lines_of_refund, refund_accounts, stone_back_lines,
}
use jewelry_backend.Postings.Supplier.{
  Purchase, lines_of_purchase, purchase_accounts, cash_side, stone_in_lines, Payment, PaymentUnit,
  lines_of_payment,
}
use jewelry_backend.Postings.Metal.{
  Buyback, lines_of_buyback, Melt, lines_of_melt, Loss, lines_of_loss,
}
use jewelry_backend.Postings.Even.{IsEven, lines_of_sale-IsEven}
use jewelry_backend.Postings.Even.Refund.{IsRefundable, lines_of_refund-IsEven}
use jewelry_backend.Postings.Even.Supplier.{
  IsPayable, lines_of_purchase-IsEven, lines_of_payment-IsEven,
}
use jewelry_backend.Postings.Even.Metal.{metal_entries-IsEven}
use jewelry_backend.Postings.Void.{void_after_sale}
use jewelry_backend.Tests.Shop.{
  gl_digest, ledger_digest, gl_digest-ne-empty, ledger_digest-ne-empty, start, start-IsSound, day,
  context, void_context, sold, order, lines_or, order-IsPriced,
}

sale_built : lines_of_sale [] order start ≡ ok (lines_or (lines_of_sale [] order start))
unfolding lines_of_sale sale_accounts stone_lines ◌+ℤ◌ ◌*ℤ◌ half_even quantize resolve_account_id
sale_built = refl

lines_of_sale-IsEven_example : IsEven (lines_or (lines_of_sale [] order start))
lines_of_sale-IsEven_example = lines_of_sale-IsEven [] order start order-IsPriced sale_built

abbrev slice : Slice
slice = record {
  item_id = "i1";
  item = sold;
  refund_value = pos 100_000_000_000;
  refund_qty = some 1;
  refund_seq = 1;
}

slice-IsRefundable : IsRefundable order slice
unfolding ◌*ℤ◌ half_even quantize quantize_quotient nearest xor
slice-IsRefundable = record { value_cents = refl; making = omega arith; discount = omega arith }

refund_built :
    lines_of_refund context.settings [] order slice start
    ≡ ok (lines_or (lines_of_refund context.settings [] order slice start))
unfolding lines_of_refund refund_accounts stone_back_lines ◌*ℤ◌ resolve_account_id
refund_built = refl

lines_of_refund-IsEven_example :
    IsEven (lines_or (lines_of_refund context.settings [] order slice start))
lines_of_refund-IsEven_example =
    lines_of_refund-IsEven context.settings [] order slice start slice-IsRefundable refund_built

abbrev purchase : Purchase
purchase = record {
  id = "s1";
  total_cash_due = pos 50_000_000_000;
  cash_paid_at_creation = pos 20_000_000_000;
  total_grams_due_by_karat = record { karat = "K21"; grams = pos 1_000_000_000 } ∷ [];
  grams_paid_at_creation_by_karat = [];
  items = [];
}

purchase-IsPayable : IsPayable purchase
unfolding half_even quantize
purchase-IsPayable = record {
  due_cents = refl;
  paid_cents = refl;
  paid = omega arith;
  paid_at_most = omega arith;
  stone = omega arith;
}

purchase_built : lines_of_purchase purchase start ≡ ok (lines_or (lines_of_purchase purchase start))
unfolding lines_of_purchase purchase_accounts cash_side stone_in_lines resolve_account_id half_even
    quantize
purchase_built = refl

lines_of_purchase-IsEven_example : IsEven (lines_or (lines_of_purchase purchase start))
lines_of_purchase-IsEven_example =
    lines_of_purchase-IsEven purchase start purchase-IsPayable purchase_built

abbrev payment : Payment
payment = record { id = "y1"; unit = PaymentUnit.gold k21; amount = pos 400_000_000 }

payment_built : lines_of_payment payment start ≡ ok (lines_or (lines_of_payment payment start))
unfolding lines_of_payment resolve_account_id
payment_built = refl

lines_of_payment-IsEven_example : IsEven (lines_or (lines_of_payment payment start))
lines_of_payment-IsEven_example = lines_of_payment-IsEven payment start payment_built

abbrev buyback : Buyback
buyback = record {
  id = "b1";
  karat = some k21;
  weight_grams = pos 400_000_000;
  buy_price_usd = pos 30_000_000_000;
}

abbrev melt : Melt
melt = record {
  id = "m1";
  from_karat = k21;
  from_grams = pos 700;
  to_karat = k18;
  to_grams = pos 800;
  cost_usd = pos 100;
}

abbrev loss : Loss
loss = record { id = "l1"; karat = some k18; grams = pos 800; cost_usd = pos 100 }

buyback_built :
    lines_of_buyback "K21" buyback start ≡ ok (lines_or (lines_of_buyback "K21" buyback start))
unfolding lines_of_buyback resolve_account_id
buyback_built = refl

melt_built : lines_of_melt melt start ≡ ok (lines_or (lines_of_melt melt start))
unfolding lines_of_melt resolve_account_id
melt_built = refl

loss_built : lines_of_loss "K18" loss start ≡ ok (lines_or (lines_of_loss "K18" loss start))
unfolding lines_of_loss resolve_account_id
loss_built = refl

metal_entries-IsEven_example :
    IsEven (lines_or (lines_of_buyback "K21" buyback start))
    × IsEven (lines_or (lines_of_melt melt start))
    × IsEven (lines_or (lines_of_loss "K18" loss start))
metal_entries-IsEven_example =
    metal_entries-IsEven start buyback melt loss "K21" "K18" buyback_built melt_built loss_built

abbrev entry_or : Result Error (Option Entry × Db) → Option Entry
entry_or (ok (e, db)) = e
entry_or (err raised) = none

abbrev some_entry : Option Entry → Entry
some_entry (some e) = e
some_entry none = record {
  period_id = "";
  row = record {
    id = "";
    prev_hash = "";
    entry_hash = "";
    fields = record {
      header = record {
        entry_no = record { series = ""; day = day; seq = 0 };
        entry_date = day;
        memo = "";
        source_type = "";
        source_id = none;
        reverses_entry_id = none;
        actor_user_id = "";
        occurred_at = 0;
      };
      lines = [];
    };
  };
}

abbrev tables : Result Error (Option Entry × Db) → Db
tables (ok (e, db)) = db
tables (err raised) = start

abbrev sale : Result Error (Option Entry × Db)
sale = post_sale gl_digest ledger_digest context [] order start

abbrev void : Result Error (Option Entry × Db)
void = post_order_refund gl_digest ledger_digest void_context [] order none (tables sale)

sale_ok : sale ≡ ok (some (some_entry (entry_or sale)), tables sale)
unfolding post_sale lines_of_sale sale_accounts stone_lines sale_lines cogs_by_karat cogs_lines
    add_cogs cogs_cost_for_item gold_value ◌+ℤ◌ ◌-ℤ◌ ◌*ℤ◌ half_even quantize resolve_account_id
    unless_posted post_lines ensure_period find_live_entry post_entry post_checks write_entry
    resolve_open_period resolve_denominations next_doc_no refuse_duplicate_posting validate_balanced
    money_errors metal_errors line_errors karats insert_sorted normalize_line_decimals
    unique_live_source_type
sale_ok = refl

void_ok : void ≡ ok (some (some_entry (entry_or void)), tables void)
unfolding post_sale lines_of_sale sale_accounts stone_lines sale_lines cogs_by_karat cogs_lines
    add_cogs cogs_cost_for_item gold_value ◌+ℤ◌ ◌-ℤ◌ ◌*ℤ◌ half_even quantize resolve_account_id
    unless_posted post_lines ensure_period find_live_entry post_entry post_checks write_entry
    resolve_open_period resolve_denominations next_doc_no refuse_duplicate_posting validate_balanced
    money_errors metal_errors line_errors karats insert_sorted normalize_line_decimals
    unique_live_source_type post_order_refund post_full_refund reverse_entry reversal_checks
    reversal_posting swap_line find_reversal
void_ok = refl

void_after_sale_example :
    Cancels (some_entry (entry_or sale)) (some_entry (entry_or void))
    × ((again : Context) (products : List ProductCost) (part : Option Slice)
        → post_order_refund gl_digest ledger_digest again products order part (tables void)
          ≡ ok (none, tables void))
void_after_sale_example =
    void_after_sale gl_digest ledger_digest gl_digest-ne-empty ledger_digest-ne-empty context
      void_context [] [] order start start-IsSound refl sale_ok void_ok

-- ===== src/Tests/Ap.antt =====
-- A purchase that is posted, and the control account after it.
use mathlib.Core.Path.{subst}
use mathlib.Core.Bool.{xor}
use jewelry_backend.Common.{
  ◌≡◌, refl, sym, ◌∙◌, true, false, Option, none, some, String, str_eq, eq_iff, find, find-All,
  find-test, ok, ok-injective, arith, All, Bool,
}
use jewelry_backend.Common.Int.{◌+ℤ◌, ◌-ℤ◌, ◌*ℤ◌}
use jewelry_backend.Money.{half_even, quantize, quantize_quotient, nearest}
use jewelry_backend.Audit.Ledger.{append_all}
use jewelry_backend.Gl.Lines.{
  validate_balanced, money_errors, metal_errors, line_errors, karats, insert_sorted,
  normalize_line_decimals,
}
use jewelry_backend.Gl.Store.{
  Account, resolve_open_period, resolve_denominations, next_doc_no, refuse_duplicate_posting,
  unique_live_source_type, is_text,
}
use jewelry_backend.Gl.Post.{post_entry, post_checks, write_entry}
use jewelry_backend.Inventory.Supplier.{adjust_balance, owed, has_row, store_balance, key_eq}
use jewelry_backend.Postings.{
  ensure_period, resolve_account_id, account_or, find_live_entry, unless_posted, post_lines,
  has_key as has_system_key,
}
use jewelry_backend.Postings.Supplier.{
  post_supplier_purchase, lines_of_purchase, purchase_accounts, cash_side, cash_lines,
  stone_in_lines, gold_lines,
}
use jewelry_backend.Suppliers.{Shop, parse_karat, record_all, add_grams}
use jewelry_backend.Suppliers.Intake.{
  consume_lots, materialize_items, materialize_item, receive_gold,
}
use jewelry_backend.Suppliers.Purchases.{
  Caller, create_purchase, book_purchase, purchase_checks, check_mode, check_karats,
  check_grams_paid, owe, owe_gold, owe_all,
}
use jewelry_backend.Ap.Metal.{
  ApControl, verify_ap_control, all_lines, gl_metal, sub_metal, karats_with, karat_blocks,
  all_match,
}
use jewelry_backend.Ap.Tied.{IsTied, here, next, purchased, PostedReach-matches}
use jewelry_backend.Tests.Shop.{gl_digest, ledger_digest, start, context}
use jewelry_backend.Tests.Suppliers.{in_scale, opened, caller, purchase, shop_or}

-- The same purchase where posting is on.
abbrev poster : Caller
poster = record (caller "p1") { posting = some context }

abbrev posted_shop : Shop
posted_shop = shop_or (create_purchase gl_digest ledger_digest poster "s1" purchase opened)

posted_ok : create_purchase gl_digest ledger_digest poster "s1" purchase opened ≡ ok posted_shop
unfolding create_purchase book_purchase purchase_checks check_mode check_karats check_grams_paid owe
    owe_gold owe_all parse_karat record_all append_all add_grams consume_lots materialize_items
    materialize_item receive_gold adjust_balance owed has_row store_balance key_eq ◌+ℤ◌ ◌-ℤ◌
    post_supplier_purchase lines_of_purchase purchase_accounts cash_side cash_lines stone_in_lines
    gold_lines ◌*ℤ◌ half_even quantize quantize_quotient nearest xor resolve_account_id
    unless_posted post_lines ensure_period find_live_entry post_entry post_checks write_entry
    resolve_open_period resolve_denominations next_doc_no refuse_duplicate_posting validate_balanced
    money_errors metal_errors line_errors karats insert_sorted normalize_line_decimals
    unique_live_source_type
posted_ok = refl

abbrev metal_agrees : Option ApControl → Bool
metal_agrees none = false
metal_agrees (some c) = c.metal_matches

-- The purchase leaves the same grams in the metal account and in the balances.
metal_run : metal_agrees (verify_ap_control posted_shop.db posted_shop.balances) ≡ true
unfolding create_purchase book_purchase purchase_checks check_mode check_karats check_grams_paid owe
    owe_gold owe_all parse_karat record_all append_all add_grams consume_lots materialize_items
    materialize_item receive_gold adjust_balance owed has_row store_balance key_eq ◌+ℤ◌ ◌-ℤ◌
    post_supplier_purchase lines_of_purchase purchase_accounts cash_side cash_lines stone_in_lines
    gold_lines ◌*ℤ◌ half_even quantize quantize_quotient nearest xor resolve_account_id
    unless_posted post_lines ensure_period find_live_entry post_entry post_checks write_entry
    resolve_open_period resolve_denominations next_doc_no refuse_duplicate_posting validate_balanced
    money_errors metal_errors line_errors karats insert_sorted normalize_line_decimals
    unique_live_source_type verify_ap_control all_lines gl_metal sub_metal karats_with karat_blocks
    all_match
metal_run = refl

-- The key of each account is its system key.
abbrev OwnKey : Account → Type 0
OwnKey a = (k : String) → is_text k a.system_key ≡ true → a.id ≡ k

own : (j k : String) → str_eq j k ≡ true → j ≡ k
own j k = (eq_iff j k).0

own_keys : All OwnKey start.accounts
own_keys = (
  own "CASH",
  (
    own "SALES_REVENUE",
    (
      own "MAKING_CHARGE_REVENUE",
      (
        own "VAT_PAYABLE",
        (
          own "SALES_DISCOUNTS",
          (
            own "METAL_COGS",
            (
              own "METAL_INVENTORY",
              (
                own "METAL_AP",
                (
                  own "PRODUCT_INVENTORY",
                  (own "AP", (own "METAL_CLEARING", (own "ADJUSTMENT_EXPENSE", tt))),
                ),
              ),
            ),
          ),
        ),
      ),
    ),
  ),
)

opened-IsTied : IsTied gl_digest ledger_digest "AP" opened
unfolding resolve_account_id
opened-IsTied = record {
  named = refl;
  apart = λ key other found differs.
      subst (λ (x : String). str_eq x "AP" ≡ false) (sym (is_own key other found)) differs;
  metal_seeded = (_, refl);
  balance = refl;
}
  where
    same_id :
        (key other : String) (row : Option Account)
        → find (has_system_key key) start.accounts ≡ row
        → account_or key row ≡ ok other
        → other ≡ key
    same_id key other none e h = cc
    same_id key other (some a) e h =
        sym (ok-injective h)
        ∙ find-All OwnKey (has_system_key key) start.accounts own_keys e key
            (find-test (has_system_key key) start.accounts e)

    is_own : (key other : String) → resolve_account_id start key ≡ ok other → other ≡ key
    is_own key other h = same_id key other (find (has_system_key key) start.accounts) refl h

PostedReach-matches_example :
    (c : ApControl) × (verify_ap_control posted_shop.db posted_shop.balances ≡ some c)
    × (c.ap.matches ≡ true)
unfolding find_live_entry ◌-ℤ◌
PostedReach-matches_example =
    PostedReach-matches gl_digest ledger_digest "AP"
      (next here
        (purchased poster context "s1" purchase refl refl refl in_scale (omega arith) posted_ok))
      opened-IsTied

-- ===== src/Postings/Refund.antt =====
-- `post_order_refund` of app/core/gl_postings.py: a void or full refund reverses the entry of the
-- sale; a refund of an item posts the part of it that is refunded.
use Prim.Native.String.{◌++◌ as append}
use jewelry_backend.Common.{
  ℕ, zero, suc, Option, none, some, List, [], ◌∷◌, ◌++◌, String, not, if◌then◌else◌, Result, ok,
  err, ◌>>=◌,
}
use jewelry_backend.Common.Int.{ℤ, pos, ◌+ℤ◌, ◌-ℤ◌, ◌*ℤ◌, ltb_ℤ}
use jewelry_backend.Common.Dates.{decimal_text}
use jewelry_backend.Money.{Decimal, quantize, quantize_quotient}
use jewelry_backend.Audit.Ledger.{LedgerFields}
use jewelry_backend.Gl.Lines.{GlLine, q_money}
use jewelry_backend.Gl.Store.{Db, GlFields, Entry, Error, entry_id, find_reversal}
use jewelry_backend.Gl.Reverse.{reverse_entry}
use jewelry_backend.Postings.{
  ProductCost, Settings, karat_value, or_zero, ensure_period, resolve_account_id, debit_money,
  credit_money, debit_metal, credit_metal, lines_if, Context, post_lines, find_live_entry,
  when_unposted,
}
use jewelry_backend.Postings.Sale.{SoldItem, SoldOrder, cogs_cost_for_item}

-- What one event refunds: the item, the units, their value before VAT, the number of the event.
pub record Slice : Type 0 where
  pub item_id : String
  pub item : SoldItem
  pub refund_value : Decimal
  pub refund_qty : Option ℕ
  pub refund_seq : ℕ

-- `refund_qty or 1`
abbrev pub units_of : Option ℕ → ℤ
units_of none = pos 1
units_of (some zero) = pos 1
units_of (some (suc n)) = pos (suc n)

abbrev pub source_of_slice : Slice → String
source_of_slice s = append s.item_id (append ":" (decimal_text 1 s.refund_seq))

-- The product of two amounts has 16 decimals, hence the divisor.
abbrev pub vat_share : Settings → Slice → Decimal
vat_share settings s =
    quantize_quotient q_money (s.refund_value *ℤ settings.vat_percent) (pos 10_000_000_000)

abbrev pub making_share : Slice → Decimal
making_share s = quantize q_money (s.item.making_charge *ℤ units_of s.refund_qty)

abbrev pub discount_slice : SoldOrder → Slice → Decimal
discount_slice o s =
    if ltb_ℤ (pos 0) o.subtotal
    then quantize_quotient q_money (o.discount_amount *ℤ s.refund_value) o.subtotal
    else pos 0

abbrev pub sales_share : Slice → Decimal
sales_share s = quantize q_money (s.refund_value -ℤ making_share s)

abbrev pub cash_back : Settings → SoldOrder → Slice → Decimal
cash_back settings o s =
    quantize q_money (s.refund_value -ℤ discount_slice o s +ℤ vat_share settings s)

-- `_RefundItemView`: the item with the units of this event for its quantity.
abbrev pub refund_item_view : Slice → SoldItem
refund_item_view s = record (s.item) { quantity = units_of s.refund_qty }

pub record RefundAccounts : Type 0 where
  pub cash : String
  pub revenue : String
  pub making : String
  pub vat : String
  pub cogs : String
  pub inventory : String
  pub discount : String

unfoldable pub refund_accounts : Db → Result Error RefundAccounts
refund_accounts db = do
  cash_id ← resolve_account_id db "CASH"
  rev_id ← resolve_account_id db "SALES_REVENUE"
  making_id ← resolve_account_id db "MAKING_CHARGE_REVENUE"
  vat_id ← resolve_account_id db "VAT_PAYABLE"
  cogs_id ← resolve_account_id db "METAL_COGS"
  inv_id ← resolve_account_id db "METAL_INVENTORY"
  discount_id ← resolve_account_id db "SALES_DISCOUNTS"
  ok (record {
    cash = cash_id;
    revenue = rev_id;
    making = making_id;
    vat = vat_id;
    cogs = cogs_id;
    inventory = inv_id;
    discount = discount_id;
  })

unfoldable pub refund_lines :
    Settings → List ProductCost → RefundAccounts → SoldOrder → Slice → List GlLine
refund_lines settings products a o s =
    let making = making_share s in
    let discount = discount_slice o s in
    let grams = s.item.weight_grams *ℤ units_of s.refund_qty in
    let cost = cogs_cost_for_item products (refund_item_view s) in
    let k = karat_value s.item.karat in
    debit_money a.revenue (sales_share s) "refund revenue"
      ∷ debit_money a.vat (vat_share settings s) "refund VAT"
      ∷ lines_if (ltb_ℤ (pos 0) making) (debit_money a.making making "refund making" ∷ [])
    ++ (credit_money a.cash (cash_back settings o s) "refund cash out"
        ∷ debit_metal a.inventory cost grams k "metal back"
        ∷ credit_metal a.cogs cost grams k "reverse COGS"
        ∷ lines_if (ltb_ℤ (pos 0) discount)
            (credit_money a.discount discount "reverse discount" ∷ []))

abbrev pub stone_cost_of : Slice → Decimal
stone_cost_of s = or_zero s.item.stone_cost_at_sale *ℤ units_of s.refund_qty

unfoldable pub stone_back_lines : Db → Slice → Result Error (List GlLine)
stone_back_lines db s =
    let cost = quantize q_money (stone_cost_of s) in
    let pair = do
      stone_cogs_id ← resolve_account_id db "STONE_COGS"
      stone_inv_id ← resolve_account_id db "STONE_INVENTORY"
      ok (
          debit_money stone_inv_id cost "stone back"
          ∷ credit_money stone_cogs_id cost "reverse stone COGS"
          ∷ [])
    in if ltb_ℤ (pos 0) (stone_cost_of s) then pair else ok []

unfoldable pub lines_of_refund :
    Settings → List ProductCost → SoldOrder → Slice → Db → Result Error (List GlLine)
lines_of_refund settings products o s db = do
  a ← refund_accounts db
  stones ← stone_back_lines db s
  ok (refund_lines settings products a o s ++ stones)

-- The entry that `reverse_entry` posts, or its refusal.
abbrev pub reversed : Result Error (Entry × Db) → Result Error (Option Entry × Db)
reversed (ok (e, db)) = ok (some e, db)
reversed (err e) = err e

module _ (gl_digest : String → GlFields → String)
    (ledger_digest : String → LedgerFields → String) where
  unfoldable pub post_full_refund :
      Context → SoldOrder → Entry → Db → Result Error (Option Entry × Db)
  post_full_refund c o original db = reversed (
      reverse_entry gl_digest ledger_digest db
        (record {
          original_entry_id = entry_id original;
          actor_user_id = c.actor_user_id;
          entry_date = c.entry_date;
          memo = append "Void " o.order_number;
        })
        c.supply)

  unfoldable pub post_slice :
      Context → List ProductCost → SoldOrder → Slice → Db → Result Error (Option Entry × Db)
  post_slice c products o s db =
      when_unposted (find_live_entry db "ORDER_REFUND" (source_of_slice s))
        (lines_of_refund c.settings products o s db >>= λ lines.
          post_lines gl_digest ledger_digest c (append "Refund " (append o.order_number " line"))
            "ORDER_REFUND" (source_of_slice s) lines db)
        db

  abbrev pub post_part :
      Context
      → List ProductCost
      → SoldOrder
      → Option Slice
      → Entry
      → Db
      → Result Error (Option Entry × Db)
  post_part c products o none original db = post_full_refund c o original db
  post_part c products o (some s) original db = post_slice c products o s db

  abbrev pub post_unreversed :
      Context
      → List ProductCost
      → SoldOrder
      → Option Slice
      → Option Entry
      → Db
      → Result Error (Option Entry × Db)
  post_unreversed c products o part none db = ok (none, db)
  post_unreversed c products o part (some original) db =
      when_unposted (find_reversal db.entries (entry_id original))
        (post_part c products o part original (ensure_period c.period_id c.entry_date db)) db

  -- With no slice the whole sale is refunded.
  unfoldable pub post_order_refund :
      Context → List ProductCost → SoldOrder → Option Slice → Db → Result Error (Option Entry × Db)
  post_order_refund c products o part db =
      if not c.settings.accounting_auto_post_enabled
      then ok (none, db)
      else post_unreversed c products o part (find_live_entry db "ORDER" o.id) db

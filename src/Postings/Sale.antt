-- ===== src/Postings/Sale.antt =====
-- `post_sale` and `_cogs_cost_for_item` of app/core/gl_postings.py.
use Prim.Native.String.{◌++◌ as append}
use jewelry_backend.Common.{
  Bool, true, false, Option, none, some, List, [], ◌∷◌, ◌++◌, String, str_eq, if◌then◌else◌, Result,
  ok, ◌>>=◌, find,
}
use jewelry_backend.Common.Int.{ℤ, pos, ◌+ℤ◌, ◌-ℤ◌, ◌*ℤ◌, ltb_ℤ}
use jewelry_backend.Money.{Decimal, quantize}
use jewelry_backend.Pricing.{Karat}
use jewelry_backend.Audit.Ledger.{LedgerFields}
use jewelry_backend.Gl.Lines.{GlLine, q_money, sum_of}
use jewelry_backend.Gl.Store.{Db, GlFields, Entry, Error}
use jewelry_backend.Postings.{
  ProductCost, karat_value, or_zero, ensure_period, resolve_account_id, debit_money, credit_money,
  debit_metal, credit_metal, lines_if, gold_value, Context, unless_posted, post_lines,
}

pub data ItemKind : Type 0 where
  product coin ounce : ItemKind

abbrev pub is_product : ItemKind → Bool
is_product product = true
is_product _ = false

-- The columns of `order_items` that posting reads.
pub record SoldItem : Type 0 where
  pub item_kind : ItemKind
  pub product_id : Option String
  pub karat : Karat
  pub weight_grams : Decimal
  pub gold_rate_at_sale : Decimal
  pub making_charge : Decimal
  pub stone_cost_at_sale : Option Decimal
  pub quantity : ℤ

pub data PaymentMethod : Type 0 where
  cash card credit : PaymentMethod

pub record SoldOrder : Type 0 where
  pub id : String
  pub order_number : String
  pub payment_method : PaymentMethod
  pub subtotal : Decimal
  pub vat_amount : Decimal
  pub discount_amount : Decimal
  pub total_usd : Decimal
  pub items : List SoldItem

-- The tracked cost of the product, where the product is there and has one.
abbrev pub tracked_cost : Option ProductCost → Option Decimal
tracked_cost none = none
tracked_cost (some p) = p.cost_basis_usd

abbrev pub product_cost : List ProductCost → SoldItem → Option Decimal
product_cost products it = elim it.product_id [
  | none ↦ none
  | some id ↦
      if is_product it.item_kind then tracked_cost (find (λ p. str_eq p.id id) products) else none
]

-- `_cogs_cost_for_item`
abbrev pub cost_or_value : SoldItem → Option Decimal → Decimal
cost_or_value it (some cost) = quantize q_money (cost *ℤ it.quantity)
cost_or_value it none = gold_value it.gold_rate_at_sale it.weight_grams it.karat it.quantity

unfoldable pub cogs_cost_for_item : List ProductCost → SoldItem → Decimal
cogs_cost_for_item products it = cost_or_value it (product_cost products it)

-- Grams and cost of a karat.
pub record Cogs : Type 0 where
  pub karat : String
  pub grams : Decimal
  pub cost : Decimal

-- `agg = cogs.setdefault(k, ...)` and the two additions
unfoldable pub add_cogs : String → Decimal → Decimal → List Cogs → List Cogs
add_cogs k grams cost [] = record { karat = k; grams = grams; cost = cost } ∷ []
add_cogs k grams cost (c ∷ cogs) =
    let rest = add_cogs k grams cost cogs in
    if str_eq c.karat k
    then record { karat = k; grams = c.grams +ℤ grams; cost = c.cost +ℤ cost } ∷ cogs
    else c ∷ rest

unfoldable pub cogs_by_karat : List ProductCost → List SoldItem → List Cogs → List Cogs
cogs_by_karat products [] cogs = cogs
cogs_by_karat products (it ∷ items) cogs = cogs_by_karat products items (
    add_cogs (karat_value it.karat) (it.weight_grams *ℤ it.quantity)
      (cogs_cost_for_item products it) cogs)

unfoldable pub cogs_lines : String → String → List Cogs → List GlLine
cogs_lines cogs_id inv_id [] = []
cogs_lines cogs_id inv_id (c ∷ cogs) =
    debit_metal cogs_id c.cost c.grams c.karat "metal COGS"
    ∷ credit_metal inv_id c.cost c.grams c.karat "metal out"
    ∷ cogs_lines cogs_id inv_id cogs

abbrev pub cash_key : PaymentMethod → String
cash_key credit = "AR"
cash_key card = "CREDIT_CARD_CLEARING"
cash_key cash = "CASH"

abbrev pub making_revenue : SoldOrder → Decimal
making_revenue o = quantize q_money (sum_of (λ it. it.making_charge *ℤ it.quantity) o.items)

abbrev pub stone_cogs_total : SoldOrder → Decimal
stone_cogs_total o =
    quantize q_money (sum_of (λ it. or_zero it.stone_cost_at_sale *ℤ it.quantity) o.items)

-- The accounts of the lines, by their keys.
pub record SaleAccounts : Type 0 where
  pub cash : String
  pub revenue : String
  pub making : String
  pub vat : String
  pub discount : String
  pub cogs : String
  pub inventory : String

unfoldable pub sale_accounts : Db → PaymentMethod → Result Error SaleAccounts
sale_accounts db method = do
  cash_id ← resolve_account_id db (cash_key method)
  rev_id ← resolve_account_id db "SALES_REVENUE"
  making_id ← resolve_account_id db "MAKING_CHARGE_REVENUE"
  vat_id ← resolve_account_id db "VAT_PAYABLE"
  discount_id ← resolve_account_id db "SALES_DISCOUNTS"
  cogs_id ← resolve_account_id db "METAL_COGS"
  inv_id ← resolve_account_id db "METAL_INVENTORY"
  ok (record {
    cash = cash_id;
    revenue = rev_id;
    making = making_id;
    vat = vat_id;
    discount = discount_id;
    cogs = cogs_id;
    inventory = inv_id;
  })

-- The lines of money; revenue is gross, with the discount on its own line.
unfoldable pub sale_lines : SaleAccounts → SoldOrder → List GlLine
sale_lines a o =
    let making = making_revenue o in
    let discount = quantize q_money o.discount_amount in
    debit_money a.cash o.total_usd "sale cash"
      ∷ credit_money a.revenue (quantize q_money (o.subtotal -ℤ making)) "sale revenue"
      ∷ lines_if (ltb_ℤ (pos 0) making) (credit_money a.making making "making charge" ∷ [])
    ++ (lines_if (ltb_ℤ (pos 0) o.vat_amount) (credit_money a.vat o.vat_amount "output VAT" ∷ [])
        ++ lines_if (ltb_ℤ (pos 0) discount)
            (debit_money a.discount discount "discount allowed" ∷ []))

-- One aggregated pair where any line carries stone cost.
unfoldable pub stone_lines : Db → SoldOrder → Result Error (List GlLine)
stone_lines db o =
    let total = stone_cogs_total o in
    let pair = do
      stone_cogs_id ← resolve_account_id db "STONE_COGS"
      stone_inv_id ← resolve_account_id db "STONE_INVENTORY"
      ok (
          debit_money stone_cogs_id total "stone COGS"
          ∷ credit_money stone_inv_id total "stone out"
          ∷ [])
    in if ltb_ℤ (pos 0) total then pair else ok []

unfoldable pub lines_of_sale : List ProductCost → SoldOrder → Db → Result Error (List GlLine)
lines_of_sale products o db = do
  a ← sale_accounts db o.payment_method
  stones ← stone_lines db o
  ok (
      sale_lines a o
      ++ (cogs_lines a.cogs a.inventory (cogs_by_karat products o.items []) ++ stones))

module _ (gl_digest : String → GlFields → String)
    (ledger_digest : String → LedgerFields → String) where
  unfoldable pub post_sale :
      Context → List ProductCost → SoldOrder → Db → Result Error (Option Entry × Db)
  post_sale c products o db =
      let open_db = ensure_period c.period_id c.entry_date db in
      unless_posted c "ORDER" o.id db (
        lines_of_sale products o open_db >>= λ lines.
        post_lines gl_digest ledger_digest c (append "Sale " o.order_number) "ORDER" o.id lines
          open_db)

-- ===== src/Postings/Supplier.antt =====
-- `post_supplier_purchase` and `post_supplier_payment` of app/core/gl_postings.py.
use jewelry_backend.Common.{
  Option, none, some, List, [], ◌∷◌, ◌++◌, String, str_eq, if◌then◌else◌, Result, ok, ◌>>=◌, find,
}
use jewelry_backend.Common.Int.{ℤ, pos, ◌-ℤ◌, ◌*ℤ◌, ltb_ℤ, leb_ℤ, nonzero}
use jewelry_backend.Money.{Decimal, quantize, quantize_quotient}
use jewelry_backend.Audit.Ledger.{LedgerFields}
use jewelry_backend.Gl.Lines.{GlLine, q_money, sum_of}
use jewelry_backend.Gl.Store.{Db, GlFields, Entry, Error}
use jewelry_backend.Pricing.{Karat}
use jewelry_backend.Postings.{
  karat_value, or_zero, ensure_period, resolve_account_id, debit_money, credit_money, debit_metal,
  credit_metal, lines_if, Context, unless_posted, post_lines,
}

pub data PurchaseItemKind : Type 0 where
  product pure_gold other : PurchaseItemKind

-- The columns of `supplier_purchase_items` that posting reads, and the stone cost of its product
-- (none where there is no such product, or no such cost).
pub record PurchaseItem : Type 0 where
  pub item_kind : PurchaseItemKind
  pub karat : Option Karat
  pub unit_cost_usd : Option Decimal
  pub quantity : Option ℤ
  pub product_stone_cost_usd : Option Decimal

-- Grams by karat, as the JSON columns keep them.
pub record Grams : Type 0 where
  pub karat : String
  pub grams : Decimal

pub record Purchase : Type 0 where
  pub id : String
  pub total_cash_due : Decimal
  pub cash_paid_at_creation : Decimal
  pub total_grams_due_by_karat : List Grams
  pub grams_paid_at_creation_by_karat : List Grams
  pub items : List PurchaseItem

-- `it.quantity or 1`
abbrev pub or_one : Option ℤ → ℤ
or_one none = pos 1
or_one (some n) = if nonzero n then n else pos 1

abbrev pub stone_cost : PurchaseItem → Decimal
stone_cost it = elim it.item_kind [
  | product ↦ or_zero it.product_stone_cost_usd *ℤ or_one it.quantity
  | _ ↦ pos 0
]

-- The cost of a line of pure gold of the karat.
abbrev pub cost_of_karat : String → Option Karat → Option Decimal → Decimal
cost_of_karat k none cost = pos 0
cost_of_karat k (some j) cost = if str_eq (karat_value j) k then or_zero cost else pos 0

abbrev pub gold_cost : String → PurchaseItem → Decimal
gold_cost k it = elim it.item_kind [
  | pure_gold ↦ cost_of_karat k it.karat it.unit_cost_usd
  | _ ↦ pos 0
]

-- `d.get(k, ZERO)`
abbrev pub grams_of : Option Grams → Decimal
grams_of none = pos 0
grams_of (some g) = g.grams

abbrev pub grams_at : String → List Grams → Decimal
grams_at k gs = grams_of (find (λ g. str_eq g.karat k) gs)

pub record PurchaseAccounts : Type 0 where
  pub inventory : String
  pub metal_ap : String
  pub product_inventory : String
  pub ap : String
  pub cash : String

unfoldable pub purchase_accounts : Db → Result Error PurchaseAccounts
purchase_accounts db = do
  inv_id ← resolve_account_id db "METAL_INVENTORY"
  metal_ap_id ← resolve_account_id db "METAL_AP"
  prod_inv_id ← resolve_account_id db "PRODUCT_INVENTORY"
  ap_id ← resolve_account_id db "AP"
  cash_id ← resolve_account_id db "CASH"
  ok (record {
    inventory = inv_id;
    metal_ap = metal_ap_id;
    product_inventory = prod_inv_id;
    ap = ap_id;
    cash = cash_id;
  })

-- The stone portion of the cost, or zero where it exceeds the whole (a data error).
abbrev pub stone_slice : Purchase → Decimal
stone_slice p =
    let slice = quantize q_money (sum_of stone_cost p.items) in
    if ltb_ℤ p.total_cash_due slice then pos 0 else slice

abbrev pub product_slice : Purchase → Decimal
product_slice p = quantize q_money (p.total_cash_due -ℤ stone_slice p)

abbrev pub cash_owed : Purchase → Decimal
cash_owed p = quantize q_money (p.total_cash_due -ℤ p.cash_paid_at_creation)

-- The cash side, net of what was paid at creation; `stone` is the lines of the stone inventory.
unfoldable pub cash_lines : PurchaseAccounts → Purchase → List GlLine → List GlLine
cash_lines a p stone =
    let paid = quantize q_money p.cash_paid_at_creation in
    lines_if (ltb_ℤ (pos 0) (product_slice p))
      (debit_money a.product_inventory (product_slice p) "product purchase" ∷ [])
    ++ (stone
        ++ (lines_if (ltb_ℤ (pos 0) (cash_owed p))
              (credit_money a.ap (cash_owed p) "AP (net owed)" ∷ [])
            ++ lines_if (ltb_ℤ (pos 0) p.cash_paid_at_creation)
                (credit_money a.cash paid "paid at creation" ∷ [])))

unfoldable pub stone_in_lines : Db → Decimal → Result Error (List GlLine)
stone_in_lines db slice =
    let lines = resolve_account_id db "STONE_INVENTORY" >>= λ id.
    ok (debit_money id slice "stone inventory in" ∷ []) in
    if ltb_ℤ (pos 0) slice then lines else ok []

unfoldable pub cash_side : Db → PurchaseAccounts → Purchase → Result Error (List GlLine)
cash_side db a p =
    let lines = stone_in_lines db (stone_slice p) >>= λ stone. ok (cash_lines a p stone) in
    if ltb_ℤ (pos 0) p.total_cash_due then lines else ok []

-- The grams of a karat that stay owed, and their part of what the gold of that karat cost.
abbrev pub net_grams : Purchase → Grams → Decimal
net_grams p g = g.grams -ℤ grams_at g.karat p.grams_paid_at_creation_by_karat

abbrev pub net_cost : Purchase → Grams → Decimal
net_cost p g =
    let gc = sum_of (gold_cost g.karat) p.items in
    if ltb_ℤ (pos 0) g.grams then quantize_quotient q_money (gc *ℤ net_grams p g) g.grams else pos 0

-- The gold side, net per karat.
unfoldable pub gold_lines : PurchaseAccounts → Purchase → List Grams → List GlLine
gold_lines a p [] = []
gold_lines a p (g ∷ gs) =
    let rest = gold_lines a p gs in
    if leb_ℤ (net_grams p g) (pos 0)
    then rest
    else debit_metal a.inventory (net_cost p g) (net_grams p g) g.karat "gold purchase (net)"
      ∷ credit_metal a.metal_ap (net_cost p g) (net_grams p g) g.karat "metal AP (net owed)"
      ∷ rest

unfoldable pub lines_of_purchase : Purchase → Db → Result Error (List GlLine)
lines_of_purchase p db = do
  a ← purchase_accounts db
  cash ← cash_side db a p
  ok (cash ++ gold_lines a p p.total_grams_due_by_karat)

-- `unit` and, of gold, `karat`
pub data PaymentUnit : Type 0 where
  cash : PaymentUnit
  gold : Karat → PaymentUnit

pub record Payment : Type 0 where
  pub id : String
  pub unit : PaymentUnit
  pub amount : Decimal

unfoldable pub lines_of_payment : Payment → Db → Result Error (List GlLine)
lines_of_payment p db =
    let amt = quantize q_money p.amount in
    elim p.unit [
      | cash ↦ do
        ap_id ← resolve_account_id db "AP"
        cash_id ← resolve_account_id db "CASH"
        ok (debit_money ap_id amt "pay AP" ∷ credit_money cash_id amt "cash out" ∷ [])
      | gold k ↦ do
        metal_ap_id ← resolve_account_id db "METAL_AP"
        inv_id ← resolve_account_id db "METAL_INVENTORY"
        ok (
            debit_metal metal_ap_id (pos 0) p.amount (karat_value k) "pay metal AP"
            ∷ credit_metal inv_id (pos 0) p.amount (karat_value k) "metal out"
            ∷ [])
    ]

module _ (gl_digest : String → GlFields → String)
    (ledger_digest : String → LedgerFields → String) where
  -- `if not lines: return None`
  abbrev pub post_if_any :
      Context → String → String → String → List GlLine → Db → Result Error (Option Entry × Db)
  post_if_any c memo source_type source_id [] db = ok (none, db)
  post_if_any c memo source_type source_id (ln ∷ lines) db =
      post_lines gl_digest ledger_digest c memo source_type source_id (ln ∷ lines) db

  unfoldable pub post_supplier_purchase : Context → Purchase → Db → Result Error (Option Entry × Db)
  post_supplier_purchase c p db =
      let open_db = ensure_period c.period_id c.entry_date db in
      unless_posted c "SUPPLIER_PURCHASE" p.id db (
        lines_of_purchase p open_db >>= λ lines.
        post_if_any c "Supplier purchase" "SUPPLIER_PURCHASE" p.id lines open_db)

  unfoldable pub post_supplier_payment : Context → Payment → Db → Result Error (Option Entry × Db)
  post_supplier_payment c p db =
      let open_db = ensure_period c.period_id c.entry_date db in
      unless_posted c "SUPPLIER_PAYMENT" p.id db (
        lines_of_payment p open_db >>= λ lines.
        post_lines gl_digest ledger_digest c "Supplier payment" "SUPPLIER_PAYMENT" p.id lines
          open_db)

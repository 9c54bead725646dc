-- ===== src/Postings/Metal.antt =====
-- `post_buyback`, `post_melt` and `post_adjustment` of app/core/gl_postings.py: metal that comes,
-- changes its karat, or is lost.
use jewelry_backend.Common.{
  Bool, ◌&&◌, Option, none, some, List, [], ◌∷◌, String, str_eq, if◌then◌else◌, Result, ok, ◌>>=◌,
}
use jewelry_backend.Common.Int.{pos, eq_ℤ, nonzero}
use jewelry_backend.Money.{Decimal, quantize}
use jewelry_backend.Audit.Ledger.{LedgerFields}
use jewelry_backend.Gl.Lines.{GlLine, q_money}
use jewelry_backend.Gl.Store.{Db, GlFields, Entry, Error}
use jewelry_backend.Pricing.{Karat}
use jewelry_backend.Postings.{
  karat_value, ensure_period, resolve_account_id, debit_money, credit_money, debit_metal,
  credit_metal, Context, unless_posted, post_lines,
}

pub record Buyback : Type 0 where
  pub id : String
  pub karat : Option Karat
  pub weight_grams : Decimal
  pub buy_price_usd : Decimal

unfoldable pub lines_of_buyback : String → Buyback → Db → Result Error (List GlLine)
lines_of_buyback k b db =
    let grams = b.weight_grams in
    let cost = quantize q_money b.buy_price_usd in
    do
      inv_id ← resolve_account_id db "METAL_INVENTORY"
      cash_id ← resolve_account_id db "CASH"
      clearing_id ← resolve_account_id db "METAL_CLEARING"
      ok (
          debit_metal inv_id cost grams k "buyback in"
          ∷ credit_money cash_id cost "buyback cash out"
          ∷ credit_metal clearing_id (pos 0) grams k "metal acquired (clearing)"
          ∷ [])

pub record Melt : Type 0 where
  pub id : String
  pub from_karat : Karat
  pub from_grams : Decimal
  pub to_karat : Karat
  pub to_grams : Decimal
  pub cost_usd : Decimal

unfoldable pub lines_of_melt : Melt → Db → Result Error (List GlLine)
lines_of_melt m db =
    let fk = karat_value m.from_karat in
    let tk = karat_value m.to_karat in
    let cost = quantize q_money m.cost_usd in
    do
      inv_id ← resolve_account_id db "METAL_INVENTORY"
      clearing_id ← resolve_account_id db "METAL_CLEARING"
      ok (
          credit_metal inv_id cost m.from_grams fk "melt consume"
          ∷ debit_metal clearing_id (pos 0) m.from_grams fk "melt clearing A"
          ∷ debit_metal inv_id cost m.to_grams tk "melt result"
          ∷ credit_metal clearing_id (pos 0) m.to_grams tk "melt clearing B"
          ∷ [])

-- Same karat and same weight
abbrev pub unchanged : Melt → Bool
unchanged m =
    str_eq (karat_value m.from_karat) (karat_value m.to_karat) && eq_ℤ m.from_grams m.to_grams

pub record Loss : Type 0 where
  pub id : String
  pub karat : Option Karat
  pub grams : Decimal
  pub cost_usd : Decimal

unfoldable pub lines_of_loss : String → Loss → Db → Result Error (List GlLine)
lines_of_loss k adj db =
    let cost = quantize q_money adj.cost_usd in
    do
      exp_id ← resolve_account_id db "ADJUSTMENT_EXPENSE"
      inv_id ← resolve_account_id db "METAL_INVENTORY"
      clearing_id ← resolve_account_id db "METAL_CLEARING"
      ok (
          debit_money exp_id cost "inventory loss"
          ∷ credit_metal inv_id cost adj.grams k "metal written off"
          ∷ debit_metal clearing_id (pos 0) adj.grams k "metal loss (clearing)"
          ∷ [])

module _ (gl_digest : String → GlFields → String)
    (ledger_digest : String → LedgerFields → String) where
  -- Nothing of metal to post: no karat, or no grams.
  abbrev pub when_metal :
      Option Karat
      → Decimal
      → Db
      → (String → Result Error (Option Entry × Db))
      → Result Error (Option Entry × Db)
  when_metal none grams db post = ok (none, db)
  when_metal (some k) grams db post = if nonzero grams then post (karat_value k) else ok (none, db)

  unfoldable pub post_buyback : Context → Buyback → Db → Result Error (Option Entry × Db)
  post_buyback c b db =
      let open_db = ensure_period c.period_id c.entry_date db in
      unless_posted c "BUYBACK" b.id db (
        when_metal b.karat b.weight_grams open_db λ k. lines_of_buyback k b open_db >>= λ lines.
        post_lines gl_digest ledger_digest c "Walk-in buyback" "BUYBACK" b.id lines open_db)

  unfoldable pub post_melt : Context → Melt → Db → Result Error (Option Entry × Db)
  post_melt c m db =
      let open_db = ensure_period c.period_id c.entry_date db in
      let posted = lines_of_melt m open_db >>= λ lines.
      post_lines gl_digest ledger_digest c "Melt / refining" "MELT" m.id lines open_db in
      unless_posted c "MELT" m.id db (if unchanged m then ok (none, db) else posted)

  unfoldable pub post_adjustment : Context → Loss → Db → Result Error (Option Entry × Db)
  post_adjustment c adj db =
      let open_db = ensure_period c.period_id c.entry_date db in
      unless_posted c "ADJUSTMENT" adj.id db (
        when_metal adj.karat adj.grams open_db λ k. lines_of_loss k adj open_db >>= λ lines.
        post_lines gl_digest ledger_digest c "Inventory adjustment" "ADJUSTMENT" adj.id lines
          open_db)

-- ===== src/Suppliers/Scale.antt =====
-- Amounts that the columns of suppliers, purchases and payments hold as they are, and that the
-- balances stay such amounts.
use jewelry_backend.Common.{
  ◌≡◌, refl, false, ℕ, suc, List, [], ◌∷◌, String, str_eq, ok, not, Bool-cases, inl, inr,
  bind_inversion, ok-injective, All, raise_if, find,
}
use mathlib.Core.Path.{subst}
use jewelry_backend.Common.Int.{pos, ◌-ℤ◌, ltb_ℤ}
use jewelry_backend.Money.{Decimal}
use jewelry_backend.Audit.Ledger.{LedgerFields}
use jewelry_backend.Audit.Events.{Event}
use jewelry_backend.Gl.Cents.{IsCents}
use jewelry_backend.Gl.Thousandths.{
  IsThousandths, add-IsThousandths, sub-IsThousandths, cents-IsThousandths,
}
use jewelry_backend.Inventory.Lot.{Stock, find_lot, consume_from_lot}
use jewelry_backend.Inventory.Supplier.{Balance, Key, adjust_balance}
use jewelry_backend.Inventory.Supplier.Owed.{InThousandths, adjust_balance_moves}
use jewelry_backend.Postings.{karat_value}
use jewelry_backend.Postings.Supplier.{Grams, grams_at, Purchase}
use jewelry_backend.Suppliers.{
  lift, add_grams, parse_karat, balance_refused, lot_refused, karat_differs,
}
use jewelry_backend.Suppliers.Intake.{GoldPayment, Draw, request_of, require_lot, consume_lots}
use jewelry_backend.Suppliers.Purchases.{
  PurchaseRequest, cash_key, gold_key, owe, owe_gold, owe_all,
}
use jewelry_backend.Suppliers.Owed.{lift-ok}

abbrev pub WholeGrams : List Grams → Type 0
WholeGrams gs = All (λ g. IsThousandths g.grams) gs

-- Cash in cents, as the columns of a purchase keep it, and grams in thousandths.
pub record InScale (q : PurchaseRequest) : Type 0 where
  pub cash_due : IsCents q.total_cash_due
  pub cash_paid : IsCents q.cash_paid_at_creation
  pub grams_due : WholeGrams q.total_grams_due_by_karat
  pub gold_paid : All (λ gp. IsThousandths gp.grams) q.gold_payments_at_creation

add_grams-WholeGrams :
    (k : String) (grams : Decimal) (gs : List Grams)
    → IsThousandths grams
    → WholeGrams gs
    → WholeGrams (add_grams k grams gs)
unfolding add_grams
add_grams-WholeGrams k grams [] h all = (h, tt)
add_grams-WholeGrams k grams (g ∷ gs) h all = elim (Bool-cases (str_eq g.karat k)) [
  | inl this ↦ rw this (add-IsThousandths g.grams grams all.0 h, all.1)
  | inr other ↦ rw other (all.0, add_grams-WholeGrams k grams gs h all.1)
]

grams_at-IsThousandths :
    (k : String) (gs : List Grams) → WholeGrams gs → IsThousandths (grams_at k gs)
grams_at-IsThousandths k [] h = refl
grams_at-IsThousandths k (g ∷ gs) h = elim (Bool-cases (str_eq g.karat k)) [
  | inl this ↦ rw (this, find) h.0
  | inr other ↦ rw (other, find) (grams_at-IsThousandths k gs h.1)
]

pub consume_lots-WholeGrams :
    (digest : String → LedgerFields → String) (d : Draw) (n : ℕ) (payments : List GoldPayment)
    (total : List Grams) (stock : Stock) {drawn : List Grams × Stock}
    → All (λ gp. IsThousandths gp.grams) payments
    → WholeGrams total
    → consume_lots digest d n payments total stock ≡ ok drawn
    → WholeGrams drawn.0
unfolding consume_lots
consume_lots-WholeGrams digest d n [] total stock each all h =
    subst (λ (x : List Grams × Stock). WholeGrams x.0) (ok-injective h) all
consume_lots-WholeGrams digest d n (gp ∷ payments) total stock each all h =
    let (karat, parsed, h1) = bind_inversion (parse_karat gp.karat) _ h in
    let (lot, found, h2) =
      bind_inversion (require_lot gp.lot_id (find_lot stock.lots gp.lot_id)) _ h1 in
    let (_, same, h3) =
      bind_inversion
        (raise_if (not (str_eq (karat_value lot.karat) (karat_value karat)))
          (karat_differs gp.lot_id))
        _ h2 in
    let (consumed, took, h4) =
      bind_inversion
        (lift lot_refused (consume_from_lot digest stock (request_of d gp) (d.supply n))) _ h3 in
    consume_lots-WholeGrams digest d (suc n) payments _ (consumed.1) each.1
      (add_grams-WholeGrams (karat_value karat) gp.grams total each.0 all) h4

pub adjusted-InThousandths :
    (rows : List Balance) (k : Key) (delta : Decimal) {moved : Decimal × Decimal × List Balance}
    → IsThousandths delta
    → adjust_balance rows k delta false ≡ ok moved
    → InThousandths rows
    → InThousandths moved.2
adjusted-InThousandths rows k delta {moved} step h all =
    let (before, after, moves, strict, kept) =
      adjust_balance_moves rows moved.2 k delta moved.0 moved.1 false all step h in
    kept

owe-InThousandths :
    (id : String) (k : Key) (delta : Decimal) (s : List Balance × List Event)
    {s' : List Balance × List Event}
    → IsThousandths delta
    → owe id k delta s ≡ ok s'
    → InThousandths s.0
    → InThousandths s'.0
unfolding owe
owe-InThousandths id k delta (rows, events) {s'} step h all =
    elim (Bool-cases (ltb_ℤ (pos 0) delta)) [
      | inl more ↦
          let (moved, found, same) =
            bind_inversion (lift balance_refused (adjust_balance rows k delta false)) _
              (rw more at h) in
          subst (λ (x : List Balance × List Event). InThousandths x.0) (ok-injective same)
            (adjusted-InThousandths rows k delta step (lift-ok balance_refused _ found) all)
      | inr none ↦
          subst (λ (x : List Balance × List Event). InThousandths x.0) (ok-injective (rw none at h))
            all
    ]

owe_gold-InThousandths :
    (id supplier_id : String) (paid due : List Grams) (s : List Balance × List Event)
    {s' : List Balance × List Event}
    → WholeGrams paid
    → WholeGrams due
    → owe_gold id supplier_id paid due s ≡ ok s'
    → InThousandths s.0
    → InThousandths s'.0
unfolding owe_gold
owe_gold-InThousandths id supplier_id paid [] s p d h all =
    subst (λ (x : List Balance × List Event). InThousandths x.0) (ok-injective h) all
owe_gold-InThousandths id supplier_id paid (g ∷ due) s p d h all =
    let k = gold_key supplier_id g.karat in
    let delta = g.grams -ℤ grams_at g.karat paid in
    let (next, first, rest) = bind_inversion (owe id k delta s) _ h in
    owe_gold-InThousandths id supplier_id paid due next p d.1 rest (
      owe-InThousandths id k delta s
        (sub-IsThousandths g.grams _ d.0 (grams_at-IsThousandths g.karat paid p)) first all)

-- What a purchase leaves owed, of cash in cents and grams in thousandths, keeps the balances such.
pub owe_all-InThousandths :
    (p : Purchase) (supplier_id : String) (rows : List Balance) {s' : List Balance × List Event}
    → IsCents p.total_cash_due
    → IsCents p.cash_paid_at_creation
    → WholeGrams p.grams_paid_at_creation_by_karat
    → WholeGrams p.total_grams_due_by_karat
    → owe_all p supplier_id rows ≡ ok s'
    → InThousandths rows
    → InThousandths s'.0
unfolding owe_all
owe_all-InThousandths p supplier_id rows due paid gold grams h all =
    let cash = p.total_cash_due -ℤ p.cash_paid_at_creation in
    let (next, first, rest) =
      bind_inversion (owe p.id (cash_key supplier_id) cash (rows, [])) _ h in
    owe_gold-InThousandths p.id supplier_id p.grams_paid_at_creation_by_karat
      p.total_grams_due_by_karat next gold grams rest
      (owe-InThousandths p.id (cash_key supplier_id) cash (rows, [])
        (sub-IsThousandths _ _ (cents-IsThousandths p.total_cash_due due)
          (cents-IsThousandths p.cash_paid_at_creation paid))
        first all)

-- ===== src/Ap/Control.antt =====
-- The control account of suppliers: the cash block of `verify_ap_control` in app/core/ap.py, and how
-- the handlers move the total of the cash balances.
use jewelry_backend.Common.{
  ◌≡◌, sym, ap, ◌∙◌, Bool, true, false, Option, none, some, List, [], ◌∷◌, String, find, Bool-cases,
  inl, inr, ok, bind_inversion, ok-injective,
}
use jewelry_backend.Common.Int.{pos, ◌+ℤ◌, ◌-ℤ◌, ltb_ℤ, eq_ℤ, int_laws, +ℤ_assoc}
use jewelry_backend.Money.{Decimal, quantize}
use jewelry_backend.Audit.Events.{Event}
use jewelry_backend.Gl.Lines.{q_money, sum_of}
use jewelry_backend.Gl.Store.{Account, Db}
use jewelry_backend.Gl.Post.Written.{ledger_credit}
use jewelry_backend.Inventory.Supplier.{
  Balance, Key, DebtUnit, cash_unit, gold_unit, owed, store_balance, adjust_balance, has_key,
  key_eq, key_of,
}
use jewelry_backend.Inventory.Supplier.Owed.{adjust_fits, key_eq_iff}
use jewelry_backend.Postings.{has_key as has_system_key}
use jewelry_backend.Postings.Supplier.{Grams, grams_at}
use jewelry_backend.Suppliers.{SupplierPurchase, lift, balance_refused}
use jewelry_backend.Suppliers.Purchases.{owe, owe_gold, owe_all, cash_key, gold_key}
use jewelry_backend.Suppliers.Owed.{positive, lift-ok}
use jewelry_backend.Ap.{net_due}

abbrev pub cash_in : DebtUnit → Decimal → Decimal
cash_in cash_unit d = d
cash_in gold_unit d = pos 0

abbrev pub cash_balance : Balance → Decimal
cash_balance row = cash_in row.unit row.balance

abbrev pub cash_owed_in_all : List Balance → Decimal
cash_owed_in_all = sum_of cash_balance

pub record ApBlock : Type 0 where
  pub gl : Decimal
  pub subledger : Decimal
  pub matches : Bool

-- None where the account is not seeded, where `scalar_one` raises.
abbrev pub block_of : Db → List Balance → Option Account → Option ApBlock
block_of db balances none = none
block_of db balances (some a) =
    let gl_ap = quantize q_money (ledger_credit a.id db.entries) in
    let sub_ap = quantize q_money (cash_owed_in_all balances) in
    some (record { gl = gl_ap; subledger = sub_ap; matches = eq_ℤ gl_ap sub_ap })

abbrev pub ap_account : Db → Option Account
ap_account db = find (has_system_key "AP") db.accounts

-- What a change of one balance adds to the total.
replaced : (v b rest : Decimal) → v +ℤ rest ≡ (b +ℤ rest) +ℤ (v -ℤ b)
replaced v b rest = omega int_laws

nothing_more : (d : Decimal) → d ≡ d +ℤ pos 0
nothing_more d = omega int_laws

total-store_balance :
    (k : Key) (v : Decimal) (rows : List Balance)
    → cash_owed_in_all (store_balance k v rows)
      ≡ cash_owed_in_all rows +ℤ cash_in k.unit (v -ℤ owed k rows)
unfolding store_balance owed
total-store_balance k v [] = new k.unit
  where
    new : (u : DebtUnit) → cash_in u v +ℤ pos 0 ≡ pos 0 +ℤ cash_in u (v -ℤ pos 0)
    new cash_unit = omega int_laws
    new gold_unit = omega int_laws
total-store_balance k v (row ∷ rows) =
    let rest = total-store_balance k v rows in
    elim (Bool-cases (has_key k row)) [
      | inl this ↦ rw this (changed row.unit k.unit (unit_is this))
      | inr other ↦
          rw other (
            ap (λ (x : Decimal). cash_balance row +ℤ x) rest
            ∙ sym (+ℤ_assoc (cash_balance row) _ _))
    ]
  where
    unit_is : key_eq (key_of row) k ≡ true → row.unit ≡ k.unit
    unit_is this = ap (λ (x : Key). x.unit) ((key_eq_iff (key_of row) k).0 this)

    changed :
        (u w : DebtUnit)
        → u ≡ w
        → cash_in u v +ℤ cash_owed_in_all rows
          ≡ (cash_in u row.balance +ℤ cash_owed_in_all rows) +ℤ cash_in w (v -ℤ row.balance)
    changed cash_unit cash_unit e = replaced v row.balance (cash_owed_in_all rows)
    changed gold_unit gold_unit e = nothing_more _
    changed cash_unit gold_unit e = cc
    changed gold_unit cash_unit e = cc

pub total-adjusted :
    (k : Key) (delta : Decimal) (rows : List Balance) {moved : Decimal × Decimal × List Balance}
    → adjust_balance rows k delta false ≡ ok moved
    → cash_owed_in_all moved.2 ≡ cash_owed_in_all rows +ℤ cash_in k.unit delta
total-adjusted k delta rows {moved} h =
    let (before, after, rows_are, strict) =
      adjust_fits rows moved.2 k delta moved.0 moved.1 false h in
    ap cash_owed_in_all rows_are
    ∙ (total-store_balance k (owed k rows +ℤ delta) rows
        ∙ ap (λ (x : Decimal). cash_owed_in_all rows +ℤ cash_in k.unit x)
            (gained (owed k rows) delta))
  where
    gained : (o d : Decimal) → (o +ℤ d) -ℤ o ≡ d
    gained o d = omega int_laws

total-owe :
    (id : String) (k : Key) (delta : Decimal) (s : List Balance × List Event)
    {s' : List Balance × List Event}
    → owe id k delta s ≡ ok s'
    → cash_owed_in_all s'.0 ≡ cash_owed_in_all s.0 +ℤ cash_in k.unit (positive delta)
unfolding owe
total-owe id k delta (rows, events) {s'} h = elim (Bool-cases (ltb_ℤ (pos 0) delta)) [
  | inl more ↦
      let (moved, found, same) =
        bind_inversion (lift balance_refused (adjust_balance rows k delta false)) _
          (rw more at h) in
      rw (more, sym (ap (λ (x : List Balance × List Event). x.0) (ok-injective same)))
        (total-adjusted k delta rows (lift-ok balance_refused _ found))
  | inr less ↦
      rw (less, sym (ap (λ (x : List Balance × List Event). x.0) (ok-injective (rw less at h))))
        (zero k.unit)
]
  where
    zero : (u : DebtUnit) → cash_owed_in_all rows ≡ cash_owed_in_all rows +ℤ cash_in u (pos 0)
    zero cash_unit = nothing_more _
    zero gold_unit = nothing_more _

total-owe_gold :
    (id supplier_id : String) (paid due : List Grams) (s : List Balance × List Event)
    {s' : List Balance × List Event}
    → owe_gold id supplier_id paid due s ≡ ok s'
    → cash_owed_in_all s'.0 ≡ cash_owed_in_all s.0
unfolding owe_gold
total-owe_gold id supplier_id paid [] s h =
    ap (λ (x : List Balance × List Event). cash_owed_in_all x.0) (sym (ok-injective h))
total-owe_gold id supplier_id paid (g ∷ due) s h =
    let k = gold_key supplier_id g.karat in
    let delta = g.grams -ℤ grams_at g.karat paid in
    let (next, first, rest) = bind_inversion (owe id k delta s) _ h in
    total-owe_gold id supplier_id paid due next rest
    ∙ (total-owe id k delta s first ∙ sym (nothing_more (cash_owed_in_all s.0)))

-- A purchase adds its cash that was not paid to the total.
pub total-owe_all :
    (p : SupplierPurchase) (rows : List Balance) {s' : List Balance × List Event}
    → owe_all p.document p.supplier_id rows ≡ ok s'
    → cash_owed_in_all s'.0 ≡ cash_owed_in_all rows +ℤ positive (net_due p.document)
unfolding owe_all
total-owe_all p rows h =
    let d = p.document in
    let (next, first, rest) =
      bind_inversion (owe d.id (cash_key p.supplier_id) (net_due d) (rows, [])) _ h in
    total-owe_gold d.id p.supplier_id d.grams_paid_at_creation_by_karat d.total_grams_due_by_karat
      next rest
    ∙ total-owe d.id (cash_key p.supplier_id) (net_due d) (rows, []) first

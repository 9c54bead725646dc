-- ===== src/Suppliers/Standing.antt =====
-- The standing of suppliers, active or not: what `update_supplier` and `delete_supplier` change.
use jewelry_backend.Common.{
  arith, ◌≡◌, refl, sym, ap, ◌∙◌, Bool, true, false, ◌&&◌, Option, none, some, List, [], ◌∷◌, ◌++◌,
  String, str_eq, eq_iff, eq_refl, ok, bind_inversion, if◌then◌else◌, Bool-cases, inl, inr, find,
  ◌⊎◌, find-test, find-replace_self, find-replace_other,
}
use jewelry_backend.Audit.Ledger.{LedgerFields}
use jewelry_backend.Audit.Events.{Recorder}
use jewelry_backend.Inventory.Supplier.{Balance, get_supplier_balances}
use jewelry_backend.Suppliers.{
  Supplier, Shop, find_supplier, require_supplier, refuse_outstanding, store_supplier,
  update_supplier, delete_supplier, asks_inactive, or_else,
}
use jewelry_backend.Suppliers.Ending.{record_all-SameBooks}
use jewelry_backend.Suppliers.Steps.{require_supplier-ok}

-- A supplier's row is found changed, or as before.
pub find-store_supplier :
    (id : String) (new : Supplier) (rows : List Supplier) {old s : Supplier}
    → find_supplier new.id rows ≡ some old
    → find_supplier id (store_supplier new rows) ≡ some s
    → ((new.id ≡ id) × (s ≡ new)) ⊎ (find_supplier id rows ≡ some s)
find-store_supplier id new rows {old} {s} found h = elim (Bool-cases (str_eq new.id id)) [
  | inl this ↦
      let same = (eq_iff new.id id).0 this in
      inl (
        same,
        some_eq (
            sym h
            ∙ (ap (λ (x : String). find_supplier x (store_supplier new rows)) (sym same)
                ∙ find-replace_self (λ (x : Supplier). str_eq x.id new.id) new rows (eq_refl new.id)
                    found)),
      )
  | inr other ↦ inr (
      sym (
        find-replace_other (λ (x : Supplier). str_eq x.id new.id) (λ (x : Supplier). str_eq x.id id)
          new rows other (λ x e. apart x other e))
      ∙ h)
]
  where
    some_eq : {a b : Supplier} → some a ≡ some b → a ≡ b
    some_eq e = cc

    apart :
        (x : Supplier)
        → str_eq new.id id ≡ false
        → str_eq x.id new.id ≡ true
        → str_eq x.id id ≡ false
    apart x other e = rw ((eq_iff x.id new.id).0 e) other

-- A supplier who is added is found last.
pub find-snoc :
    (id : String) (rows : List Supplier) (new : Supplier) {s : Supplier}
    → find_supplier id (rows ++ new ∷ []) ≡ some s
    → (s ≡ new) ⊎ (find_supplier id rows ≡ some s)
find-snoc id [] new {s} h = inl (ground (arith))
find-snoc id (row ∷ rows) new {s} h = elim (Bool-cases (str_eq row.id id)) [
  | inl this ↦ inr (rw (this, find) (rw (this, find) at h))
  | inr other ↦ rw (other, find) (find-snoc id rows new (rw (other, find) at h))
]

-- A supplier's row that gives way to a new one; it is made inactive only where nothing is owed.
pub record Renewed (shop shop' : Shop) (old new : Supplier) : Type 0 where
  pub found : find_supplier new.id shop.suppliers ≡ some old
  pub suppliers : shop'.suppliers ≡ store_supplier new shop.suppliers
  pub balances : shop'.balances ≡ shop.balances
  pub purchases : shop'.purchases ≡ shop.purchases
  pub payments : shop'.payments ≡ shop.payments
  pub settled :
      new.is_active ≡ false
      → (old.is_active ≡ false) ⊎ (get_supplier_balances shop.balances new.id ≡ [])

refuse_outstanding-ok :
    (rows : List Balance) {u : Unit {0}} → refuse_outstanding rows ≡ ok u → rows ≡ []
refuse_outstanding-ok [] h = refl
refuse_outstanding-ok (row ∷ rows) h = cc

guard-ok :
    (is_active : Option Bool) (was : Bool) (rows : List Balance) {u : Unit {0}}
    → (if asks_inactive is_active && was then refuse_outstanding rows else ok tt) ≡ ok u
    → or_else is_active was ≡ false
    → (was ≡ false) ⊎ (rows ≡ [])
guard-ok none was rows h e = inl e
guard-ok (some true) was rows h e = cc
guard-ok (some false) true rows h e = inr (refuse_outstanding-ok rows h)
guard-ok (some false) false rows h e = inl refl

module _ (digest : String → LedgerFields → String) (r : Recorder) where
  pub update_supplier-Renewed :
      (id : String) (name : Option String) (is_active : Option Bool) (shop : Shop) {shop' : Shop}
      → update_supplier digest r id name is_active shop ≡ ok shop'
      → (old : Supplier) × (new : Supplier) × Renewed shop shop' old new
  unfolding update_supplier
  update_supplier-Renewed id name is_active shop {shop'} h =
      let (s, is_there, h1) =
        bind_inversion (require_supplier (find_supplier id shop.suppliers)) _ h in
      let found = require_supplier-ok _ is_there in
      let same =
        (eq_iff s.id id).0 (find-test (λ (x : Supplier). str_eq x.id id) shop.suppliers found) in
      let (_, fits, h2) =
        bind_inversion
          (if asks_inactive is_active && s.is_active
            then refuse_outstanding (get_supplier_balances shop.balances id)
            else ok tt)
          _ h1 in
      let (suppliers, balances, purchases, payments) = record_all-SameBooks digest r _ _ h2 in
      (
        s,
        record s { name = or_else name s.name; is_active = or_else is_active s.is_active },
        record {
          found = rw same found;
          suppliers = suppliers;
          balances = balances;
          purchases = purchases;
          payments = payments;
          settled = λ e. rw same (guard-ok is_active s.is_active _ fits e);
        },
      )

  pub delete_supplier-Renewed :
      (id : String) (shop : Shop) {shop' : Shop}
      → delete_supplier digest r id shop ≡ ok shop'
      → (old : Supplier) × (new : Supplier) × Renewed shop shop' old new
  unfolding delete_supplier
  delete_supplier-Renewed id shop {shop'} h =
      let (s, is_there, h1) =
        bind_inversion (require_supplier (find_supplier id shop.suppliers)) _ h in
      let found = require_supplier-ok _ is_there in
      let same =
        (eq_iff s.id id).0 (find-test (λ (x : Supplier). str_eq x.id id) shop.suppliers found) in
      let (_, fits, h2) =
        bind_inversion (refuse_outstanding (get_supplier_balances shop.balances id)) _ h1 in
      let (suppliers, balances, purchases, payments) = record_all-SameBooks digest r _ _ h2 in
      (
        s,
        record s { is_active = false },
        record {
          found = rw same found;
          suppliers = suppliers;
          balances = balances;
          purchases = purchases;
          payments = payments;
          settled = λ e. inr (rw same (refuse_outstanding-ok _ fits));
        },
      )

-- ===== src/Suppliers/Owed.antt =====
-- What each supplier is owed by the history of purchases and payments, and that the handlers'
-- changes of balances add up to it.
use jewelry_backend.Common.{
  ◌≡◌, refl, sym, ap, ◌∙◌, Bool, true, false, List, [], ◌∷◌, String, arith, if◌then◌else◌, ok,
  Bool-cases, inl, inr, bind_inversion, ok-injective, Result, err,
}
use jewelry_backend.Common.Int.{pos, ◌+ℤ◌, ◌-ℤ◌, ltb_ℤ, int_laws, +ℤ_assoc}
use jewelry_backend.Money.{Decimal}
use jewelry_backend.Audit.Events.{Event}
use jewelry_backend.Gl.Lines.{sum_of}
use jewelry_backend.Inventory.Supplier.{Balance, Key, key_eq, owed, adjust_balance}
use jewelry_backend.Inventory.Supplier.Owed.{key_eq_iff, adjust_moves, NoneNegative}
use jewelry_backend.Postings.Supplier.{Grams, grams_at}
use jewelry_backend.Suppliers.{SupplierPurchase, SupplierPayment, lift, Error, balance_refused}
use jewelry_backend.Suppliers.Purchases.{cash_key, gold_key, owe, owe_gold, owe_all}
use jewelry_backend.Suppliers.Payments.{paid_key}

-- An amount of one key, as seen from another.
abbrev pub at_key : Key → Key → Decimal → Decimal
at_key j k amount = if key_eq k j then amount else pos 0

abbrev pub positive : Decimal → Decimal
positive d = if ltb_ℤ (pos 0) d then d else pos 0

-- What a purchase leaves owed: the cash and the grams of each karat that were due and not paid.
abbrev pub charged : Key → SupplierPurchase → Decimal
charged j p =
    at_key j (cash_key p.supplier_id)
      (positive (p.document.total_cash_due -ℤ p.document.cash_paid_at_creation))
    +ℤ sum_of
        (λ (g : Grams).
          at_key j (gold_key p.supplier_id g.karat)
            (positive (g.grams -ℤ grams_at g.karat p.document.grams_paid_at_creation_by_karat)))
        p.document.total_grams_due_by_karat

abbrev pub repaid : Key → SupplierPayment → Decimal
repaid j p = at_key j (paid_key p.supplier_id p.document.unit) p.document.amount

moved_by :
    (b : Bool) (o delta : Decimal)
    → (if b then o +ℤ delta else o) ≡ o +ℤ (if b then delta else pos 0)
moved_by true o delta = refl
moved_by false o delta = omega int_laws

-- An adjustment that succeeds, read at any key.
adjusted :
    (rows : List Balance) (k : Key) (delta : Decimal) {moved : Decimal × Decimal × List Balance}
    → adjust_balance rows k delta false ≡ ok moved
    → ((j : Key) → owed j moved.2 ≡ owed j rows +ℤ at_key j k delta)
      × (NoneNegative rows → NoneNegative moved.2)
adjusted rows k delta {moved} h =
    let (before_is, after_is, all, strict) =
      adjust_moves rows moved.2 k delta moved.0 moved.1 false h in
    (
      λ j.
          all j
          ∙ (ap (λ (x : Decimal). if key_eq k j then x else owed j rows)
                (after_is ∙ ap (λ (x : Decimal). x +ℤ delta) before_is)
              ∙ at_other j),
      strict refl,
    )
  where
    at_other :
        (j : Key)
        → (if key_eq k j then owed k rows +ℤ delta else owed j rows)
          ≡ owed j rows +ℤ at_key j k delta
    at_other j = ground (arith, key_eq_iff k j, moved_by (key_eq k j) (owed j rows) delta)

pub lift-ok :
    {E A : Type 0} (wrap : E → Error) (r : Result E A) {a : A} → lift wrap r ≡ ok a → r ≡ ok a
lift-ok wrap (ok b) h = ap ok (ok-injective h)
lift-ok wrap (err raised) h = cc

-- What adds `amount j` to the balance of every key `j`.
abbrev pub Adds : (Key → Decimal) → List Balance → List Balance → Type 0
Adds amount rows rows' =
    ((j : Key) → owed j rows' ≡ owed j rows +ℤ amount j) × (NoneNegative rows → NoneNegative rows')

Adds-nothing : (k : Key) (rows : List Balance) → Adds (λ j. at_key j k (pos 0)) rows rows
Adds-nothing k rows = (λ j. nothing (key_eq k j) (owed j rows), λ h. h)
  where
    nothing : (b : Bool) (o : Decimal) → o ≡ o +ℤ (if b then pos 0 else pos 0)
    nothing true o = omega int_laws
    nothing false o = omega int_laws

Adds-then :
    (f g : Key → Decimal) (rows rows' rows'' : List Balance)
    → Adds f rows rows'
    → Adds g rows' rows''
    → Adds (λ j. f j +ℤ g j) rows rows''
Adds-then f g rows rows' rows'' a b = (
  λ j. b.0 j ∙ (ap (λ (x : Decimal). x +ℤ g j) (a.0 j) ∙ +ℤ_assoc (owed j rows) (f j) (g j)),
  λ h. b.1 (a.1 h),
)

owe-ok :
    (id : String) (k : Key) (delta : Decimal) (s : List Balance × List Event)
    {s' : List Balance × List Event}
    → owe id k delta s ≡ ok s'
    → Adds (λ j. at_key j k (positive delta)) s.0 s'.0
unfolding owe
owe-ok id k delta (rows, events) {s'} h = elim (Bool-cases (ltb_ℤ (pos 0) delta)) [
  | inl more ↦
      let (moved, found, same) =
        bind_inversion (lift balance_refused (adjust_balance rows k delta false)) _
          (rw more at h) in
      rw (more, sym (ap (λ (x : List Balance × List Event). x.0) (ok-injective same)))
        (adjusted rows k delta (lift-ok balance_refused _ found))
  | inr none ↦
      rw (none, sym (ap (λ (x : List Balance × List Event). x.0) (ok-injective (rw none at h))))
        (Adds-nothing k rows)
]

-- The loop over the karats that are due.
abbrev pub gold_charged : Key → String → List Grams → List Grams → Decimal
gold_charged j supplier_id paid due =
    sum_of
      (λ (g : Grams).
        at_key j (gold_key supplier_id g.karat) (positive (g.grams -ℤ grams_at g.karat paid)))
      due

owe_gold-ok :
    (id supplier_id : String) (paid due : List Grams) (s : List Balance × List Event)
    {s' : List Balance × List Event}
    → owe_gold id supplier_id paid due s ≡ ok s'
    → Adds (λ j. gold_charged j supplier_id paid due) s.0 s'.0
unfolding owe_gold
owe_gold-ok id supplier_id paid [] s {s'} h =
    rw (sym (ap (λ (x : List Balance × List Event). x.0) (ok-injective h)))
      (λ j. omega int_laws, λ k. k)
owe_gold-ok id supplier_id paid (g ∷ due) s {s'} h =
    let k = gold_key supplier_id g.karat in
    let delta = g.grams -ℤ grams_at g.karat paid in
    let (next, first, rest) = bind_inversion (owe id k delta s) _ h in
    Adds-then _ _ s.0 next.0 s'.0 (owe-ok id k delta s first)
      (owe_gold-ok id supplier_id paid due next rest)

-- A purchase that is booked adds what it leaves owed, to each balance.
pub owe_all-ok :
    (p : SupplierPurchase) (rows : List Balance) {s' : List Balance × List Event}
    → owe_all p.document p.supplier_id rows ≡ ok s'
    → Adds (λ j. charged j p) rows s'.0
unfolding owe_all
owe_all-ok p rows {s'} h =
    let d = p.document in
    let cash = d.total_cash_due -ℤ d.cash_paid_at_creation in
    let (next, first, rest) =
      bind_inversion (owe d.id (cash_key p.supplier_id) cash (rows, [])) _ h in
    Adds-then _ _ rows next.0 s'.0 (owe-ok d.id (cash_key p.supplier_id) cash (rows, []) first) (
      owe_gold-ok d.id p.supplier_id d.grams_paid_at_creation_by_karat d.total_grams_due_by_karat
        next rest)

negated :
    (b : Bool) (d : Decimal) → (if b then pos 0 -ℤ d else pos 0) ≡ pos 0 -ℤ (if b then d else pos 0)
negated true d = refl
negated false d = omega int_laws

-- A payment takes its amount from the balance of its key.
pub pay-ok :
    (p : SupplierPayment) (rows : List Balance) {moved : Decimal × Decimal × List Balance}
    → adjust_balance rows
        (paid_key p.supplier_id p.document.unit)
        (pos 0 -ℤ p.document.amount)
        false
      ≡ ok moved
    → Adds (λ j. pos 0 -ℤ repaid j p) rows moved.2
pay-ok p rows {moved} h =
    let k = paid_key p.supplier_id p.document.unit in
    let (all, strict) = adjusted rows k (pos 0 -ℤ p.document.amount) h in
    (
      λ j. all j ∙ ap (λ (x : Decimal). owed j rows +ℤ x) (negated (key_eq k j) p.document.amount),
      strict,
    )

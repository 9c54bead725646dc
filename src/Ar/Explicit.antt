-- ===== src/Ar/Explicit.antt =====
-- The loop over the allocations that a request names: app/core/ar.py.
use mathlib.Core.Path.{subst}
use jewelry_backend.Common.{
  ◌≡◌, refl, ap, sym, ◌∙◌, Bool, List, [], ◌∷◌, inl, inr, arith, All, Bool-cases, String, str_eq,
  find, some, none, Option, ok, bind_inversion, ok-injective,
}
use jewelry_backend.Common.Int.{pos, negsuc, ◌≤ℤ◌, ◌+ℤ◌, +ℤ_assoc, int_laws, ltb_ℤ}
use jewelry_backend.Money.{Decimal, quantize}
use jewelry_backend.Gl.Lines.{q_money, sum_of}
use jewelry_backend.Gl.Cents.{quantize-IsCents}
use jewelry_backend.Ar.{
  Invoice, Named, ReceiptAllocation, Applied, owed, apply_to_invoice, take_from, record_applied,
  apply_named, apply_one, store_invoice,
}
use jewelry_backend.Ar.Fifo.{IsPayable, apply_to_invoice_lem, after-IsPayable, min_cases}

found_head : (row inv : Invoice) → ◌≡◌ {A = Option Invoice} (some row) (some inv) → row ≡ inv
found_head row inv e = cc

find-All :
    (P : Invoice → Type 0) (test : Invoice → Bool) (rows : List Invoice) {inv : Invoice}
    → All P rows
    → find test rows ≡ some inv
    → P inv
find-All P test [] h e = cc
find-All P test (row ∷ rows) {inv} h e = elim (Bool-cases (test row)) [
  | inl passes ↦
      let same : row ≡ inv = found_head row inv (rw (passes, find) at e) in subst P same h.0
  | inr fails ↦ find-All P test rows h.1 (rw (fails, find) at e)
]

store_invoice-All :
    (P : Invoice → Type 0) (inv : Invoice) (rows : List Invoice)
    → P inv
    → All P rows
    → All P (store_invoice inv rows)
unfolding store_invoice
store_invoice-All P inv [] p h = tt
store_invoice-All P inv (row ∷ rows) p h = (
  elim (Bool-cases (str_eq row.id inv.id)) [ inl same ↦ rw same p | inr other ↦ rw other h.0 ],
  store_invoice-All P inv rows p h.1,
)

nonneg_lem : (a : Decimal) → pos 0 ≤ℤ a → pos 0 ≤ℤ quantize q_money a
unfolding quantize
nonneg_lem (pos n) h = omega arith
nonneg_lem (negsuc n) h = absurd (omega arith)

-- Taking and recording go together, whatever the sign of what was applied.
one_pass :
    (id : String) (remaining a left : Decimal) (later : List ReceiptAllocation)
    → sum_of (λ x. x.amount) later +ℤ left ≡ take_from remaining a
    → sum_of (λ x. x.amount) (record_applied id a later) +ℤ left ≡ remaining
one_pass id remaining a left later h = elim (Bool-cases (ltb_ℤ (pos 0) a)) [
  | inl taken ↦ rw taken (
      +ℤ_assoc a (sum_of (λ x. x.amount) later) left
      ∙ ap (λ x. a +ℤ x) (rw taken at h)
      ∙ omega int_laws)
  | inr nothing ↦ rw nothing (rw nothing at h)
]

apply_one-ok :
    (row : Option Invoice) (amount : Decimal) (step : Decimal × Invoice)
    → apply_one row amount ≡ ok step
    → (inv : Invoice) × (row ≡ some inv) × (step ≡ apply_to_invoice inv amount)
apply_one-ok none amount step h = cc
apply_one-ok (some inv) amount step h = (inv, refl, sym (ok-injective h))

applied-IsPayable :
    (inv : Invoice) (named : Decimal)
    → IsPayable inv
    → pos 0 ≤ℤ named
    → let (a, after) = apply_to_invoice inv (quantize q_money named) in
      (pos 0 ≤ℤ a) × (a ≤ℤ owed inv) × IsPayable after
applied-IsPayable inv named payable positive =
    let amount = quantize q_money named in
    let (a, after) = apply_to_invoice inv amount in
    let (a_is, a_positive, a_cents, same_total, now_paid) =
      apply_to_invoice_lem inv amount payable (quantize-IsCents named)
        (nonneg_lem named positive) in
    let fits : a ≤ℤ owed inv = rw a_is (min_cases amount (owed inv)).1 in
    (a_positive, fits, after-IsPayable inv after a payable a_cents fits same_total now_paid)

-- The loop over the allocations of a request splits the amount of the receipt exactly into what it
-- records and what it leaves, which may be less than nothing, and pays no invoice beyond its total,
-- when the amounts named are not negative and no invoice starts beyond its total.
pub apply_named_conserves :
    (remaining : Decimal) (named : List Named) (rows : List Invoice) (r : Applied)
    → All (λ al. pos 0 ≤ℤ al.amount) named
    → All IsPayable rows
    → apply_named remaining named rows ≡ ok r
    → (sum_of (λ a. a.amount) r.allocations +ℤ r.remaining ≡ remaining) × All IsPayable r.invoices
unfolding apply_named
apply_named_conserves remaining [] rows r positive payable h =
    subst
      (λ (x : Applied).
        (sum_of (λ a. a.amount) x.allocations +ℤ x.remaining ≡ remaining)
        × All IsPayable x.invoices)
      (ok-injective h) (omega int_laws, payable)
apply_named_conserves remaining (al ∷ named) rows r positive payable h =
    let amount = quantize q_money al.amount in
    let (step, applied_to, h1) =
      bind_inversion (apply_one (find (λ inv. str_eq inv.id al.invoice_id) rows) amount) _ h in
    let (inv, found, step_is) =
      apply_one-ok (find (λ inv. str_eq inv.id al.invoice_id) rows) amount step applied_to in
    let (a, after) = step in
    let inv_payable = find-All IsPayable _ rows payable found in
    let (_, fits, after_payable) =
      subst (λ s. (pos 0 ≤ℤ s.0) × (s.0 ≤ℤ owed inv) × IsPayable s.1) (sym step_is)
        (applied-IsPayable inv al.amount inv_payable positive.0) in
    let (later, recursive, h2) =
      bind_inversion (apply_named (take_from remaining a) named (store_invoice after rows)) _ h1 in
    let (sums, kept) =
      apply_named_conserves (take_from remaining a) named (store_invoice after rows) later
        positive.1 (store_invoice-All IsPayable after rows after_payable payable) recursive in
    subst
      (λ (x : Applied).
        (sum_of (λ a. a.amount) x.allocations +ℤ x.remaining ≡ remaining)
        × All IsPayable x.invoices)
      (ok-injective h2) (one_pass after.id remaining a later.remaining later.allocations sums, kept)

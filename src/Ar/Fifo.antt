-- ===== src/Ar/Fifo.antt =====
-- The loop over the open invoices of a receipt: app/core/ar.py.
use mathlib.Core.Path.{subst}
use jewelry_backend.Common.{
  ◌≡◌, refl, String, ap, ap₂, sym, ◌∙◌, true, false, List, [], ◌∷◌, ◌⊎◌, inl, inr, arith, All,
  Bool-cases,
}
use jewelry_backend.Common.Int.{pos, ◌≤ℤ◌, ◌+ℤ◌, ◌-ℤ◌, +ℤ_assoc, int_laws, ltb_ℤ, leb_ℤ}
use jewelry_backend.Money.{Decimal}
use jewelry_backend.Gl.Lines.{sum_of}
use jewelry_backend.Gl.Cents.{IsCents, quantize_cents, add-IsCents, sub-IsCents}
use jewelry_backend.Ar.{
  Invoice, ReceiptAllocation, Applied, owed, min_ℤ, apply_to_invoice, take_from, record_applied,
  apply_fifo,
}

-- An invoice that may be paid: in whole cents, not paid beyond its total.
abbrev pub IsPayable : Invoice → Type 0
IsPayable inv = IsCents inv.total × IsCents inv.amount_paid × (inv.amount_paid ≤ℤ inv.total)

abbrev IsSettled : Invoice → Type 0
IsSettled inv = inv.amount_paid ≡ inv.total

-- Each invoice is settled, or those after it are untouched.
abbrev pub InOrder : List Invoice → List Invoice → Type 0
InOrder (before ∷ befores) (after ∷ afters) =
    (IsSettled after × InOrder befores afters) ⊎ (afters ≡ befores)
InOrder [] [] = Unit
InOrder _ _ = ⊥

-- What the loop owes to the receipt and to the invoices.
abbrev pub IsFifo : Decimal → List Invoice → Applied → Type 0
IsFifo amount invoices r =
    (sum_of (λ a. a.amount) r.allocations +ℤ r.remaining ≡ amount)
    × (pos 0 ≤ℤ r.remaining)
    × (sum_of (λ inv. inv.amount_paid) r.invoices
        ≡ sum_of (λ inv. inv.amount_paid) invoices +ℤ sum_of (λ a. a.amount) r.allocations)
    × All IsPayable r.invoices
    × ((r.remaining ≡ pos 0) ⊎ All IsSettled r.invoices)
    × InOrder invoices r.invoices

pub min_cases :
    (a b : Decimal) → (min_ℤ a b ≤ℤ a) × (min_ℤ a b ≤ℤ b) × ((min_ℤ a b ≡ a) ⊎ (min_ℤ a b ≡ b))
min_cases a b = elim (Bool-cases (leb_ℤ a b)) [
  | inl left ↦ rw left (omega arith, ground arith, inl refl)
  | inr right ↦ rw right (ground arith, omega arith, inr refl)
]

take_from_lem : (r a : Decimal) → pos 0 ≤ℤ a → take_from r a ≡ r -ℤ a
unfolding ◌-ℤ◌
take_from_lem r a h = ground arith

nothing_added : (a b : Decimal) → pos 0 ≤ℤ a → ltb_ℤ (pos 0) a ≡ false → b ≡ a +ℤ b
unfolding ◌+ℤ◌
nothing_added a b h k = ground arith

record_applied_lem :
    (id : String) (a : Decimal) (later : List ReceiptAllocation)
    → pos 0 ≤ℤ a
    → sum_of (λ x. x.amount) (record_applied id a later) ≡ a +ℤ sum_of (λ x. x.amount) later
record_applied_lem id a later h = elim (Bool-cases (ltb_ℤ (pos 0) a)) [
  | inl some_applied ↦ rw some_applied refl
  | inr none_applied ↦ rw none_applied (nothing_added a _ h none_applied)
]

pub min-IsCents : (a b : Decimal) → IsCents a → IsCents b → IsCents (min_ℤ a b)
min-IsCents a b h k = elim (min_cases a b).2 [
  | inl left ↦ subst IsCents (sym left) h
  | inr right ↦ subst IsCents (sym right) k
]

-- What an apply takes, and what it leaves paid.
pub apply_to_invoice_lem :
    (inv : Invoice) (amount : Decimal)
    → IsPayable inv
    → IsCents amount
    → pos 0 ≤ℤ amount
    → let (applied, after) = apply_to_invoice inv amount in
      (applied ≡ min_ℤ amount (owed inv))
      × (pos 0 ≤ℤ applied)
      × IsCents applied
      × (after.total ≡ inv.total)
      × (after.amount_paid ≡ inv.amount_paid +ℤ applied)
unfolding apply_to_invoice
apply_to_invoice_lem inv amount (total_cents, paid_cents, fits) cents positive =
    let applied_cents =
      min-IsCents amount (owed inv) cents
        (sub-IsCents inv.total inv.amount_paid total_cents paid_cents) in
    (
      refl,
      elim (min_cases amount (owed inv)).2 [
        | inl left ↦ rw left positive
        | inr right ↦ rw right (omega int_laws)
      ],
      applied_cents,
      refl,
      quantize_cents _
          (add-IsCents inv.amount_paid (min_ℤ amount (owed inv)) paid_cents applied_cents),
    )

-- Nothing is left to apply.
apply_fifo_done :
    (remaining : Decimal) (invoices : List Invoice)
    → leb_ℤ remaining (pos 0) ≡ true
    → ((apply_fifo remaining invoices).invoices ≡ invoices)
      × ((apply_fifo remaining invoices).remaining ≡ remaining)
unfolding apply_fifo
apply_fifo_done remaining [] h = (refl, refl)
apply_fifo_done remaining (inv ∷ invoices) h = rw h (refl, refl)

InOrder-refl : (invoices : List Invoice) → InOrder invoices invoices
InOrder-refl [] = tt
InOrder-refl (inv ∷ invoices) = inr refl

-- An invoice that took what it could: it is settled, or the receipt is used up.
settled_or_used :
    (inv : Invoice) (amount a : Decimal)
    → a ≡ min_ℤ amount (owed inv)
    → (inv.amount_paid +ℤ a ≡ inv.total) ⊎ (amount -ℤ a ≡ pos 0)
settled_or_used inv amount a a_is = elim (min_cases amount (owed inv)).2 [
  | inl left ↦ inr (rw (a_is, left) (omega int_laws))
  | inr right ↦ inl (rw (a_is, right) (omega int_laws))
]

carried_on :
    (amount a applied left : Decimal) {written next : Decimal}
    → applied +ℤ left ≡ next
    → next ≡ amount -ℤ a
    → written ≡ a +ℤ applied
    → written +ℤ left ≡ amount
carried_on amount a applied left sums next_is written_is =
    ap (λ x. x +ℤ left) written_is
    ∙ +ℤ_assoc a applied left
    ∙ ap (λ x. a +ℤ x) (sums ∙ next_is)
    ∙ omega int_laws

paid_on :
    (paid a paid_before paid_after applied : Decimal) {now written : Decimal}
    → paid_after ≡ paid_before +ℤ applied
    → now ≡ paid +ℤ a
    → written ≡ a +ℤ applied
    → now +ℤ paid_after ≡ paid +ℤ paid_before +ℤ written
paid_on paid a paid_before paid_after applied sums now_is written_is =
    ap₂ (λ x y. x +ℤ y) now_is sums
    ∙ omega int_laws
    ∙ ap (λ x. paid +ℤ paid_before +ℤ x) (sym written_is)

fits_on : (a paid total : Decimal) → a ≤ℤ total -ℤ paid → paid +ℤ a ≤ℤ total
fits_on a paid total h = omega int_laws

pub after-IsPayable :
    (inv after : Invoice) (a : Decimal)
    → IsPayable inv
    → IsCents a
    → a ≤ℤ owed inv
    → after.total ≡ inv.total
    → after.amount_paid ≡ inv.amount_paid +ℤ a
    → IsPayable after
after-IsPayable inv after a payable cents fits same_total now_paid = (
  subst IsCents (sym same_total) payable.0,
  subst IsCents (sym now_paid) (add-IsCents inv.amount_paid a payable.1 cents),
  rw (same_total, now_paid) (fits_on a inv.amount_paid inv.total fits),
)

IsFifo-step :
    (remaining : Decimal) (inv : Invoice) (invoices : List Invoice)
    → IsPayable inv
    → IsCents remaining
    → pos 0 ≤ℤ remaining
    → let (a, after) = apply_to_invoice inv remaining in
      let later = apply_fifo (take_from remaining a) invoices in
      IsFifo (take_from remaining a) invoices later
      → IsFifo remaining (inv ∷ invoices) (record {
        invoices = after ∷ later.invoices;
        allocations = record_applied inv.id a later.allocations;
        remaining = later.remaining;
      })
IsFifo-step remaining inv invoices payable cents positive (sums, kept, paid, rest, used, order) =
    let (a, after) = apply_to_invoice inv remaining in
    let later = apply_fifo (take_from remaining a) invoices in
    let (a_is, a_positive, a_cents, same_total, now_paid) =
      apply_to_invoice_lem inv remaining payable cents positive in
    let left = take_from_lem remaining a a_positive in
    let recorded = record_applied_lem inv.id a later.allocations a_positive in
    let (a_fits, a_owed, _) = min_cases remaining (owed inv) in
    let outcome = settled_or_used inv remaining a a_is in
    let done = λ (none_left : remaining -ℤ a ≡ pos 0).
      apply_fifo_done (take_from remaining a) invoices (rw (left, none_left) refl) in
    (
      carried_on remaining a _ _ sums left recorded,
      kept,
      paid_on inv.amount_paid a _ _ _ paid now_paid recorded,
      (after-IsPayable inv after a payable a_cents (rw a_is a_owed) same_total now_paid, rest),
      elim outcome [
        | inl settled ↦ elim used [
          | inl nothing ↦ inl nothing
          | inr all ↦ inr (now_paid ∙ settled ∙ sym same_total, all)
        ]
        | inr none_left ↦ inl ((done none_left).1 ∙ left ∙ none_left)
      ],
      elim outcome [
        | inl settled ↦ inl (now_paid ∙ settled ∙ sym same_total, order)
        | inr none_left ↦ inr (done none_left).0
      ],
    )

none_below : (amount a : Decimal) → a ≤ℤ amount → pos 0 ≤ℤ amount -ℤ a
none_below amount a h = omega int_laws

-- The loop over open invoices splits a receipt exactly into allocations and a remainder that is not
-- negative, pays no invoice beyond its total, settles the invoices in their order and leaves a
-- remainder only when all are settled; amounts are in whole cents, the receipt is not negative and
-- no invoice starts beyond its total.
pub apply_fifo-IsFifo :
    (remaining : Decimal) (invoices : List Invoice)
    → IsCents remaining
    → pos 0 ≤ℤ remaining
    → All IsPayable invoices
    → IsFifo remaining invoices (apply_fifo remaining invoices)
unfolding apply_fifo
apply_fifo-IsFifo remaining [] cents positive h =
    (omega int_laws, positive, omega int_laws, tt, inr tt, tt)
apply_fifo-IsFifo remaining (inv ∷ invoices) cents positive h =
    let (a, after) = apply_to_invoice inv remaining in
    let (a_is, a_positive, a_cents, _, _) = apply_to_invoice_lem inv remaining h.0 cents positive in
    let left = take_from_lem remaining a a_positive in
    let fits = (min_cases remaining (owed inv)).0 in
    elim (Bool-cases (leb_ℤ remaining (pos 0))) [
      | inl done ↦
          rw done (omega int_laws, positive, omega int_laws, h, inl (ground arith), inr refl)
      | inr more ↦ rw more (
          IsFifo-step remaining inv invoices h.0 cents positive (
            apply_fifo-IsFifo (take_from remaining a) invoices
              (subst IsCents (sym left) (sub-IsCents remaining a cents a_cents))
              (rw (left, a_is) (none_below remaining (min_ℤ remaining (owed inv)) fits)) h.1))
    ]

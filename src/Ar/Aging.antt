-- ===== src/Ar/Aging.antt =====
-- The ageing of open invoices: `_bucket` and the totals of `compute_aging` in app/core/ar.py. The
-- number of days between two dates is a function of Python's `date`, an argument here.
use jewelry_backend.Common.{◌≡◌, ap, ◌∙◌, List, [], ◌∷◌, Bool-cases, inl, inr, if◌then◌else◌}
use jewelry_backend.Common.Int.{ℤ, pos, ◌+ℤ◌, int_laws, leb_ℤ}
use jewelry_backend.Common.Dates.{Date}
use jewelry_backend.Money.{Decimal, quantize}
use jewelry_backend.Gl.Lines.{q_money, sum_of}
use jewelry_backend.Ar.{Invoice, owed}

pub data Bucket : Type 0 where
  to_30 to_60 to_90 over_90 : Bucket

abbrev pub bucket : ℤ → Bucket
bucket days =
    if leb_ℤ days (pos 30)
    then to_30
    else if leb_ℤ days (pos 60)
    then to_60
    else if leb_ℤ days (pos 90)
    then to_90
    else over_90

pub record Totals : Type 0 where
  pub days_30 : Decimal
  pub days_60 : Decimal
  pub days_90 : Decimal
  pub days_over : Decimal

abbrev pub no_totals : Totals
no_totals = record { days_30 = pos 0; days_60 = pos 0; days_90 = pos 0; days_over = pos 0 }

-- `totals[b] += owed`
abbrev pub add_to : Bucket → Decimal → Totals → Totals
add_to to_30 a t = record t { days_30 = t.days_30 +ℤ a }
add_to to_60 a t = record t { days_60 = t.days_60 +ℤ a }
add_to to_90 a t = record t { days_90 = t.days_90 +ℤ a }
add_to over_90 a t = record t { days_over = t.days_over +ℤ a }

abbrev pub sum_of_totals : Totals → Decimal
sum_of_totals t = t.days_30 +ℤ t.days_60 +ℤ t.days_90 +ℤ t.days_over

module _ (days_between : Date → Date → ℤ) where
  -- One pass of the loop; a settled invoice is passed over.
  unfoldable pub add_invoice : Date → Invoice → Totals → Totals
  add_invoice as_of inv totals =
      if leb_ℤ (owed inv) (pos 0)
      then totals
      else add_to (bucket (days_between as_of inv.invoice_date)) (owed inv) totals

  -- The loop over the invoices that the query selects.
  unfoldable pub aging_totals : Date → List Invoice → Totals → Totals
  aging_totals as_of [] totals = totals
  aging_totals as_of (inv ∷ invoices) totals =
      aging_totals as_of invoices (add_invoice as_of inv totals)

  unfoldable pub grand_total : Date → List Invoice → Decimal
  grand_total as_of invoices =
      quantize q_money (sum_of_totals (aging_totals as_of invoices no_totals))

-- What an invoice adds to the report.
abbrev pub receivable : Invoice → Decimal
receivable inv = if leb_ℤ (owed inv) (pos 0) then pos 0 else owed inv

pub sum_of_totals-add_to :
    (b : Bucket) (a : Decimal) (t : Totals) → sum_of_totals (add_to b a t) ≡ sum_of_totals t +ℤ a
sum_of_totals-add_to to_30 a t = omega int_laws
sum_of_totals-add_to to_60 a t = omega int_laws
sum_of_totals-add_to to_90 a t = omega int_laws
sum_of_totals-add_to over_90 a t = omega int_laws

module _ (days_between : Date → Date → ℤ) where
  add_invoice_lem :
      (as_of : Date) (inv : Invoice) (t : Totals)
      → sum_of_totals (add_invoice days_between as_of inv t) ≡ sum_of_totals t +ℤ receivable inv
  unfolding add_invoice
  add_invoice_lem as_of inv t = elim (Bool-cases (leb_ℤ (owed inv) (pos 0))) [
    | inl settled ↦ rw settled (omega int_laws)
    | inr open' ↦
        rw open' (sum_of_totals-add_to (bucket (days_between as_of inv.invoice_date)) (owed inv) t)
  ]

  aging_totals_lem :
      (as_of : Date) (invoices : List Invoice) (t : Totals)
      → sum_of_totals (aging_totals days_between as_of invoices t)
        ≡ sum_of_totals t +ℤ sum_of receivable invoices
  unfolding aging_totals
  aging_totals_lem as_of [] t = omega int_laws
  aging_totals_lem as_of (inv ∷ invoices) t =
      aging_totals_lem as_of invoices (add_invoice days_between as_of inv t)
      ∙ ap (λ x. x +ℤ sum_of receivable invoices) (add_invoice_lem as_of inv t)
      ∙ omega int_laws

  -- The buckets of an ageing report hold every amount that is owed once: its grand total is the sum of
  -- what each invoice owes, those that owe nothing left out, however old the invoices are.
  pub grand_total_lem :
      (as_of : Date) (invoices : List Invoice)
      → grand_total days_between as_of invoices ≡ quantize q_money (sum_of receivable invoices)
  unfolding grand_total
  grand_total_lem as_of invoices =
      ap (quantize q_money) (aging_totals_lem as_of invoices no_totals ∙ omega int_laws)

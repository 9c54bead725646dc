-- ===== src/Ar.antt =====
-- Receipts of the customer subledger: `_apply_to_invoice`, the two allocation loops of `post_receipt`,
-- of app/core/ar.py.
pub mod Fifo
pub mod Explicit
pub mod Aging
use jewelry_backend.Common.{
  ℕ, Bool, true, false, List, [], ◌∷◌, String, str_eq, if◌then◌else◌, Result, ok, err, ◌>>=◌,
  Option, none, some, find,
}
use jewelry_backend.Common.Int.{ℤ, pos, ◌+ℤ◌, ◌-ℤ◌, leb_ℤ, ltb_ℤ}
use jewelry_backend.Common.Dates.{Date}
use jewelry_backend.Money.{Decimal, quantize}
use jewelry_backend.Gl.Lines.{q_money}

pub data InvoiceStatus : Type 0 where
  open_ partial paid void : InvoiceStatus

-- A row of `ar_invoices`, without the columns that these operations leave alone.
pub record Invoice : Type 0 where
  pub id : String
  pub customer_id : String
  pub invoice_date : Date
  pub currency : String
  pub fx_rate : Decimal
  pub total : Decimal
  pub amount_paid : Decimal
  pub status : InvoiceStatus

abbrev pub owed : Invoice → Decimal
owed inv = inv.total -ℤ inv.amount_paid

-- The smaller of two amounts.
abbrev pub min_ℤ : Decimal → Decimal → Decimal
min_ℤ a b = if leb_ℤ a b then a else b

-- What is applied, and the invoice after it.
unfoldable pub apply_to_invoice : Invoice → Decimal → Decimal × Invoice
apply_to_invoice inv amount =
    let applied = min_ℤ amount (owed inv) in
    let total_paid = quantize q_money (inv.amount_paid +ℤ applied) in
    (
      applied,
      record {
        id = inv.id;
        customer_id = inv.customer_id;
        invoice_date = inv.invoice_date;
        currency = inv.currency;
        fx_rate = inv.fx_rate;
        total = inv.total;
        amount_paid = total_paid;
        status = if leb_ℤ inv.total total_paid then paid else partial;
      },
    )

-- A row of `ar_receipt_allocations`.
pub record ReceiptAllocation : Type 0 where
  pub invoice_id : String
  pub amount : Decimal

-- The invoices after a loop, the allocations that it wrote, and what remains of the receipt.
pub record Applied : Type 0 where
  pub invoices : List Invoice
  pub allocations : List ReceiptAllocation
  pub remaining : Decimal

-- One pass of a loop: an invoice is stored as the apply left it; an allocation is written, and
-- taken from what remains, only where something was applied.
abbrev pub take_from : Decimal → Decimal → Decimal
take_from remaining applied = if ltb_ℤ (pos 0) applied then remaining -ℤ applied else remaining

abbrev pub record_applied : String → Decimal → List ReceiptAllocation → List ReceiptAllocation
record_applied id applied later =
    if ltb_ℤ (pos 0) applied then record { invoice_id = id; amount = applied } ∷ later else later

-- The loop over the open invoices, the oldest first, until nothing remains.
unfoldable pub apply_fifo : Decimal → List Invoice → Applied
apply_fifo remaining [] = record { invoices = []; allocations = []; remaining = remaining }
apply_fifo remaining (inv ∷ invoices) =
    let (applied, inv') = apply_to_invoice inv remaining in
    let later = apply_fifo (take_from remaining applied) invoices in
    if leb_ℤ remaining (pos 0)
    then record { invoices = inv ∷ invoices; allocations = []; remaining = remaining }
    else record {
      invoices = inv' ∷ later.invoices;
      allocations = record_applied inv.id applied later.allocations;
      remaining = later.remaining;
    }

-- An allocation that the request names.
pub record Named : Type 0 where
  pub invoice_id : String
  pub amount : Decimal

pub data Error : Type 0 where
  invoice_not_found : Error

unfoldable pub store_invoice : Invoice → List Invoice → List Invoice
store_invoice inv [] = []
store_invoice inv (row ∷ rows) =
    (if str_eq row.id inv.id then inv else row) ∷ store_invoice inv rows

-- One pass: the invoice that is named has to exist.
abbrev pub apply_one : Option Invoice → Decimal → Result Error (Decimal × Invoice)
apply_one none amount = err invoice_not_found
apply_one (some inv) amount = ok (apply_to_invoice inv amount)

-- The loop over the allocations of the request, each of the invoice it names.
unfoldable pub apply_named : Decimal → List Named → List Invoice → Result Error Applied
apply_named remaining [] rows =
    ok (record { invoices = rows; allocations = []; remaining = remaining })
apply_named remaining (al ∷ named) rows =
    apply_one (find (λ inv. str_eq inv.id al.invoice_id) rows) (quantize q_money al.amount)
    >>= λ step.
        apply_named (take_from remaining step.0) named (store_invoice step.1 rows) >>= λ later.
        ok (record {
          invoices = later.invoices;
          allocations = record_applied step.1.id step.0 later.allocations;
          remaining = later.remaining;
        })

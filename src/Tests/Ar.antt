-- ===== src/Tests/Ar.antt =====
-- A receipt of 12.00 over two open invoices of 10.00 and 5.00, and one of 1.00 that its request
-- allocates beyond its amount.
use jewelry_backend.Common.{All, ◌≡◌, refl, List, [], ◌∷◌, arith, ok}
use jewelry_backend.Common.Int.{pos, negsuc, ◌+ℤ◌, ◌-ℤ◌}
use jewelry_backend.Money.{quantize, half_even, Decimal}
use jewelry_backend.Common.{String}
use jewelry_backend.Gl.Lines.{one, sum_of}
use jewelry_backend.Ar.{
  Invoice, Named, Applied, ReceiptAllocation, open_, partial, paid, apply_fifo, apply_named,
  apply_to_invoice, store_invoice,
}
use jewelry_backend.Ar.Explicit.{apply_named_conserves}
use jewelry_backend.Ar.Fifo.{IsPayable, IsFifo, apply_fifo-IsFifo}

abbrev invoice : String → Decimal → Invoice
invoice id total = record {
  id = id;
  customer_id = "c1";
  invoice_date = record { year = 2026; month = 3; day = 1 };
  currency = "USD";
  fx_rate = one;
  total = total;
  amount_paid = pos 0;
  status = open_;
}

abbrev open_invoices : List Invoice
open_invoices = invoice "i1" (pos 1_000_000_000) ∷ invoice "i2" (pos 500_000_000) ∷ []

oldest_first : apply_fifo (pos 1_200_000_000) open_invoices ≡ record {
  invoices =
      record (invoice "i1" (pos 1_000_000_000)) { amount_paid = pos 1_000_000_000; status = paid }
      ∷ record (invoice "i2" (pos 500_000_000)) { amount_paid = pos 200_000_000; status = partial }
      ∷ [];
  allocations =
      record { invoice_id = "i1"; amount = pos 1_000_000_000 }
      ∷ record { invoice_id = "i2"; amount = pos 200_000_000 }
      ∷ [];
  remaining = pos 0;
}
unfolding apply_fifo apply_to_invoice quantize half_even ◌+ℤ◌ ◌-ℤ◌
oldest_first = refl

apply_fifo-IsFifo_example :
    IsFifo (pos 1_200_000_000) open_invoices (apply_fifo (pos 1_200_000_000) open_invoices)
apply_fifo-IsFifo_example =
    apply_fifo-IsFifo (pos 1_200_000_000) open_invoices refl (omega arith)
      ((refl, refl, omega arith), ((refl, refl, omega arith), tt))

-- Ten are applied of a receipt of one: nine less than nothing remain.
named_beyond_receipt :
    apply_named
      (pos 100_000_000)
      (record { invoice_id = "i1"; amount = pos 1_000_000_000 } ∷ [])
      (invoice "i1" (pos 1_000_000_000) ∷ [])
    ≡ ok (record {
      invoices =
          record (invoice "i1" (pos 1_000_000_000)) {
            amount_paid = pos 1_000_000_000;
            status = paid;
          }
          ∷ [];
      allocations = record { invoice_id = "i1"; amount = pos 1_000_000_000 } ∷ [];
      remaining = negsuc 899_999_999;
    })
unfolding apply_named store_invoice apply_to_invoice quantize half_even ◌+ℤ◌ ◌-ℤ◌
named_beyond_receipt = refl

abbrev named_ten : List Named
named_ten = record { invoice_id = "i1"; amount = pos 1_000_000_000 } ∷ []

abbrev one_invoice : List Invoice
one_invoice = invoice "i1" (pos 1_000_000_000) ∷ []

abbrev beyond : Applied
beyond = record {
  invoices =
      record (invoice "i1" (pos 1_000_000_000)) { amount_paid = pos 1_000_000_000; status = paid }
      ∷ [];
  allocations = record { invoice_id = "i1"; amount = pos 1_000_000_000 } ∷ [];
  remaining = negsuc 899_999_999;
}

apply_named_conserves_example :
    (sum_of (λ (a : ReceiptAllocation). a.amount) beyond.allocations +ℤ beyond.remaining
      ≡ pos 100_000_000)
    × All IsPayable beyond.invoices
apply_named_conserves_example =
    apply_named_conserves (pos 100_000_000) named_ten one_invoice beyond (omega arith, tt)
      ((refl, refl, omega arith), tt) named_beyond_receipt

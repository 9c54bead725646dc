-- ===== src/Lib.antt =====
-- A model of the core of the jewelry shop's backend: its general ledger, its audit chains, and the
-- modules that move gold, money and debts or guard such moves, with proofs about them.
--
-- The program is an HTTP service over PostgreSQL. Its handlers (app/api) call modules of app/core
-- inside one transaction. Gold leaves stock through `consume_from_lot`; debts of suppliers move
-- through `adjust_balance`; receipts of customers settle invoices in app/core/ar.py and take their
-- posting legs from app/core/gl_fx.py. Every posting to the general ledger goes through
-- `post_entry`, which checks the lines, numbers and hashes the entry and appends an event to the
-- inventory ledger; `reverse_entry` posts the mirror image. Three logs are hash chains that
-- app/core/audit_chain.py walks.
--
-- The files and the code they model:
--   Common (Lists, Tests, Int, Dates): shared names, results that may be errors, integers, dates.
--   Money, Money/Rounding: `round_money` of app/core/money.py and the `quantize` calls elsewhere.
--   Audit: `verify_chain` and the digests of app/core/audit_chain.py; Audit/Walk and Audit/Tamper
--     reason about them; Audit/Ledger: `record` of app/core/ledger.py and `append_auth_event` of
--     app/core/auth_audit.py.
--   Gl/Lines: `GLLine`, `_has_money`, `_has_metal`, `validate_balanced`, `_normalize_line_decimals`;
--     Gl/Store: the tables of app/models/__init__.py and `_resolve_open_period`, `_next_entry_no`,
--     `_resolve_denominations`, `find_reversal`, `_refuse_duplicate_posting`, `_line_to_hash_dict`;
--     Gl/Post: `post_entry`, as `post_checks` before the first write and `write_entry`; Gl/Reverse:
--     `reverse_entry`; all of app/core/gl.py. Gl/Balance, Gl/Cents, Gl/Thousandths, Gl/Post/* and
--     Gl/Reverse/* hold proofs.
--   Inventory/Lot: `consume_from_lot` of app/core/inventory.py, with the rows of `GoldLot` and
--     `GoldLotConsumption`; Inventory/Supplier: app/core/supplier_balance.py.
--   Fx: `settlement_legs` of app/core/gl_fx.py, one definition for each of its loops and for the
--     cash leg and the plug; Ar: `_apply_to_invoice` and the two allocation loops of `post_receipt`
--     in app/core/ar.py; Ar/Aging: `_bucket` and the totals of `compute_aging`.
--   Lockout: app/core/login_lockout.py; Guard: app/core/gold_guard.py; Pricing: `calculate_price`
--     and `compute_buyback_price` of app/core/pricing.py.
--   Audit/Events: how a handler's events become rows of the ledger.
--   Postings: what the mappers of app/core/gl_postings.py share; Postings/Sale, Refund, Supplier and
--     Metal: the mappers, `post_sale` to `post_adjustment`; Postings/Even/*, Once and Void: proofs on
--     their lines, on posting once, and on a sale with its void.
--   Orders: the tables and `_recompute_order_totals` of app/api/orders.py; Orders/Restock: the stock
--     that comes back; Orders/Handlers: `void_order`, `refund_order`, `refund_order_item`;
--     Orders/SaleLine: `_checkout_product_line`, `_checkout_unit_line`;
--     Orders/Checkout: `create_order`;
--     Orders/Kept, Tracked, Exact and Priced: proofs on the orders and the stock that they reach.
--   StockTake: app/api/stock_takes.py, app/core/stock_take.py and, of app/api/adjustments.py,
--     `apply_unit_stock_adjustment_core` (Units, Lines and Handlers; proofs in Steps,
--     Valid, Frozen).
--   Bank: app/core/bank.py, by `next_bank_account_code` (Codes), `post_transfer` (Transfer) and
--     the loop of `suggest_matches`, the change of a line and `compute_reconciliation` (Matching);
--     Bank/Statement: `suggest_matches`, `apply_match` and `unmatch` on the table of statement lines,
--     with proofs in Changes and Accepted.
--   YearClose: `compute_trial_balance` of app/core/gl.py in the base currency, and
--     `year_close_preview`, `close_year` of app/core/period_close.py; proofs in Trial and Emptied.
--   Suppliers: the tables and the smaller handlers of app/api/suppliers.py; Suppliers/Intake:
--     `_consume_lots` and `_materialize_item`; Suppliers/Purchases and Payments: `create_purchase` and
--     `create_payment`; proofs in Owed, Scale, Ending, Steps, Standing, Changed and Settled. Ap:
--     `compute_ap_aging` of app/core/ap.py, with proofs in Charges, Open and Reconciled; Ap/Control
--     and Ap/Metal: the two blocks of `verify_ap_control`, with proofs on the cash block in Credit,
--     Posted, Tied and Gl/Post/Written.
--   Tests: runs at concrete inputs.
--
-- How state and values correspond. A table is a list of records; an operation takes the tables
-- and returns them changed, or an error. An operation is one step: the code locks most rows that
-- it changes for the length of it, but not all (`add_line`, `edit_line` and `remove_line` of a
-- stock take read the take without a lock), and what may come between is not modelled. A handler
-- that changes rows of its own and records events returns the rows and the events, which
-- `rows_from` of Audit/Events makes rows of the ledger. Keys and clock readings, which
-- the database and the machine supply, are arguments. A digest (`compute_*_hash`, SHA-256 of
-- canonical JSON) is an argument from the previous hash and the fields to a text; theorems name
-- what they use of it, that it is not empty or that it has no collision. The lines of an entry
-- are stored with the entry. A document number is kept as its parts and printed by
-- `doc_no_text`. A `Decimal` is an integer in units of 10^-8 unless a comment names another
-- scale, so that columns of 2, 3 and 6 decimals and products of them are exact; the rounding of
-- a quotient is that of the exact one, where Python's context first cuts it to 28 digits. A
-- column rounds a finer amount when the database stores it; the model stores it as it is. Of the
-- amounts that requests may give with any number of decimals, theorems on stored lots, balances
-- and purchases therefore take those that the columns hold (IsCents, IsThousandths).
--
-- Loops are structural recursion on the rows they read. Two have fuel: `decimal_text`, a number
-- of digits that exceeds those of any number printed, and `first_free` of Bank/Codes, one step
-- more than the codes of the band, which is proved enough.
--
-- Not modelled: messages of errors and formatting of amounts; the unique indexes of the
-- database, which back up the checks of the code; concurrent sessions without locks; of the
-- trial balance the breakdowns by currency and karat; the readiness of a period, taxes, zakat,
-- expenses, reports; of the handlers a sale on credit, and all but those of orders, stock
-- takes and suppliers; in app/core/ar.py invoices and statements; in app/core/pricing.py the
-- unit prices and the numbering of codes; document rendering, storage and network services.
pub mod Common
pub mod Money
pub mod Audit
pub mod Gl
pub mod Inventory
pub mod Fx
pub mod Ar
pub mod Lockout
pub mod Guard
pub mod Pricing
pub mod StockTake
pub mod Orders
pub mod Bank
pub mod YearClose
pub mod Suppliers
pub mod Ap
pub mod Postings
pub mod Tests

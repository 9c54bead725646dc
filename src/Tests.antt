-- ===== src/Tests.antt =====
-- Runs of the definitions and instances of the theorems at concrete inputs.
mod Audit
mod Gl
mod Fx
mod Ar
mod Lockout
mod Inventory
mod Guard
mod Pricing
mod StockTake
mod Shop
mod Postings
mod Orders
mod Checkout
mod Bank
mod YearClose
mod Suppliers
mod Ap

-- ===== src/Inventory.antt =====
-- Stock of gold and what is owed to suppliers: app/core/inventory.py and
-- app/core/supplier_balance.py. Amounts count units of 10^-8, as in the general ledger.
pub mod Lot
pub mod Supplier

-- ===== src/StockTake.antt =====
-- Physical stock takes: app/api/stock_takes.py, app/core/stock_take.py and the adjustment of the
-- quantity of a coin or an ounce bar in app/api/adjustments.py. Quantities are whole numbers; the
-- rows of `coin_types` and `ounce_types` are one list, told apart by their kind. A handler returns
-- the rows it leaves and the events it records; the commit and the response are left out.
pub mod Units
pub mod Lines
pub mod Handlers
pub mod Steps
pub mod Valid
pub mod Frozen

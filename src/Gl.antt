-- ===== src/Gl.antt =====
-- The general ledger of app/core/gl.py: journal lines, their validation, and the tables that the
-- posting engine reads and writes. Amounts count units of 10^-8, so that the money, rate and gram
-- columns of 2, 6 and 3 decimals are multiples of the quanta below.
pub mod Lines
pub mod Cents
pub mod Thousandths
pub mod Balance
pub mod Store
pub mod Post
pub mod Reverse

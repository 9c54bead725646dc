-- ===== src/Inventory/Supplier.antt =====
-- `adjust_balance` and `get_supplier_balances` of app/core/supplier_balance.py.
pub mod Owed
use jewelry_backend.Common.{
  ℕ, Bool, true, false, not, ◌&&◌, Option, none, some, List, [], ◌∷◌, String, str_eq, if◌then◌else◌,
  Result, ok, err,
}
use jewelry_backend.Common.Int.{ℤ, pos, ◌+ℤ◌, ltb_ℤ, nonzero}
use jewelry_backend.Money.{Decimal}

pub data DebtUnit : Type 0 where
  cash_unit gold_unit : DebtUnit

abbrev pub same_unit : DebtUnit → DebtUnit → Bool
same_unit cash_unit cash_unit = true
same_unit gold_unit gold_unit = true
same_unit _ _ = false

-- `SupplierBalance`; the karat is the empty text for cash. The column of the balance holds three
-- decimals; a finer amount, which the database rounds, is kept as it is here.
pub record Balance : Type 0 where
  pub supplier_id : String
  pub unit : DebtUnit
  pub karat : String
  pub balance : Decimal

-- What identifies a row.
pub record Key : Type 0 where
  pub supplier_id : String
  pub unit : DebtUnit
  pub karat : String

unfoldable pub key_eq : Key → Key → Bool
key_eq j k =
    str_eq j.supplier_id k.supplier_id && (same_unit j.unit k.unit && str_eq j.karat k.karat)

abbrev pub key_of : Balance → Key
key_of row = record { supplier_id = row.supplier_id; unit = row.unit; karat = row.karat }

abbrev pub has_key : Key → Balance → Bool
has_key k row = key_eq (key_of row) k

pub data Error : Type 0 where
  no_outstanding_balance : Decimal → Error
  repayment_exceeds : Decimal → Decimal → Error

-- The balance of a key, zero where it has no row.
unfoldable pub owed : Key → List Balance → Decimal
owed k [] = pos 0
owed k (row ∷ rows) = if has_key k row then row.balance else owed k rows

unfoldable pub has_row : Key → List Balance → Bool
has_row k [] = false
has_row k (row ∷ rows) = if has_key k row then true else has_row k rows

-- The row of the key at a new balance; a row is added where there is none.
unfoldable pub store_balance : Key → Decimal → List Balance → List Balance
store_balance k v [] =
    record { supplier_id = k.supplier_id; unit = k.unit; karat = k.karat; balance = v } ∷ []
store_balance k v (row ∷ rows) =
    if has_key k row then record row { balance = v } ∷ rows else row ∷ store_balance k v rows

-- The result holds the balance before and after.
unfoldable pub adjust_balance :
    List Balance → Key → Decimal → Bool → Result Error (Decimal × Decimal × List Balance)
adjust_balance rows k delta allow_negative =
    let before = owed k rows in
    let after = before +ℤ delta in
    if not (has_row k rows) && (ltb_ℤ delta (pos 0) && not allow_negative)
    then err (no_outstanding_balance delta)
    else if ltb_ℤ after (pos 0) && not allow_negative
    then err (repayment_exceeds delta before)
    else ok (before, after, store_balance k after rows)

-- The rows of a supplier that are not zero.
unfoldable pub get_supplier_balances : List Balance → String → List Balance
get_supplier_balances [] id = []
get_supplier_balances (row ∷ rows) id =
    let rest = get_supplier_balances rows id in
    if str_eq row.supplier_id id && nonzero row.balance then row ∷ rest else rest

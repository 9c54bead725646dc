-- ===== src/Inventory/Supplier/Owed.antt =====
-- What an adjustment does to the balance of its key and of every other.
use jewelry_backend.Common.{
  ◌≡◌, refl, Bool, true, false, ◌↔◌, List, [], ◌∷◌, eq_iff, arith, if◌then◌else◌, ok, All,
}
use jewelry_backend.Common.Int.{pos, ◌+ℤ◌, ◌≤ℤ◌}
use jewelry_backend.Money.{Decimal}
use jewelry_backend.Gl.Thousandths.{IsThousandths, add-IsThousandths}
use jewelry_backend.Inventory.Supplier.{
  Balance, Key, key_eq, key_of, DebtUnit, cash_unit, gold_unit, same_unit, owed, store_balance,
  adjust_balance,
}

same_unit_iff : (a b : DebtUnit) → (same_unit a b ≡ true) ↔ (a ≡ b)
same_unit_iff cash_unit cash_unit = (λ h. refl, λ h. refl)
same_unit_iff gold_unit gold_unit = (λ h. refl, λ h. refl)
same_unit_iff cash_unit gold_unit = (λ h. cc, λ h. cc)
same_unit_iff gold_unit cash_unit = (λ h. cc, λ h. cc)

pub key_eq_iff : (j k : Key) → (key_eq j k ≡ true) ↔ (j ≡ k)
unfolding key_eq
key_eq_iff j k =
    ground (
      arith,
      eq_iff j.supplier_id k.supplier_id,
      same_unit_iff j.unit k.unit,
      eq_iff j.karat k.karat,
    )

-- No balance is below zero.
abbrev pub NoneNegative : List Balance → Type 0
NoneNegative rows = All (λ row. pos 0 ≤ℤ row.balance) rows

owed-store_balance :
    (k j : Key) (v : Decimal) (rows : List Balance)
    → owed j (store_balance k v rows) ≡ (if key_eq k j then v else owed j rows)
unfolding owed store_balance
owed-store_balance k j v [] = refl
owed-store_balance k j v (row ∷ rows) = ground (
  arith,
  key_eq_iff (key_of row) k,
  key_eq_iff (key_of row) j,
  key_eq_iff k j,
  owed-store_balance k j v rows,
)

store_balance-NoneNegative :
    (k : Key) (v : Decimal) (rows : List Balance)
    → pos 0 ≤ℤ v
    → NoneNegative rows
    → NoneNegative (store_balance k v rows)
unfolding store_balance
store_balance-NoneNegative k v [] p h = (p, tt)
store_balance-NoneNegative k v (row ∷ rows) p h =
    ground (arith, store_balance-NoneNegative k v rows p h.1)

-- What an adjustment that succeeds has checked and written.
pub adjust_fits :
    (rows rows' : List Balance) (k : Key) (delta before after : Decimal) (allow : Bool)
    → adjust_balance rows k delta allow ≡ ok (before, after, rows')
    → (before ≡ owed k rows)
      × (after ≡ owed k rows +ℤ delta)
      × (rows' ≡ store_balance k (owed k rows +ℤ delta) rows)
      × (allow ≡ false → pos 0 ≤ℤ owed k rows +ℤ delta)
unfolding adjust_balance
adjust_fits rows rows' k delta before after allow h = ground arith

-- What it reports, moves and leaves alone.
pub adjust_moves :
    (rows rows' : List Balance) (k : Key) (delta before after : Decimal) (allow : Bool)
    → adjust_balance rows k delta allow ≡ ok (before, after, rows')
    → (before ≡ owed k rows)
      × (after ≡ before +ℤ delta)
      × ((j : Key) → owed j rows' ≡ (if key_eq k j then after else owed j rows))
      × (allow ≡ false → NoneNegative rows → NoneNegative rows')
adjust_moves rows rows' k delta before after allow h =
    let (before_is, after_is, rows_are, strict) =
      adjust_fits rows rows' k delta before after allow h in
    (
      before_is,
      rw (after_is, before_is),
      λ j. rw (rows_are, after_is) (owed-store_balance k j (owed k rows +ℤ delta) rows),
      λ no_credit none.
          rw rows_are
            (store_balance-NoneNegative k (owed k rows +ℤ delta) rows (strict no_credit) none),
    )

-- Every balance is in whole thousandths.
abbrev pub InThousandths : List Balance → Type 0
InThousandths rows = All (λ row. IsThousandths row.balance) rows

owed-IsThousandths :
    (k : Key) (rows : List Balance) → InThousandths rows → IsThousandths (owed k rows)
unfolding owed
owed-IsThousandths k [] h = refl
owed-IsThousandths k (row ∷ rows) h = ground (arith, owed-IsThousandths k rows h.1)

store_balance-InThousandths :
    (k : Key) (v : Decimal) (rows : List Balance)
    → IsThousandths v
    → InThousandths rows
    → InThousandths (store_balance k v rows)
unfolding store_balance
store_balance-InThousandths k v [] p h = (p, tt)
store_balance-InThousandths k v (row ∷ rows) p h =
    ground (arith, store_balance-InThousandths k v rows p h.1)

-- An adjustment that succeeds, of balances and by a delta in whole thousandths, reports the balance
-- before and after, moves the balance of its key by the delta and no other, without `allow_negative`
-- leaves no balance below zero, and leaves every balance in whole thousandths.
pub adjust_balance_moves :
    (rows rows' : List Balance) (k : Key) (delta before after : Decimal) (allow : Bool)
    → InThousandths rows
    → IsThousandths delta
    → adjust_balance rows k delta allow ≡ ok (before, after, rows')
    → (before ≡ owed k rows)
      × (after ≡ before +ℤ delta)
      × ((j : Key) → owed j rows' ≡ (if key_eq k j then after else owed j rows))
      × (allow ≡ false → NoneNegative rows → NoneNegative rows')
      × InThousandths rows'
adjust_balance_moves rows rows' k delta before after allow whole step h =
    let (before_is, after_is, rows_are, strict) =
      adjust_fits rows rows' k delta before after allow h in
    let (first, second, moved, kept) = adjust_moves rows rows' k delta before after allow h in
    (
      first,
      second,
      moved,
      kept,
      rw rows_are (
          store_balance-InThousandths k (owed k rows +ℤ delta) rows
            (add-IsThousandths _ _ (owed-IsThousandths k rows whole) step) whole),
    )

-- ===== src/Postings/Even/Metal.antt =====
-- The lines of buybacks, melts and losses are even, with no condition on the amounts: metal that
-- crosses into money goes through the clearing account.
use jewelry_backend.Common.{
  ◌≡◌, refl, Bool, true, false, List, [], ◌∷◌, String, str_eq, if◌then◌else◌, ok, bind_inversion,
  ok-injective,
}
use mathlib.Core.Path.{subst}
use jewelry_backend.Common.Int.{pos, ◌+ℤ◌, int_laws}
use jewelry_backend.Money.{Decimal}
use jewelry_backend.Gl.Lines.{GlLine}
use jewelry_backend.Gl.Store.{Db}
use jewelry_backend.Postings.{
  debit_money, credit_money, debit_metal, credit_metal, resolve_account_id, karat_value,
}
use jewelry_backend.Postings.Metal.{
  Buyback, lines_of_buyback, Melt, lines_of_melt, Loss, lines_of_loss,
}
use jewelry_backend.Postings.Even.{IsEven}

module _ (a b c : String) (cost grams : Decimal) (k : String) where
  buyback_lines-IsEven :
      (l m n : String)
      → IsEven (
          debit_metal a cost grams k l
          ∷ credit_money b cost m
          ∷ credit_metal c (pos 0) grams k n
          ∷ [])
  buyback_lines-IsEven l m n = record { base = omega int_laws; metal = λ j. split (str_eq k j) }
    where
      split :
          (test : Bool)
          → (if test then grams else pos 0) +ℤ (pos 0 +ℤ ((if test then pos 0 else pos 0) +ℤ pos 0))
            ≡ (if test then pos 0 else pos 0)
              +ℤ (pos 0 +ℤ ((if test then grams else pos 0) +ℤ pos 0))
      split true = omega int_laws
      split false = refl

  loss_lines-IsEven :
      (l m n : String)
      → IsEven (
          debit_money a cost l
          ∷ credit_metal b cost grams k m
          ∷ debit_metal c (pos 0) grams k n
          ∷ [])
  loss_lines-IsEven l m n = record { base = omega int_laws; metal = λ j. split (str_eq k j) }
    where
      split :
          (test : Bool)
          → pos 0 +ℤ ((if test then pos 0 else pos 0) +ℤ ((if test then grams else pos 0) +ℤ pos 0))
            ≡ pos 0
              +ℤ ((if test then grams else pos 0) +ℤ ((if test then pos 0 else pos 0) +ℤ pos 0))
      split true = omega int_laws
      split false = refl

melt_lines-IsEven :
    (a b : String) (cost from to : Decimal) (f t : String) (k l m n : String)
    → IsEven (
        credit_metal a cost from f k
        ∷ debit_metal b (pos 0) from f l
        ∷ debit_metal a cost to t m
        ∷ credit_metal b (pos 0) to t n
        ∷ [])
melt_lines-IsEven a b cost from to f t k l m n = record {
  base = omega int_laws;
  metal = λ j. split (str_eq f j) (str_eq t j);
}
  where
    split :
        (p q : Bool)
        → (if p then pos 0 else pos 0)
            +ℤ ((if p then from else pos 0)
                +ℤ ((if q then to else pos 0) +ℤ ((if q then pos 0 else pos 0) +ℤ pos 0)))
          ≡ (if p then from else pos 0)
            +ℤ ((if p then pos 0 else pos 0)
                +ℤ ((if q then pos 0 else pos 0) +ℤ ((if q then to else pos 0) +ℤ pos 0)))
    split true true = omega int_laws
    split true false = omega int_laws
    split false true = omega int_laws
    split false false = refl

lines_of_buyback-IsEven :
    (k : String) (b : Buyback) (db : Db) {lines : List GlLine}
    → lines_of_buyback k b db ≡ ok lines
    → IsEven lines
unfolding lines_of_buyback
lines_of_buyback-IsEven k b db e =
    let (inv, found, e1) = bind_inversion (resolve_account_id db "METAL_INVENTORY") _ e in
    let (cash, found1, e2) = bind_inversion (resolve_account_id db "CASH") _ e1 in
    let (clearing, found2, e3) = bind_inversion (resolve_account_id db "METAL_CLEARING") _ e2 in
    subst IsEven (ok-injective e3) (buyback_lines-IsEven inv cash clearing _ _ k _ _ _)

lines_of_melt-IsEven :
    (m : Melt) (db : Db) {lines : List GlLine} → lines_of_melt m db ≡ ok lines → IsEven lines
unfolding lines_of_melt
lines_of_melt-IsEven m db e =
    let (inv, found, e1) = bind_inversion (resolve_account_id db "METAL_INVENTORY") _ e in
    let (clearing, found1, e2) = bind_inversion (resolve_account_id db "METAL_CLEARING") _ e1 in
    subst IsEven (ok-injective e2) (
      melt_lines-IsEven inv clearing _ m.from_grams m.to_grams (karat_value m.from_karat)
        (karat_value m.to_karat) _ _ _ _)

lines_of_loss-IsEven :
    (k : String) (adj : Loss) (db : Db) {lines : List GlLine}
    → lines_of_loss k adj db ≡ ok lines
    → IsEven lines
unfolding lines_of_loss
lines_of_loss-IsEven k adj db e =
    let (expense, found, e1) = bind_inversion (resolve_account_id db "ADJUSTMENT_EXPENSE") _ e in
    let (inv, found1, e2) = bind_inversion (resolve_account_id db "METAL_INVENTORY") _ e1 in
    let (clearing, found2, e3) = bind_inversion (resolve_account_id db "METAL_CLEARING") _ e2 in
    subst IsEven (ok-injective e3) (loss_lines-IsEven expense inv clearing _ _ k _ _ _)

-- The entries of a buyback, a melt and a loss are even, at every weight and cost, and at karats
-- that agree or differ.
pub metal_entries-IsEven :
    (db : Db) (b : Buyback) (m : Melt) (adj : Loss) (k j : String)
    {bought melted lost : List GlLine}
    → lines_of_buyback k b db ≡ ok bought
    → lines_of_melt m db ≡ ok melted
    → lines_of_loss j adj db ≡ ok lost
    → IsEven bought × IsEven melted × IsEven lost
metal_entries-IsEven db b m adj k j x y z =
    (lines_of_buyback-IsEven k b db x, lines_of_melt-IsEven m db y, lines_of_loss-IsEven j adj db z)

-- ===== src/YearClose/Emptied.antt =====
-- The closing entry of a year: it is even and it empties every income and expense account.
use jewelry_backend.Common.{
  ◌≡◌, refl, sym, ◌∙◌, Bool, true, false, List, [], ◌∷◌, ◌++◌, String, arith, Bool-cases, inl, inr,
  All,
}
use jewelry_backend.Common.Int.{
  pos, ◌+ℤ◌, ◌-ℤ◌, ltb_ℤ, nonzero, nonzero-false, int_laws, eq_of_parts,
}
use jewelry_backend.Money.{Decimal, quantize}
use jewelry_backend.Gl.Lines.{q_money, sum_of}
use jewelry_backend.Gl.Cents.{IsCents, quantize_cents, add-IsCents, sub-IsCents, sum_of-append}
use jewelry_backend.Gl.Store.{AccountType, asset, liability, equity, income, expense}
use jewelry_backend.YearClose.{
  AccountRow, CloseLine, income_of, expense_of, line_if, closing_line, closing_lines, net_income,
  earnings_line, year_close_lines,
}

-- The totals of the account are in whole cents, as the trial balance gives them.
abbrev pub InCents : AccountRow → Type 0
InCents a = IsCents a.base_debit × IsCents a.base_credit

abbrev pub debits : List CloseLine → Decimal
debits lines = sum_of CloseLine.debit lines

abbrev pub credits : List CloseLine → Decimal
credits lines = sum_of CloseLine.credit lines

-- Whether a year close empties the account.
abbrev pub IsEmptied : AccountRow → Type 0
IsEmptied a = a.base_debit +ℤ debits (closing_line a) ≡ a.base_credit +ℤ credits (closing_line a)

abbrev pub profit_and_loss : AccountType → Bool
profit_and_loss income = true
profit_and_loss expense = true
profit_and_loss _ = false

-- The accounts of income and expense among the rows.
abbrev pub nominal : List AccountRow → List AccountRow
nominal [] = []
nominal (a ∷ rows) =
    let rest = nominal rows in elim (profit_and_loss a.type) [ true ↦ a ∷ rest | false ↦ rest ]

-- A line that is left out is one of nothing.
line_if-debit :
    (test : Decimal) (id : String)
    → quantize q_money test ≡ test
    → debits (
        line_if
          (nonzero test)
          (record { account_id = id; debit = quantize q_money test; credit = pos 0 }))
      ≡ test
line_if-debit test id same = elim (Bool-cases (nonzero test)) [
  | inl this ↦ rw (this, same) (omega int_laws)
  | inr nothing ↦ rw nothing (sym (nonzero-false test nothing))
]

line_if-credit :
    (test : Decimal) (id : String)
    → quantize q_money test ≡ test
    → credits (
        line_if
          (nonzero test)
          (record { account_id = id; debit = pos 0; credit = quantize q_money test }))
      ≡ test
line_if-credit test id same = elim (Bool-cases (nonzero test)) [
  | inl this ↦ rw (this, same) (omega int_laws)
  | inr nothing ↦ rw nothing (sym (nonzero-false test nothing))
]

line_if-nothing :
    (f : CloseLine → Decimal) (test : Bool) (l : CloseLine)
    → f l ≡ pos 0
    → sum_of f (line_if test l) ≡ pos 0
line_if-nothing f true l same = rw same (omega int_laws)
line_if-nothing f false l same = refl

-- The line of an account debits its income and credits its expense.
closing_line-sums :
    (t : AccountType) (a : AccountRow)
    → a.type ≡ t
    → InCents a
    → (debits (closing_line a) ≡ income_of a) × (credits (closing_line a) ≡ expense_of a)
unfolding closing_line
closing_line-sums asset a e h = (rw e refl, rw e refl)
closing_line-sums liability a e h = (rw e refl, rw e refl)
closing_line-sums equity a e h = (rw e refl, rw e refl)
closing_line-sums income a e h = (
  rw e (
      line_if-debit (a.base_credit -ℤ a.base_debit) a.account_id
        (quantize_cents _ (sub-IsCents _ _ h.1 h.0))),
  rw e (line_if-nothing CloseLine.credit _ _ refl),
)
closing_line-sums expense a e h = (
  rw e (line_if-nothing CloseLine.debit _ _ refl),
  rw e (
      line_if-credit (a.base_debit -ℤ a.base_credit) a.account_id
        (quantize_cents _ (sub-IsCents _ _ h.0 h.1))),
)

emptied :
    (t : AccountType) (a : AccountRow)
    → a.type ≡ t
    → profit_and_loss t ≡ true
    → InCents a
    → IsEmptied a
emptied income a e p h =
    let (d, c) = closing_line-sums income a e h in rw (d, c, e) (eq_of_parts _ _ (omega int_laws))
emptied expense a e p h =
    let (d, c) = closing_line-sums expense a e h in rw (d, c, e) (eq_of_parts _ _ (omega int_laws))
emptied asset a e p h = cc
emptied liability a e p h = cc
emptied equity a e p h = cc

closing_lines-sums :
    (accounts : List AccountRow)
    → All InCents accounts
    → (debits (closing_lines accounts) ≡ sum_of income_of accounts)
      × (credits (closing_lines accounts) ≡ sum_of expense_of accounts)
unfolding closing_lines
closing_lines-sums [] h = (refl, refl)
closing_lines-sums (a ∷ accounts) h =
    let (d, c) = closing_line-sums a.type a refl h.0 in
    let (ds, cs) = closing_lines-sums accounts h.1 in
    (
      sum_of-append CloseLine.debit (closing_line a) _ ∙ rw (d, ds) refl,
      sum_of-append CloseLine.credit (closing_line a) _ ∙ rw (c, cs) refl,
    )

sums-IsCents :
    (accounts : List AccountRow)
    → All InCents accounts
    → IsCents (sum_of income_of accounts) × IsCents (sum_of expense_of accounts)
sums-IsCents [] h = (refl, refl)
sums-IsCents (a ∷ accounts) h =
    let (i, e) = sums-IsCents accounts h.1 in
    let (j, f) = split a.type in (add-IsCents _ _ j i, add-IsCents _ _ f e)
  where
    split :
        (t : AccountType)
        → IsCents (elim t [ income ↦ a.base_credit -ℤ a.base_debit | _ ↦ pos 0 ])
          × IsCents (elim t [ expense ↦ a.base_debit -ℤ a.base_credit | _ ↦ pos 0 ])
    split income = (sub-IsCents _ _ h.0.1 h.0.0, refl)
    split expense = (refl, sub-IsCents _ _ h.0.0 h.0.1)
    split asset = (refl, refl)
    split liability = (refl, refl)
    split equity = (refl, refl)

net_income_lem :
    (accounts : List AccountRow)
    → All InCents accounts
    → net_income accounts ≡ sum_of income_of accounts -ℤ sum_of expense_of accounts
net_income_lem accounts h =
    let (i, e) = sums-IsCents accounts h in quantize_cents _ (sub-IsCents _ _ i e)

-- The line of retained earnings credits the net, whatever its sign.
earnings_line-sum :
    (id : String) (net : Decimal)
    → credits (earnings_line id net) ≡ debits (earnings_line id net) +ℤ net
earnings_line-sum id net = elim (Bool-cases (ltb_ℤ (pos 0) net)) [
  | inl profit ↦ rw profit (eq_of_parts _ _ (omega int_laws))
  | inr other ↦ elim (Bool-cases (ltb_ℤ net (pos 0))) [
    | inl loss ↦ rw (other, loss) (eq_of_parts _ _ (omega int_laws))
    | inr nothing ↦ rw (other, nothing) (zero_net net other nothing)
  ]
]
  where
    zero_net :
        (n : Decimal) → ltb_ℤ (pos 0) n ≡ false → ltb_ℤ n (pos 0) ≡ false → pos 0 ≡ pos 0 +ℤ n
    zero_net n a b = rw (zero_of n a b) (omega int_laws)
      where
        zero_of : (m : Decimal) → ltb_ℤ (pos 0) m ≡ false → ltb_ℤ m (pos 0) ≡ false → m ≡ pos 0
        zero_of m a b = ground arith

-- The lines that close a year, of accounts whose totals are in cents: they debit as much as they
-- credit, and each income or expense account is level with its own line added.
pub year_close_lines_lem :
    (id : String) (accounts : List AccountRow)
    → All InCents accounts
    → (debits (year_close_lines id accounts) ≡ credits (year_close_lines id accounts))
      × All IsEmptied (nominal accounts)
unfolding year_close_lines
year_close_lines_lem id accounts h = (even, each accounts h)
  where
    each : (rows : List AccountRow) → All InCents rows → All IsEmptied (nominal rows)
    each [] k = tt
    each (a ∷ rows) k = elim (Bool-cases (profit_and_loss a.type)) [
      | inl p ↦ rw (nominal, p, All) (emptied a.type a refl p k.0, each rows k.1)
      | inr other ↦ rw (nominal, other) (each rows k.1)
    ]

    level : (i e d net : Decimal) → net ≡ i -ℤ e → i +ℤ d ≡ e +ℤ (d +ℤ net)
    level i e d net same = rw same (eq_of_parts _ _ (omega int_laws))

    even :
        debits (closing_lines accounts ++ earnings_line id (net_income accounts))
        ≡ credits (closing_lines accounts ++ earnings_line id (net_income accounts))
    even =
        let (d, c) = closing_lines-sums accounts h in
        rw
          (
            sum_of-append CloseLine.debit (closing_lines accounts)
                (earnings_line id (net_income accounts)),
            sum_of-append CloseLine.credit (closing_lines accounts)
                (earnings_line id (net_income accounts)),
            d,
            c,
            earnings_line-sum id (net_income accounts),
          )
          (level _ _ (debits (earnings_line id (net_income accounts))) _
            (net_income_lem accounts h))

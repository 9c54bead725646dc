-- ===== src/Tests/YearClose.antt =====
-- A year with one income, one expense and an asset that stays.
use jewelry_backend.Common.{◌≡◌, refl, List, [], ◌∷◌, All}
use jewelry_backend.Common.Int.{pos}
use jewelry_backend.Gl.Store.{asset, income, expense}
use jewelry_backend.YearClose.{AccountRow, year_close_lines}
use jewelry_backend.YearClose.Emptied.{
  InCents, debits, credits, IsEmptied, nominal, year_close_lines_lem,
}

abbrev rows : List AccountRow
rows =
    record { account_id = "cash"; type = asset; base_debit = pos 500_000_000; base_credit = pos 0 }
    ∷ record {
      account_id = "sales";
      type = income;
      base_debit = pos 0;
      base_credit = pos 700_000_000;
    }
    ∷ record {
      account_id = "rent";
      type = expense;
      base_debit = pos 200_000_000;
      base_credit = pos 0;
    }
    ∷ []

rows-InCents : All InCents rows
rows-InCents = ((refl, refl), ((refl, refl), ((refl, refl), tt)))

year_close_lines_lem_example :
    (debits (year_close_lines "re" rows) ≡ credits (year_close_lines "re" rows))
    × All IsEmptied (nominal rows)
year_close_lines_lem_example = year_close_lines_lem "re" rows rows-InCents

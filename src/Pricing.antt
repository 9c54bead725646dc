-- ===== src/Pricing.antt =====
-- Prices of items, of coins and bars, and of gold bought back: app/core/pricing.py. Rates, weights,
-- charges and percentages count units of 10^-8 and purities thousandths; products are exact and
-- keep the scale of their factors, which each comment names.
pub mod Buyback
pub mod Sale
use jewelry_backend.Common.{
  ℕ, ◌^◌, Bool, String, str_eq, not, ◌&&◌, ◌||◌, if◌then◌else◌, Result, ok, err,
}
use jewelry_backend.Common.Int.{ℤ, pos, ◌+ℤ◌, ◌-ℤ◌, ◌*ℤ◌, leb_ℤ}
use jewelry_backend.Money.{Decimal, round_money}

pub data Karat : Type 0 where
  k18 k21 k22 k24 : Karat

-- In thousandths.
abbrev pub karat_purity : Karat → ℤ
karat_purity k18 = pos 750
karat_purity k21 = pos 875
karat_purity k22 = pos 917
karat_purity k24 = pos 999

-- Half-up to two places of an amount of a scale of 11, 19, 21 or 29 decimals.
abbrev pub cent_11 : ℕ
cent_11 = 10 ^ 9

abbrev pub cent_19 : ℕ
cent_19 = 10 ^ 17

abbrev pub cent_21 : ℕ
cent_21 = 10 ^ 19

abbrev pub cent_29 : ℕ
cent_29 = 10 ^ 27

-- `purity_rate` and `effective_rate` have 11 decimals, `metal_value` 19, `margin_amount` and
-- `final_price` 29, `stone_value` 8.
pub record Price : Type 0 where
  pub purity_rate : Decimal
  pub effective_rate : Decimal
  pub metal_value : Decimal
  pub margin_amount : Decimal
  pub stone_value : Decimal
  pub final_price : Decimal

pub record Item : Type 0 where
  pub rate_24k : Decimal
  pub karat : Karat
  pub weight_grams : Decimal
  pub margin_percent : Decimal
  pub making_charge : Decimal
  pub karat_markup : Decimal
  pub stone_value : Decimal

-- 100 percent is 10^10 units, so that a margin has two decimals more than its product.
unfoldable pub calculate_price : Item → Price
calculate_price i =
    let purity_rate = i.rate_24k *ℤ karat_purity i.karat in
    let effective_rate = purity_rate +ℤ i.karat_markup *ℤ pos (10 ^ 3) in
    let metal_value = effective_rate *ℤ i.weight_grams in
    let margin_amount = metal_value *ℤ i.margin_percent in
    let with_margin = metal_value *ℤ pos (10 ^ 10) +ℤ margin_amount in
    let final_price = with_margin +ℤ (i.making_charge +ℤ i.stone_value) *ℤ pos (10 ^ 21) in
    record {
      purity_rate = round_money cent_11 purity_rate;
      effective_rate = round_money cent_11 effective_rate;
      metal_value = round_money cent_19 metal_value;
      margin_amount = round_money cent_29 margin_amount;
      stone_value = round_money (10 ^ 6) i.stone_value;
      final_price = round_money cent_29 final_price;
    }

pub data Error : Type 0 where
  unknown_margin_mode : String → Error
  percent_too_large : Decimal → Error
  non_positive_rate : Decimal → Decimal → Error

pub record Bought : Type 0 where
  pub rate_24k : Decimal
  pub karat : Karat
  pub weight_grams : Decimal
  pub margin_mode : String
  pub margin_value : Decimal

-- `purity_rate` has 11 decimals, `effective_rate_per_gram` 21 and `buy_price` 29.
pub record BuybackPrice : Type 0 where
  pub purity_rate : Decimal
  pub effective_rate_per_gram : Decimal
  pub buy_price : Decimal

abbrev pub purity_rate_of : Bought → Decimal
purity_rate_of b = b.rate_24k *ℤ karat_purity b.karat

-- The rate less the margin, with 21 decimals.
unfoldable pub effective_rate : Bought → Decimal
effective_rate b =
    if str_eq b.margin_mode "USD_PER_GRAM"
    then (purity_rate_of b -ℤ b.margin_value *ℤ pos (10 ^ 3)) *ℤ pos (10 ^ 10)
    else purity_rate_of b *ℤ (pos (10 ^ 10) -ℤ b.margin_value)

unfoldable pub compute_buyback_price : Bought → Result Error BuybackPrice
compute_buyback_price b =
    if not (str_eq b.margin_mode "USD_PER_GRAM" || str_eq b.margin_mode "PERCENT")
    then err (unknown_margin_mode b.margin_mode)
    else if str_eq b.margin_mode "PERCENT" && leb_ℤ (pos (10 ^ 10)) b.margin_value
    then err (percent_too_large b.margin_value)
    else if leb_ℤ (effective_rate b) (pos 0)
    then err (non_positive_rate (purity_rate_of b) (effective_rate b))
    else ok (record {
      purity_rate = round_money cent_11 (purity_rate_of b);
      effective_rate_per_gram = round_money cent_21 (effective_rate b);
      buy_price = round_money cent_29 (effective_rate b *ℤ b.weight_grams);
    })

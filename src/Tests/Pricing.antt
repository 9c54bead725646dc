-- ===== src/Tests/Pricing.antt =====
-- Ten grams of 18 karat at a rate of 95.00, bought at a margin of five percent.
use jewelry_backend.Common.{arith, ◌≡◌, ◌*◌, ◌^◌, refl, ok, err, Result}
use jewelry_backend.Common.Int.{pos, ◌≤ℤ◌, ◌-ℤ◌, ◌*ℤ◌}
use jewelry_backend.Money.{round_money, half_up}
use jewelry_backend.Pricing.{
  calculate_price, BuybackPrice, Error, k18, cent_29, effective_rate, compute_buyback_price,
}
use jewelry_backend.Pricing.Sale.{item, calculate_price_mono}
use jewelry_backend.Pricing.Buyback.{bought, purity, compute_buyback_price-within}

abbrev price_of : Result Error BuybackPrice → BuybackPrice
price_of (ok price) = price
price_of (err raised) = record {
  purity_rate = pos 0;
  effective_rate_per_gram = pos 0;
  buy_price = pos 0;
}

abbrev price : BuybackPrice
price =
    price_of (compute_buyback_price (bought "PERCENT" k18 9_500_000_000 1_000_000_000 500_000_000))

priced :
    compute_buyback_price (bought "PERCENT" k18 9_500_000_000 1_000_000_000 500_000_000) ≡ ok price
unfolding compute_buyback_price effective_rate round_money half_up ◌-ℤ◌ ◌*ℤ◌
priced = refl

compute_buyback_price-within_example :
    (pos 0 ≤ℤ price.buy_price)
    × (price.buy_price
        ≤ℤ round_money cent_29 (pos (9_500_000_000 * purity k18 * 10 ^ 10 * 1_000_000_000)))
compute_buyback_price-within_example =
    compute_buyback_price-within "PERCENT" k18 9_500_000_000 1_000_000_000 500_000_000 price priced

calculate_price_mono_example :
    (calculate_price (item k18 9_500_000_000 1_000_000_000 500_000_000 200_000_000 0 0)).final_price
    ≤ℤ (calculate_price
        (item k18 9_500_000_000 1_100_000_000 500_000_000 200_000_000 0 0)).final_price
calculate_price_mono_example =
    calculate_price_mono k18 9_500_000_000 1_000_000_000 1_100_000_000 500_000_000 200_000_000 0 0
      (omega arith)

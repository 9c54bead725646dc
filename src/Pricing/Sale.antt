-- ===== src/Pricing/Sale.antt =====
-- A heavier piece never sells for less: app/core/pricing.py.
use native.Mathlib.Nat.{mul-le-mul_right, mul-le-mul_left}
use jewelry_backend.Common.{ℕ, ◌+◌, ◌*◌, ◌^◌, ◌≤◌, ◌≡◌, refl, arith}
use jewelry_backend.Common.Int.{pos, ◌≤ℤ◌, ◌+ℤ◌}
use jewelry_backend.Money.{round_money}
use jewelry_backend.Pricing.{Item, Karat, cent_29, calculate_price}
use jewelry_backend.Pricing.Buyback.{half_up_mono, times_pos, purity, purity_lem}

plus_pos : (a b : ℕ) → pos a +ℤ pos b ≡ pos (a + b)
unfolding ◌+ℤ◌
plus_pos a b = ground arith

-- An item whose amounts are not negative.
abbrev pub item : Karat → ℕ → ℕ → ℕ → ℕ → ℕ → ℕ → Item
item karat rate weight percent making markup stone = record {
  rate_24k = pos rate;
  karat = karat;
  weight_grams = pos weight;
  margin_percent = pos percent;
  making_charge = pos making;
  karat_markup = pos markup;
  stone_value = pos stone;
}

-- The exact price, with 29 decimals.
abbrev exact_price : ℕ → ℕ → ℕ → ℕ → ℕ
exact_price rate weight percent extras =
    rate * weight * 10 ^ 10 + rate * weight * percent + extras * 10 ^ 21

final_price_lem :
    (karat : Karat) (rate weight percent making markup stone : ℕ)
    → (calculate_price (item karat rate weight percent making markup stone)).final_price
      ≡ round_money cent_29 (
          pos (exact_price (rate * purity karat + markup * 10 ^ 3) weight percent (making + stone)))
unfolding calculate_price
final_price_lem karat rate weight percent making markup stone =
    let effective = rate * purity karat + markup * 10 ^ 3 in
    rw
      (
        purity_lem karat,
        times_pos rate (purity karat),
        times_pos markup (10 ^ 3),
        plus_pos (rate * purity karat) (markup * 10 ^ 3),
        times_pos effective weight,
        times_pos (effective * weight) (10 ^ 10),
        times_pos (effective * weight) percent,
        plus_pos (effective * weight * 10 ^ 10) (effective * weight * percent),
        plus_pos making stone,
        times_pos (making + stone) (10 ^ 21),
        plus_pos (effective * weight * 10 ^ 10 + effective * weight * percent)
            ((making + stone) * 10 ^ 21),
      )
      refl

exact_price_mono :
    (rate lighter heavier percent extras : ℕ)
    → lighter ≤ heavier
    → exact_price rate lighter percent extras ≤ exact_price rate heavier percent extras
exact_price_mono rate lighter heavier percent extras h =
    let metal = mul-le-mul_left rate h in
    let priced = mul-le-mul_right (10 ^ 10) metal in
    let margin = mul-le-mul_right percent metal in omega arith

-- Of two pieces that differ in weight alone the heavier does not sell for less, when the rate, the
-- markup, the margin, the making charge and the stone value are not negative.
pub calculate_price_mono :
    (karat : Karat) (rate lighter heavier percent making markup stone : ℕ)
    → lighter ≤ heavier
    → (calculate_price (item karat rate lighter percent making markup stone)).final_price
      ≤ℤ (calculate_price (item karat rate heavier percent making markup stone)).final_price
unfolding round_money
calculate_price_mono karat rate lighter heavier percent making markup stone h =
    let effective = rate * purity karat + markup * 10 ^ 3 in
    let mono =
      half_up_mono cent_29 _ _ (omega arith)
        (exact_price_mono effective lighter heavier percent (making + stone) h) in
    rw
      (
        final_price_lem karat rate lighter percent making markup stone,
        final_price_lem karat rate heavier percent making markup stone,
      )
      (omega arith)

-- ===== src/Pricing/Buyback.antt =====
-- The shop never pays more than the gold is worth: app/core/pricing.py.
use native.Mathlib.Nat.{mul-le-mul_right, mul-le-mul_left}
use jewelry_backend.Common.{
  ℕ, ◌+◌, ◌*◌, ◌/◌, ◌%◌, ◌^◌, ◌≤◌, ◌<◌, ◌≡◌, suc, true, false, refl, sym, arith, ok, String, str_eq,
  Bool-cases, inl, inr, leb,
}
use jewelry_backend.Common.Int.{ℤ, pos, negsuc, ◌≤ℤ◌, ◌-ℤ◌, ◌*ℤ◌, leb_ℤ, int_laws}
use jewelry_backend.Money.{round_money, half_up}
use jewelry_backend.Money.Rounding.{half_up_near}
use jewelry_backend.Pricing.{
  Bought, BuybackPrice, Karat, k18, k21, k22, k24, karat_purity, cent_29, effective_rate,
  compute_buyback_price,
}

half_up_is : (quantum n : ℕ) → (k : ℕ) × (half_up quantum n ≡ k * quantum)
unfolding half_up
half_up_is quantum n = elim (Bool-cases (leb quantum (2 * (n % quantum)))) [
  | inl up ↦ (n / quantum + 1, rw up refl)
  | inr down ↦ (n / quantum, rw down refl)
]

leb_holds : (a b : ℕ) → leb a b ≡ true → a ≤ b
leb_holds a b h = ground arith

leb_fails : (a b : ℕ) → leb a b ≡ false → suc b ≤ a
leb_fails a b h = ground arith

no_gap :
    (n m j k quantum : ℕ) {lower upper : ℕ}
    → n ≤ m
    → lower ≡ j * quantum
    → upper ≡ k * quantum
    → 2 * lower ≤ 2 * n + quantum
    → 2 * m < 2 * upper + quantum
    → suc k * quantum ≤ j * quantum
    → ⊥
no_gap n m j k quantum h a b c d e = grind arith

pub half_up_mono : (quantum n m : ℕ) → 0 < quantum → n ≤ m → half_up quantum n ≤ half_up quantum m
half_up_mono quantum n m positive h =
    let (j, lower) = half_up_is quantum n in
    let (k, upper) = half_up_is quantum m in
    let near_n = half_up_near quantum n positive in
    let near_m = half_up_near quantum m positive in
    elim (Bool-cases (leb j k)) [
      | inl low ↦ rw (lower, upper) (mul-le-mul_right quantum (leb_holds j k low))
      | inr high ↦
          let step : suc k * quantum ≤ j * quantum =
            mul-le-mul_right quantum (leb_fails j k high) in
          absurd (no_gap n m j k quantum h lower upper near_n.0 near_m.1 step)
    ]

pub times_pos : (a b : ℕ) → pos a *ℤ pos b ≡ pos (a * b)
unfolding ◌*ℤ◌
times_pos a b = ground arith

times_negsuc : (a b : ℕ) → (negsuc a *ℤ pos b ≤ℤ pos 0) × (pos b *ℤ negsuc a ≤ℤ pos 0)
unfolding ◌*ℤ◌
times_negsuc a b = (ground arith, ground arith)

-- A factor that is not negative keeps a bound.
times_bound_left : (x : ℤ) (p c : ℕ) → x ≤ℤ pos p → x *ℤ pos c ≤ℤ pos (p * c)
times_bound_left (pos k) p c h =
    let fewer : k ≤ p = omega arith in
    let step = mul-le-mul_right c fewer in rw (times_pos k c) (omega arith)
times_bound_left (negsuc k) p c h = let below = (times_negsuc k c).0 in omega arith

times_bound_right : (y : ℤ) (p c : ℕ) → y ≤ℤ pos c → pos p *ℤ y ≤ℤ pos (p * c)
times_bound_right (pos k) p c h =
    let fewer : k ≤ c = omega arith in
    let step = mul-le-mul_left p fewer in rw (times_pos p k) (omega arith)
times_bound_right (negsuc k) p c h = let below = (times_negsuc k p).1 in omega arith

sub_bound : (a : ℤ) (b : ℕ) → a -ℤ pos b ≤ℤ a
sub_bound a b = omega int_laws

-- A purity in thousandths, as a number.
abbrev pub purity : Karat → ℕ
purity k18 = 750
purity k21 = 875
purity k22 = 917
purity k24 = 999

pub purity_lem : (k : Karat) → karat_purity k ≡ pos (purity k)
purity_lem k18 = refl
purity_lem k21 = refl
purity_lem k22 = refl
purity_lem k24 = refl

-- A purchase whose rate, weight and margin are not negative.
abbrev pub bought : String → Karat → ℕ → ℕ → ℕ → Bought
bought mode karat rate weight margin = record {
  rate_24k = pos rate;
  karat = karat;
  weight_grams = pos weight;
  margin_mode = mode;
  margin_value = pos margin;
}

effective_rate_bound :
    (mode : String) (karat : Karat) (rate weight margin : ℕ)
    → effective_rate (bought mode karat rate weight margin) ≤ℤ pos (rate * purity karat * 10 ^ 10)
unfolding effective_rate
effective_rate_bound mode karat rate weight margin =
    let full = times_pos rate (purity karat) in
    rw (purity_lem karat, full)
      (elim (Bool-cases (str_eq mode "USD_PER_GRAM")) [
        | inl usd ↦
            rw (usd, times_pos margin (10 ^ 3))
              (times_bound_left _ (rate * purity karat) (10 ^ 10)
                (sub_bound (pos (rate * purity karat)) (margin * 10 ^ 3)))
        | inr percent ↦
            rw percent (
              times_bound_right _ (rate * purity karat) (10 ^ 10)
                (sub_bound (pos (10 ^ 10)) margin))
      ])

-- What a price that is computed has checked.
compute_buyback_price_ok :
    (b : Bought) (price : BuybackPrice)
    → compute_buyback_price b ≡ ok price
    → (leb_ℤ (effective_rate b) (pos 0) ≡ false)
      × (round_money cent_29 (effective_rate b *ℤ b.weight_grams) ≡ price.buy_price)
unfolding compute_buyback_price
compute_buyback_price_ok b price h = ground arith

-- The rounded value of a quantity of gold at a rate up to `bound`.
rounded_bound :
    (e : ℤ) (bound weight : ℕ)
    → leb_ℤ e (pos 0) ≡ false
    → e ≤ℤ pos bound
    → (pos 0 ≤ℤ round_money cent_29 (e *ℤ pos weight))
      × (round_money cent_29 (e *ℤ pos weight) ≤ℤ round_money cent_29 (pos (bound * weight)))
unfolding round_money
rounded_bound (pos n) bound weight h k =
    let fewer : n ≤ bound = omega arith in
    let mono =
      half_up_mono cent_29 (n * weight) (bound * weight) (omega arith)
        (mul-le-mul_right weight fewer) in
    rw (times_pos n weight) (omega arith, omega arith)
rounded_bound (negsuc n) bound weight h k = absurd (ground arith)

-- The shop buys at a price from zero up to the rounded value of the pure gold at the day's rate,
-- whatever the mode of the margin, when the rate, the weight and the margin are not negative.
pub compute_buyback_price-within :
    (mode : String) (karat : Karat) (rate weight margin : ℕ) (price : BuybackPrice)
    → compute_buyback_price (bought mode karat rate weight margin) ≡ ok price
    → (pos 0 ≤ℤ price.buy_price)
      × (price.buy_price ≤ℤ round_money cent_29 (pos (rate * purity karat * 10 ^ 10 * weight)))
compute_buyback_price-within mode karat rate weight margin price h =
    let b = bought mode karat rate weight margin in
    let (positive, price_is) = compute_buyback_price_ok b price h in
    let within =
      rounded_bound (effective_rate b) (rate * purity karat * 10 ^ 10) weight positive
        (effective_rate_bound mode karat rate weight margin) in
    rw (sym price_is) within

-- ===== src/Money/Rounding.antt =====
-- Rounding goes to a nearest multiple of the quantum, and leaves multiples alone.
use native.Mathlib.Nat.{mul-mod_left, zero-mod}
use jewelry_backend.Common.Int.{pos, negsuc}
use jewelry_backend.Common.{ℕ, zero, suc, ap, ◌+◌, ◌*◌, ◌/◌, ◌%◌, ◌≤◌, ◌<◌, ◌≡◌, arith}
use jewelry_backend.Money.{Decimal, half_up, half_even, negate, by_sign, quantize}

module _ (quantum n : ℕ) (positive : 0 < quantum) where
  pub half_up_near :
      (2 * half_up quantum n ≤ 2 * n + quantum) × (2 * n < 2 * half_up quantum n + quantum)
  unfolding half_up
  half_up_near = ground arith

  pub half_even_near :
      (2 * half_even quantum n ≤ 2 * n + quantum) × (2 * n ≤ 2 * half_even quantum n + quantum)
  unfolding half_even
  half_even_near = ground arith

  pub half_even_multiple : half_even quantum n % quantum ≡ 0
  unfolding half_even
  half_even_multiple = ground (
    arith,
    mul-mod_left (n / quantum) quantum,
    mul-mod_left (n / quantum + 1) quantum,
    mul-mod_left (n / quantum + n / quantum % 2) quantum,
  )

  pub half_even_self : n % quantum ≡ 0 → half_even quantum n ≡ n
  unfolding half_even
  half_even_self h = ground arith

by_sign_fixed : (f : ℕ → ℕ) (a : ℕ) → f zero ≡ zero → f a ≡ a → by_sign f (negate a) ≡ negate a
by_sign_fixed f zero h k = ap pos h
by_sign_fixed f (suc a) h k = ap negate k

-- Quantizing twice is quantizing once, so a stored amount reads back as it was hashed.
pub quantize_twice :
    (quantum : ℕ) (a : Decimal)
    → 0 < quantum
    → quantize quantum (quantize quantum a) ≡ quantize quantum a
unfolding quantize
quantize_twice quantum (pos n) h =
    ap pos (half_even_self quantum (half_even quantum n) h (half_even_multiple quantum n h))
quantize_twice quantum (negsuc n) h =
    by_sign_fixed (half_even quantum) (half_even quantum (suc n))
      (half_even_self quantum 0 h (zero-mod quantum))
      (half_even_self quantum (half_even quantum (suc n)) h (half_even_multiple quantum (suc n) h))

-- ===== src/Money.antt =====
-- Exact amounts and their rounding: app/core/money.py, and the `quantize` calls of the other
-- modules. A `Decimal` is an integer that counts units of a scale that its context fixes; a
-- quantum is the number of units to which a value is rounded.
pub mod Rounding
use jewelry_backend.Common.{
  ℕ, zero, suc, ◌+◌, ◌*◌, ◌/◌, ◌%◌, Bool, String, ltb, leb, ◌==◌, if◌then◌else◌,
}
use mathlib.Core.Bool.{xor, true, false}
use jewelry_backend.Common.Int.{ℤ, pos, negsuc}

-- Amounts that are stored or computed, in units of a scale.
abbrev pub Decimal : Type 0
Decimal = ℤ

-- ROUND_HALF_UP of a magnitude to a multiple of `quantum`.
unfoldable pub half_up : ℕ → ℕ → ℕ
half_up quantum n =
    if leb quantum (2 * (n % quantum)) then (n / quantum + 1) * quantum else n / quantum * quantum

-- ROUND_HALF_EVEN, the default of Python's decimal context.
unfoldable pub half_even : ℕ → ℕ → ℕ
half_even quantum n =
    if ltb quantum (2 * (n % quantum))
    then (n / quantum + 1) * quantum
    else if quantum == 2 * (n % quantum)
    then (n / quantum + n / quantum % 2) * quantum
    else n / quantum * quantum

-- Minus `n`; there is one zero, as `abs(q) if q.is_zero()` makes it.
abbrev pub negate : ℕ → ℤ
negate zero = pos 0
negate (suc n) = negsuc n

-- Rounding is symmetric about zero.
abbrev pub by_sign : (ℕ → ℕ) → ℤ → ℤ
by_sign f (pos n) = pos (f n)
by_sign f (negsuc n) = negate (f (suc n))

-- `value.quantize(quantum)`
unfoldable pub quantize : ℕ → Decimal → Decimal
quantize quantum = by_sign (half_even quantum)

-- `round_money(value, quantum=quantum)` of an exact value
unfoldable pub round_money : ℕ → Decimal → Decimal
round_money quantum = by_sign (half_up quantum)

-- The magnitude and the sign of a number.
abbrev pub magnitude : ℤ → ℕ
magnitude (pos n) = n
magnitude (negsuc n) = suc n

abbrev pub is_negative : ℤ → Bool
is_negative (pos n) = false
is_negative (negsuc n) = true

-- `n / d` to a nearest whole number, ties to the even one
unfoldable pub nearest : ℕ → ℕ → ℕ
nearest n d = half_even d n / d

-- `(a / b).quantize(quantum)` of the exact quotient. The amounts are of one scale, `quantum` of
-- their units; with `b` zero it is zero, where the source raises.
unfoldable pub quantize_quotient : ℕ → Decimal → Decimal → Decimal
unfolding nearest
quantize_quotient quantum a b =
    let size = nearest (magnitude a) (magnitude b * quantum) * quantum in
    if xor (is_negative a) (is_negative b) then negate size else pos size

-- `(a * b).quantize(quantum)` of an amount and a number of units of 10^-8
unfoldable pub quantize_product : ℕ → Decimal → Decimal → Decimal
unfolding nearest
quantize_product quantum a b =
    let size = nearest (magnitude a * magnitude b) (100_000_000 * quantum) * quantum in
    if xor (is_negative a) (is_negative b) then negate size else pos size

-- ===== src/Gl/Cents.antt =====
-- Amounts in whole cents, as the MONEY columns store them: what rounding, sums and differences keep.
use native.Mathlib.Nat.{mul-mod_left}
use mathlib.Core.Bool.{xor}
use jewelry_backend.Common.{
  ℕ, zero, suc, ◌*◌, ◌%◌, ◌≡◌, refl, ap, ◌∙◌, Bool, true, false, List, [], ◌∷◌, ◌++◌, arith,
  if◌then◌else◌,
}
use jewelry_backend.Common.Int.{pos, negsuc, ◌+ℤ◌, ◌-ℤ◌, int_laws, +ℤ_comm}
use jewelry_backend.Money.{
  Decimal, quantize, half_even, negate, quantize_quotient, magnitude, is_negative,
}
use jewelry_backend.Money.Rounding.{half_even_multiple, half_even_self}
use jewelry_backend.Gl.Lines.{q_money, sum_of}

-- An amount in whole cents.
abbrev pub IsCents : Decimal → Type 0
IsCents a = magnitude a % q_money ≡ 0

magnitude-negate : (n : ℕ) → magnitude (negate n) ≡ n
magnitude-negate zero = refl
magnitude-negate (suc n) = refl

pub quantize-IsCents : (a : Decimal) → IsCents (quantize q_money a)
unfolding quantize
quantize-IsCents (pos n) = half_even_multiple q_money n (omega arith)
quantize-IsCents (negsuc n) =
    ap (λ (m : ℕ). m % q_money) (magnitude-negate (half_even q_money (suc n)))
    ∙ half_even_multiple q_money (suc n) (omega arith)

signed-IsCents :
    (minus : Bool) (k : ℕ) → IsCents (if minus then negate (k * q_money) else pos (k * q_money))
signed-IsCents true k =
    ap (λ (m : ℕ). m % q_money) (magnitude-negate (k * q_money)) ∙ mul-mod_left k q_money
signed-IsCents false k = mul-mod_left k q_money

pub quantize_quotient-IsCents : (a b : Decimal) → IsCents (quantize_quotient q_money a b)
unfolding quantize_quotient
quantize_quotient-IsCents a b = signed-IsCents (xor (is_negative a) (is_negative b)) _

pub quantize_cents : (a : Decimal) → IsCents a → quantize q_money a ≡ a
unfolding quantize
quantize_cents (pos n) h = ap pos (half_even_self q_money n (omega arith) h)
quantize_cents (negsuc n) h = ap negate (half_even_self q_money (suc n) (omega arith) h)

pub add-IsCents : (a b : Decimal) → IsCents a → IsCents b → IsCents (a +ℤ b)
unfolding ◌+ℤ◌
add-IsCents a b h k = ground arith

pub sub-IsCents : (a b : Decimal) → IsCents a → IsCents b → IsCents (a -ℤ b)
unfolding ◌-ℤ◌
sub-IsCents a b h k = ground arith

pub sum_of-append {ℓ} :
    {A : Type ℓ} (f : A → Decimal) (xs ys : List A)
    → sum_of f (xs ++ ys) ≡ sum_of f xs +ℤ sum_of f ys
sum_of-append f [] ys = omega int_laws
sum_of-append f (x ∷ xs) ys = rw (sum_of-append f xs ys) (omega int_laws)

pub sum_of-snoc {ℓ} :
    {A : Type ℓ} (f : A → Decimal) (xs : List A) (x : A)
    → sum_of f (xs ++ x ∷ []) ≡ sum_of f xs +ℤ f x
sum_of-snoc f [] x = +ℤ_comm (f x) (pos 0)
sum_of-snoc f (y ∷ xs) x = let rest = sum_of-snoc f xs x in rw rest (omega int_laws)

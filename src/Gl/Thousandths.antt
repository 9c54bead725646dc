-- ===== src/Gl/Thousandths.antt =====
-- Amounts in whole thousandths, as the columns of three decimals hold them: weights of lots and
-- consumptions, balances of suppliers and payments. The database rounds a finer amount when it stores
-- it; the model stores it as it is, so that what is said of such columns is said of these amounts.
use jewelry_backend.Common.{◌%◌, ◌≡◌, arith}
use jewelry_backend.Common.Int.{◌+ℤ◌, ◌-ℤ◌}
use jewelry_backend.Money.{Decimal, magnitude}
use jewelry_backend.Gl.Lines.{q_grams}
use jewelry_backend.Gl.Cents.{IsCents}

-- An amount in whole thousandths.
abbrev pub IsThousandths : Decimal → Type 0
IsThousandths a = magnitude a % q_grams ≡ 0

pub add-IsThousandths : (a b : Decimal) → IsThousandths a → IsThousandths b → IsThousandths (a +ℤ b)
unfolding ◌+ℤ◌
add-IsThousandths a b h k = ground arith

pub sub-IsThousandths : (a b : Decimal) → IsThousandths a → IsThousandths b → IsThousandths (a -ℤ b)
unfolding ◌-ℤ◌
sub-IsThousandths a b h k = ground arith

pub cents-IsThousandths : (a : Decimal) → IsCents a → IsThousandths a
cents-IsThousandths a h = omega arith

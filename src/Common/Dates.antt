-- ===== src/Common/Dates.antt =====
-- Calendar dates and the numbers of documents. A number such as JE-20260131-007 is kept as its
-- parts; the text is only formatting.
use Prim.Native.Nat.{ℕ, zero, suc, ◌+◌, ◌-◌, ◌/◌, ◌%◌}
use mathlib.Core.Path.{◌≡◌, refl}
use mathlib.Core.Logic.{◌↔◌}
use mathlib.Core.Bool.{Bool, true, false, ◌&&◌, ◌||◌}
use text.Mathlib.Text.{◌==◌ as str_eq}
use text.Mathlib.TextEquality.{eq_iff}
use Prim.Native.String.{String, ◌++◌ as append}
use native.Mathlib.Omega.{arith}
use jewelry_backend.Common.Tests.{ltb, leb, ◌==◌, if◌then◌else◌}

pub record Date : Type 0 where
  pub year : ℕ
  pub month : ℕ
  pub day : ℕ

-- `a <= b` of two dates
abbrev pub date_leb : Date → Date → Bool
date_leb a b =
    ltb a.year b.year
    || a.year == b.year && (ltb a.month b.month || a.month == b.month && leb a.day b.day)

abbrev pub date_eq : Date → Date → Bool
date_eq a b = a.year == b.year && (a.month == b.month && a.day == b.day)

-- Decimal texts, as the format codes `d`, `02d` and `03d` write them.
digit : ℕ → String
digit zero = "0"
digit (suc zero) = "1"
digit (suc (suc zero)) = "2"
digit (suc (suc (suc zero))) = "3"
digit (suc (suc (suc (suc zero)))) = "4"
digit (suc (suc (suc (suc (suc zero))))) = "5"
digit (suc (suc (suc (suc (suc (suc zero)))))) = "6"
digit (suc (suc (suc (suc (suc (suc (suc zero))))))) = "7"
digit (suc (suc (suc (suc (suc (suc (suc (suc zero)))))))) = "8"
digit _ = "9"

-- `width` more digits at least; the fuel is the number itself, which falls by its last digit.
digits_from : ℕ → ℕ → ℕ → String → String
digits_from zero width n text = text
digits_from (suc fuel) width n text =
    let rest = digits_from fuel (width - 1) (n / 10) (append (digit (n % 10)) text) in
    if n == 0 && width == 0 then text else rest

unfoldable pub decimal_text : ℕ → ℕ → String
unfolding digit digits_from
decimal_text width n = digits_from (n + width) width n ""

pub record DocNo : Type 0 where
  pub series : String
  pub day : Date
  pub seq : ℕ

-- The key of a counter row: the series and the day.
abbrev pub same_day_key : DocNo → DocNo → Bool
same_day_key a b = str_eq a.series b.series && date_eq a.day b.day

-- "JE-20260131-007"
unfoldable pub doc_no_text : DocNo → String
unfolding decimal_text
doc_no_text n = append n.series (
    append "-" (
      append (decimal_text 4 n.day.year) (
        append (decimal_text 2 n.day.month)
          (append (decimal_text 2 n.day.day) (append "-" (decimal_text 3 n.seq))))))

abbrev pub doc_no_eq : DocNo → DocNo → Bool
doc_no_eq a b = same_day_key a b && a.seq == b.seq

pub date_eq_iff : (a b : Date) → (date_eq a b ≡ true) ↔ (a ≡ b)
date_eq_iff a b = ground arith

pub and_true : (a b : Bool) → (a && b) ≡ true → (a ≡ true) × (b ≡ true)
and_true true b h = (refl, h)
and_true false b h = cc

-- Numbers of one day have the same key as any other number.
pub same_day_key-eq :
    (a b : DocNo) → same_day_key a b ≡ true → (a.series ≡ b.series) × (a.day ≡ b.day)
same_day_key-eq a b h =
    let parts = and_true (str_eq a.series b.series) (date_eq a.day b.day) h in
    ((eq_iff a.series b.series).0 parts.0, (date_eq_iff a.day b.day).0 parts.1)

pub same_day_key_trans :
    (a b c : DocNo) → same_day_key a b ≡ true → same_day_key a c ≡ same_day_key b c
same_day_key_trans a b c h =
    let (same_series, same_day) = same_day_key-eq a b h in
    λ i. str_eq (same_series i) c.series && date_eq (same_day i) c.day

pub same_day_key-true :
    (a b : DocNo) → a.series ≡ b.series → a.day ≡ b.day → same_day_key a b ≡ true
same_day_key-true a b same_series same_day =
    rw ((eq_iff a.series b.series).1 same_series, (date_eq_iff a.day b.day).1 same_day)

pub doc_no_eq-eq : (a b : DocNo) → doc_no_eq a b ≡ true → a ≡ b
doc_no_eq-eq a b h =
    let parts = and_true (same_day_key a b) (a.seq == b.seq) h in
    let (same_series, same_day) = same_day_key-eq a b parts.0 in
    let same_seq : a.seq ≡ b.seq = seq_eq a.seq b.seq parts.1 in
    λ i. record { series = same_series i; day = same_day i; seq = same_seq i }
  where
    seq_eq : (m n : ℕ) → (m == n) ≡ true → m ≡ n
    seq_eq m n e = ground arith

doc_no_text_example :
    doc_no_text
      (record { series = "JE"; day = record { year = 2026; month = 1; day = 31 }; seq = 7 })
    ≡ "JE-20260131-007"
unfolding doc_no_text
doc_no_text_example = refl

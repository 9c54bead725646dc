-- ===== src/Gl/Lines.antt =====
-- `GLLine`, `validate_balanced` and the normalisation of a line, in app/core/gl.py.
use Prim.Native.Nat.{Ordering}
use Prim.Native.String.{compare as compare_text}
use jewelry_backend.Common.{
  ℕ, Bool, true, false, ◌||◌, ◌&&◌, Option, none, some, List, [], ◌∷◌, ◌++◌, String, str_eq,
  if◌then◌else◌,
}
use jewelry_backend.Common.Int.{pos, ◌+ℤ◌, eq_ℤ, nonzero}
use jewelry_backend.Money.{Decimal, quantize}

-- `unset` is the empty text of a line whose denomination the posting resolves.
pub data Denomination : Type 0 where
  money metal dual unset : Denomination

abbrev pub is_money : Denomination → Bool
is_money money = true
is_money _ = false

abbrev pub is_metal : Denomination → Bool
is_metal metal = true
is_metal _ = false

pub record GlLine : Type 0 where
  pub account_id : String
  pub denomination : Denomination
  pub base_debit : Decimal
  pub base_credit : Decimal
  pub money_debit : Decimal
  pub money_credit : Decimal
  pub currency : String
  pub fx_rate : Decimal
  pub metal_debit_grams : Decimal
  pub metal_credit_grams : Decimal
  pub karat : Option String
  pub memo : String

abbrev pub has_money : GlLine → Bool
has_money ln =
    nonzero ln.base_debit
    || (nonzero ln.base_credit || (nonzero ln.money_debit || nonzero ln.money_credit))

abbrev pub has_metal : GlLine → Bool
has_metal ln = nonzero ln.metal_debit_grams || nonzero ln.metal_credit_grams

-- `sum((f(ln) for ln in lines), ZERO)`; the sums are exact, so their order is of no account.
abbrev pub sum_of {ℓ} : {A : Type ℓ} → (A → Decimal) → List A → Decimal
sum_of f [] = pos 0
sum_of f (x ∷ xs) = f x +ℤ sum_of f xs

-- `ln.karat == k`
abbrev pub tag_is : String → Option String → Bool
tag_is k none = false
tag_is k (some j) = str_eq j k

abbrev pub karat_is : String → GlLine → Bool
karat_is k ln = tag_is k ln.karat

-- The grams of a line where its karat is `k`.
abbrev pub debit_at : String → GlLine → Decimal
debit_at k ln = if karat_is k ln then ln.metal_debit_grams else pos 0

abbrev pub credit_at : String → GlLine → Decimal
credit_at k ln = if karat_is k ln then ln.metal_credit_grams else pos 0

pub data LineError : Type 0 where
  no_lines : LineError
  money_unbalanced : Decimal → Decimal → LineError
  metal_unbalanced : String → Decimal → Decimal → LineError
  metal_on_money_account : String → LineError
  money_on_metal_account : String → LineError
  karat_required : String → LineError

-- `str(x)` of a karat that may be None
abbrev pub karat_text : Option String → String
karat_text none = "None"
karat_text (some k) = k

-- Python compares texts by their code points.
abbrev str_before : String → String → Bool
str_before a b = elim (compare_text a b) [ Ordering.lt ↦ true | _ ↦ false ]

-- One more text in a sorted list without repetitions.
unfoldable pub insert_sorted : String → List String → List String
insert_sorted k [] = k ∷ []
insert_sorted k (j ∷ js) =
    if str_eq k j then j ∷ js else if str_before k j then k ∷ j ∷ js else j ∷ insert_sorted k js

-- `sorted(str(x) for x in karats)` of the set of the karats that carry metal
unfoldable pub karats : List GlLine → List String
unfolding insert_sorted
karats [] = []
karats (ln ∷ lines) =
    if has_metal ln then insert_sorted (karat_text ln.karat) (karats lines) else karats lines

unfoldable pub money_errors : List GlLine → List LineError
money_errors lines =
    let money_debit = sum_of GlLine.base_debit lines in
    let money_credit = sum_of GlLine.base_credit lines in
    if eq_ℤ money_debit money_credit then [] else money_unbalanced money_debit money_credit ∷ []

unfoldable pub metal_errors : List GlLine → List String → List LineError
metal_errors lines [] = []
metal_errors lines (k ∷ ks) =
    let kd = sum_of (debit_at k) lines in
    let kc = sum_of (credit_at k) lines in
    if eq_ℤ kd kc then metal_errors lines ks else metal_unbalanced k kd kc ∷ metal_errors lines ks

-- `not karat`: None or the empty text
abbrev pub lacks_karat : Option String → Bool
lacks_karat none = true
lacks_karat (some k) = str_eq k ""

abbrev pub error_if : Bool → LineError → List LineError
error_if true e = e ∷ []
error_if false e = []

unfoldable pub line_errors : List GlLine → List LineError
line_errors [] = []
line_errors (ln ∷ lines) =
    error_if (is_money ln.denomination && has_metal ln) (metal_on_money_account ln.account_id)
    ++ (error_if (is_metal ln.denomination && has_money ln) (money_on_metal_account ln.account_id)
        ++ (error_if (has_metal ln && lacks_karat ln.karat) (karat_required ln.account_id)
            ++ line_errors lines))

unfoldable pub validate_balanced : List GlLine → List LineError
validate_balanced [] = no_lines ∷ []
validate_balanced (ln ∷ rest) =
    let lines = ln ∷ rest in
    money_errors lines ++ (metal_errors lines (karats lines) ++ line_errors lines)

-- The quanta of the columns, in units of 10^-8.
abbrev pub q_money : ℕ
q_money = 1_000_000

abbrev pub q_fx : ℕ
q_fx = 100

abbrev pub q_grams : ℕ
q_grams = 100_000

abbrev pub one : Decimal
one = pos 100_000_000

unfoldable pub normalize_line_decimals : GlLine → GlLine
unfolding quantize
normalize_line_decimals ln = record ln {
  base_debit = quantize q_money ln.base_debit;
  base_credit = quantize q_money ln.base_credit;
  money_debit = quantize q_money ln.money_debit;
  money_credit = quantize q_money ln.money_credit;
  fx_rate = quantize q_fx ln.fx_rate;
  metal_debit_grams = quantize q_grams ln.metal_debit_grams;
  metal_credit_grams = quantize q_grams ln.metal_credit_grams;
}

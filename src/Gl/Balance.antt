-- ===== src/Gl/Balance.antt =====
-- `validate_balanced` accepts exactly the entries that balance, in USD base and in grams per karat.
use jewelry_backend.Common.{
  ◌≡◌, ◌≢◌, ◌↔◌, ◌⊎◌, inl, inr, refl, sym, ◌∙◌, Bool, true, false, ◌||◌, Option, none, some, List,
  [], ◌∷◌, ◌++◌, String, str_eq, eq_iff, arith, Bool-cases, All,
}
use jewelry_backend.Common.Int.{pos, ◌+ℤ◌, eq_ℤ, eq_ℤ_iff, nonzero-false}
use jewelry_backend.Money.{Decimal}
use jewelry_backend.Gl.Lines.{
  GlLine, money, metal, has_money, has_metal, sum_of, tag_is, karat_is, debit_at, credit_at,
  karat_text, insert_sorted, karats, money_errors, metal_errors, line_errors, lacks_karat,
  validate_balanced,
}

-- What a line of an account of its denomination may carry.
pub record Fits (ln : GlLine) : Type 0 where
  pub money_only : ln.denomination ≡ money → has_metal ln ≡ false
  pub metal_only : ln.denomination ≡ metal → has_money ln ≡ false
  pub with_karat : has_metal ln ≡ true → lacks_karat ln.karat ≡ false

abbrev pub KaratBalanced : List GlLine → String → Type 0
KaratBalanced lines k = sum_of (debit_at k) lines ≡ sum_of (credit_at k) lines

-- A balanced journal entry. The grams balance for every karat, also for one that no line names.
pub record IsBalanced (lines : List GlLine) : Type 0 where
  pub nonempty : lines ≢ []
  pub money_balance : sum_of GlLine.base_debit lines ≡ sum_of GlLine.base_credit lines
  pub metal_balance : (k : String) → KaratBalanced lines k
  pub fits : All Fits lines

abbrev member : String → List String → Bool
member k [] = false
member k (j ∷ js) = str_eq k j || member k js

member-insert_sorted :
    (k j : String) (js : List String) → member k (insert_sorted j js) ≡ (str_eq k j || member k js)
unfolding insert_sorted
member-insert_sorted k j [] = refl
member-insert_sorted k j (i ∷ js) =
    ground (arith, eq_iff k j, eq_iff j i, eq_iff k i, member-insert_sorted k j js)

grams_absent :
    (k : String) (ln : GlLine)
    → (has_metal ln ≡ false) ⊎ (karat_is k ln ≡ false)
    → (debit_at k ln ≡ pos 0) × (credit_at k ln ≡ pos 0)
grams_absent k ln h =
    ground (arith, nonzero-false ln.metal_debit_grams, nonzero-false ln.metal_credit_grams)

tag_is-text :
    (k : String) (c : Option String) → str_eq k (karat_text c) ≡ false → tag_is k c ≡ false
tag_is-text k none h = refl
tag_is-text k (some j) h = ground (arith, eq_iff k j, eq_iff j k)

karat_is-text :
    (k : String) (ln : GlLine) → str_eq k (karat_text ln.karat) ≡ false → karat_is k ln ≡ false
karat_is-text k ln h = tag_is-text k ln.karat h

or_false : (a b : Bool) → (a || b) ≡ false → (a ≡ false) × (b ≡ false)
or_false a b h = ground arith

add_zero_pair :
    {a b c d : Decimal}
    → (a ≡ pos 0) × (b ≡ pos 0)
    → (c ≡ pos 0) × (d ≡ pos 0)
    → (a +ℤ c ≡ pos 0) × (b +ℤ d ≡ pos 0)
unfolding ◌+ℤ◌
add_zero_pair h k = (rw (h.0, k.0), rw (h.1, k.1))

-- A karat that the set lacks has no grams on either side.
absent_karat :
    (k : String) (lines : List GlLine)
    → member k (karats lines) ≡ false
    → (sum_of (debit_at k) lines ≡ pos 0) × (sum_of (credit_at k) lines ≡ pos 0)
unfolding karats
absent_karat k [] h = (refl, refl)
absent_karat k (ln ∷ lines) h =
    let present = member-insert_sorted k (karat_text ln.karat) (karats lines) in
    let tail = absent_karat k lines in
    let head = grams_absent k ln in
    elim (Bool-cases (has_metal ln)) [
      | inl metal_line ↦
          let split = or_false _ _ (sym present ∙ rw metal_line at h) in
          add_zero_pair (head (inr (karat_is-text k ln split.0))) (tail split.1)
      | inr plain ↦ add_zero_pair (head (inl plain)) (tail (rw plain at h))
    ]

metal_errors_sound :
    (lines : List GlLine) (ks : List String) (k : String)
    → metal_errors lines ks ≡ []
    → member k ks ≡ true
    → KaratBalanced lines k
unfolding metal_errors
metal_errors_sound lines [] k h m = cc
metal_errors_sound lines (j ∷ ks) k h m =
    let kd = sum_of (debit_at j) lines in
    let kc = sum_of (credit_at j) lines in
    elim (Bool-cases (eq_ℤ kd kc)) [
      | inl same ↦ elim (Bool-cases (str_eq k j)) [
        | inl this ↦ rw ((eq_iff k j).0 this) ((eq_ℤ_iff kd kc).0 same)
        | inr other ↦ metal_errors_sound lines ks k (rw same at h) (rw other at m)
      ]
      | inr differ ↦ cc (rw differ at h)
    ]

metal_errors_complete :
    (lines : List GlLine) (ks : List String)
    → ((k : String) → KaratBalanced lines k)
    → metal_errors lines ks ≡ []
unfolding metal_errors
metal_errors_complete lines [] h = refl
metal_errors_complete lines (k ∷ ks) h =
    rw ((eq_ℤ_iff _ _).1 (h k)) (metal_errors_complete lines ks h)

line_errors_sound : (lines : List GlLine) → line_errors lines ≡ [] → All Fits lines
unfolding line_errors
line_errors_sound [] h = tt
line_errors_sound (ln ∷ lines) h = ground (arith, line_errors_sound lines)

line_errors_complete : (lines : List GlLine) → All Fits lines → line_errors lines ≡ []
unfolding line_errors
line_errors_complete [] h = refl
line_errors_complete (ln ∷ lines) h = ground (arith, line_errors_complete lines h.1)

money_errors_iff :
    (lines : List GlLine)
    → (money_errors lines ≡ []) ↔ (sum_of GlLine.base_debit lines ≡ sum_of GlLine.base_credit lines)
unfolding money_errors
money_errors_iff lines =
    ground (arith, eq_ℤ_iff (sum_of GlLine.base_debit lines) (sum_of GlLine.base_credit lines))

append-eq-nil {ℓ} : {A : Type ℓ} (xs ys : List A) → xs ++ ys ≡ [] → (xs ≡ []) × (ys ≡ [])
append-eq-nil [] ys h = (refl, h)
append-eq-nil (x ∷ xs) ys h = cc

karat_balance :
    (lines : List GlLine)
    → metal_errors lines (karats lines) ≡ []
    → (k : String) → KaratBalanced lines k
karat_balance lines h k = elim (Bool-cases (member k (karats lines))) [
  | inl present ↦ metal_errors_sound lines (karats lines) k h present
  | inr absent ↦ let sums = absent_karat k lines absent in sums.0 ∙ sym sums.1
]

-- The errors are none exactly when the entry balances.
pub validate_balanced_iff :
    (lines : List GlLine) → (validate_balanced lines ≡ []) ↔ IsBalanced lines
unfolding validate_balanced
validate_balanced_iff [] = (λ h. cc, λ h. absurd (h.nonempty refl))
validate_balanced_iff (ln ∷ rest) =
    let lines : List GlLine = ln ∷ rest in
    let ks = karats lines in
    (
      λ h.
          let first =
            append-eq-nil (money_errors lines) (metal_errors lines ks ++ line_errors lines) h in
          let second = append-eq-nil (metal_errors lines ks) (line_errors lines) first.1 in
          record {
            nonempty = λ e. cc;
            money_balance = (money_errors_iff lines).0 first.0;
            metal_balance = karat_balance lines second.0;
            fits = line_errors_sound lines second.1;
          },
      λ b. rw (
        (money_errors_iff lines).1 b.money_balance,
        metal_errors_complete lines ks b.metal_balance,
        line_errors_complete lines b.fits,
      ),
    )

-- ===== src/Fx/Balanced.antt =====
-- A settlement balances in USD base, whatever the rates and the roundings.
use mathlib.Core.Path.{subst}
use jewelry_backend.Common.{
  ◌≡◌, refl, ap, false, List, [], ◌∷◌, ◌++◌, arith, if◌then◌else◌, ok, bind_inversion, str_eq,
  ok-injective, All, All-append, Bool-cases, inl, inr,
}
use jewelry_backend.Common.Int.{ℤ, pos, ◌+ℤ◌, ◌-ℤ◌, ◌*ℤ◌, int_laws, ltb_ℤ, eq_ℤ, nonzero}
use jewelry_backend.Money.{Decimal, quantize, quantize_product}
use jewelry_backend.Gl.Lines.{q_money, one, sum_of}
use jewelry_backend.Gl.Cents.{
  IsCents, quantize-IsCents, quantize_quotient-IsCents, quantize_cents, add-IsCents, sub-IsCents,
  sum_of-append,
}
use jewelry_backend.Fx.{
  Leg, Allocation, Settlement, divide, control_legs, cash_money, cash_leg, leg_debit, leg_credit,
  fx_plug, settlement_legs, require_allocations, same_currency, recorded_money,
}

abbrev LegCents : Leg → Type 0
LegCents l = IsCents l.base

sum_of-IsCents :
    (f : Leg → Decimal) (legs : List Leg)
    → ((l : Leg) → LegCents l → IsCents (f l))
    → All LegCents legs
    → IsCents (sum_of f legs)
sum_of-IsCents f [] each h = refl
sum_of-IsCents f (l ∷ legs) each h =
    add-IsCents (f l) (sum_of f legs) (each l h.0) (sum_of-IsCents f legs each h.1)

leg_debit-IsCents : (l : Leg) → LegCents l → IsCents (leg_debit l)
leg_debit-IsCents l h = elim (Bool-cases l.debit) [ inl yes' ↦ rw yes' h | inr no' ↦ rw no' refl ]

leg_credit-IsCents : (l : Leg) → LegCents l → IsCents (leg_credit l)
leg_credit-IsCents l h = elim (Bool-cases l.debit) [ inl yes' ↦ rw yes' refl | inr no' ↦ rw no' h ]

no_plug : (c d : ℤ) → ltb_ℤ (pos 0) (c -ℤ d) ≡ false → ltb_ℤ (c -ℤ d) (pos 0) ≡ false → d ≡ c
unfolding ◌-ℤ◌
no_plug c d h k = ground arith

-- The plug is the missing amount, on the side that misses it.
fx_plug_closes :
    (legs : List Leg)
    → All LegCents legs
    → sum_of leg_debit legs +ℤ sum_of leg_debit (fx_plug legs)
      ≡ sum_of leg_credit legs +ℤ sum_of leg_credit (fx_plug legs)
unfolding fx_plug
fx_plug_closes legs h =
    let credits = sum_of leg_credit legs in
    let debits = sum_of leg_debit legs in
    let same = quantize_cents (credits -ℤ debits) (
      sub-IsCents credits debits (sum_of-IsCents leg_credit legs leg_credit-IsCents h)
        (sum_of-IsCents leg_debit legs leg_debit-IsCents h)) in
    rw same (elim (Bool-cases (ltb_ℤ (pos 0) (credits -ℤ debits))) [
      | inl loss ↦ rw loss (omega int_laws)
      | inr no_loss ↦ elim (Bool-cases (ltb_ℤ (credits -ℤ debits) (pos 0))) [
        | inl gain ↦ rw (no_loss, gain) (omega int_laws)
        | inr no_gain ↦
            rw (no_loss, no_gain)
              (ap (λ (x : ℤ). x +ℤ pos 0) (no_plug credits debits no_loss no_gain))
      ]
    ])

fx_plug_balances :
    (legs : List Leg)
    → All LegCents legs
    → sum_of leg_debit (legs ++ fx_plug legs) ≡ sum_of leg_credit (legs ++ fx_plug legs)
fx_plug_balances legs h =
    rw (sum_of-append leg_debit legs (fx_plug legs), sum_of-append leg_credit legs (fx_plug legs))
      (fx_plug_closes legs h)

divide-IsCents : (a b : Decimal) {q : Decimal} → divide a b ≡ ok q → IsCents q
divide-IsCents a b {q} h = elim (Bool-cases (nonzero b)) [
  | inl some_rate ↦
      subst IsCents (ok-injective (rw some_rate at h)) (quantize_quotient-IsCents (a *ℤ one) b)
  | inr zero_rate ↦ cc (rw zero_rate at h)
]

control_legs-LegCents :
    (s : Settlement) (als : List Allocation) (legs : List Leg)
    → control_legs s als ≡ ok legs
    → All LegCents legs
unfolding control_legs
control_legs-LegCents s [] legs h = subst (All LegCents) (ok-injective h) tt
control_legs-LegCents s (al ∷ als) legs h =
    let (base, quotient, h1) =
      bind_inversion (divide (quantize q_money al.applied_money) al.invoice_fx_rate) _ h in
    let (rest, recursive, h2) = bind_inversion (control_legs s als) _ h1 in
    subst (All LegCents) (ok-injective h2)
      (divide-IsCents _ al.invoice_fx_rate quotient, control_legs-LegCents s als rest recursive)

cash_money-IsCents :
    (s : Settlement) (total money : Decimal) → cash_money s total ≡ ok money → IsCents money
unfolding cash_money
cash_money-IsCents s total money h =
    elim (Bool-cases (str_eq s.tender_currency s.recorded_currency)) [
      | inl same ↦ subst IsCents (ok-injective (rw same at h)) (quantize-IsCents total)
      | inr other ↦ elim (Bool-cases (str_eq s.recorded_currency "USD")) [
        | inl usd ↦
            subst IsCents (ok-injective (rw (other, usd) at h))
              (quantize-IsCents (quantize_product q_money total s.tender_fx_rate))
        | inr lbp ↦ cc (rw (other, lbp) at h)
      ]
    ]

cash_leg-LegCents :
    (s : Settlement) (total : Decimal) (leg : Leg) → cash_leg s total ≡ ok leg → LegCents leg
unfolding cash_leg
cash_leg-LegCents s total leg h =
    let (money, got, h1) = bind_inversion (cash_money s total) _ h in
    let (base, converted, h2) =
      bind_inversion (if eq_ℤ s.tender_fx_rate one then ok money else divide money s.tender_fx_rate)
        _ h1 in
    subst LegCents (ok-injective h2) (elim (Bool-cases (eq_ℤ s.tender_fx_rate one)) [
      | inl unit_rate ↦
          subst IsCents (ok-injective (rw unit_rate at converted))
            (cash_money-IsCents s total money got)
      | inr other_rate ↦ divide-IsCents money s.tender_fx_rate (rw other_rate at converted)
    ])

-- The legs that a settlement returns sum to the same USD base on both sides.
pub settlement_legs_balance :
    (s : Settlement) (legs : List Leg)
    → settlement_legs s ≡ ok legs
    → sum_of leg_debit legs ≡ sum_of leg_credit legs
unfolding settlement_legs
settlement_legs_balance s legs h =
    let (_, allocated, h1) = bind_inversion (require_allocations s.allocations) _ h in
    let (_, agreed, h2) = bind_inversion (same_currency s.recorded_currency s.allocations) _ h1 in
    let (control, relieved, h3) = bind_inversion (control_legs s s.allocations) _ h2 in
    let (cash, received, h4) = bind_inversion (cash_leg s (recorded_money s.allocations)) _ h3 in
    subst (λ ls. sum_of leg_debit ls ≡ sum_of leg_credit ls) (ok-injective h4)
      (fx_plug_balances (control ++ cash ∷ []) (
        All-append LegCents control (cash ∷ [])
          (control_legs-LegCents s s.allocations control relieved)
          (cash_leg-LegCents s (recorded_money s.allocations) cash received, tt)))

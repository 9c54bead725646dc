-- ===== src/Inventory/Lot/Weight.antt =====
-- The weight of a lot is accounted for: what remains and what its consumptions took add up to it.
use mathlib.Core.Path.{subst}
use mathlib.Core.Bool.{false≢true}
use jewelry_backend.Common.{
  ◌≡◌, ◌≢◌, refl, ap, sym, ◌∙◌, Bool, true, false, ◌||◌, Option, none, some, List, [], ◌∷◌, ◌++◌,
  String, str_eq, eq_iff, eq_refl, arith, if◌then◌else◌, ok, raise_if, raise_if-eq-ok,
  bind_inversion, ok-injective, find-test, Bool-cases, ◌⊎◌, All, All-append, find-All, inl, inr,
}
use jewelry_backend.Common.Int.{pos, ◌+ℤ◌, ◌-ℤ◌, ◌≤ℤ◌, leb_ℤ, ltb_ℤ, int_laws}
use jewelry_backend.Money.{Decimal}
use jewelry_backend.Audit.Ledger.{LedgerFields}
use jewelry_backend.Gl.Lines.{sum_of}
use jewelry_backend.Gl.Cents.{sum_of-snoc}
use jewelry_backend.Gl.Thousandths.{IsThousandths, sub-IsThousandths}
use jewelry_backend.Inventory.Lot.{
  Lot, Consumption, Stock, Request, Supply, lot_checks, debited, store_lot, consumption_of,
  record_events, consume_found, consume_from_lot, find_lot, grams_not_positive, lot_depleted,
}

-- What a lot row says of its weight.
pub record IsValid (lot : Lot) : Type 0 where
  pub nonneg : pos 0 ≤ℤ lot.weight_remaining_grams
  pub within : lot.weight_remaining_grams ≤ℤ lot.weight_grams
  pub flagged : lot.is_depleted ≡ leb_ℤ lot.weight_remaining_grams (pos 0)

-- The grams of a consumption where it is of lot `id`.
abbrev pub grams_of : String → Consumption → Decimal
grams_of id c = if str_eq c.lot_id id then c.grams else pos 0

pub record IsSound (stock : Stock) : Type 0 where
  pub valid : (id : String) (lot : Lot) → find_lot stock.lots id ≡ some lot → IsValid lot
  pub accounted :
      (id : String) (lot : Lot)
      → find_lot stock.lots id ≡ some lot
      → lot.weight_grams ≡ lot.weight_remaining_grams +ℤ sum_of (grams_of id) stock.consumptions

-- Every weight is in whole thousandths of a gram.
pub record InThousandths (stock : Stock) : Type 0 where
  pub lots :
      All
        (λ lot. IsThousandths lot.weight_grams × IsThousandths lot.weight_remaining_grams)
        stock.lots
  pub consumptions : All (λ c. IsThousandths c.grams) stock.consumptions

store_lot-All :
    (P : Lot → Type 0) (new : Lot) (lots : List Lot)
    → P new
    → All P lots
    → All P (store_lot new lots)
unfolding store_lot
store_lot-All P new [] h k = tt
store_lot-All P new (lot ∷ lots) h k = elim (Bool-cases (str_eq lot.id new.id)) [
  | inl this ↦ rw this (h, k.1)
  | inr other ↦ rw other (k.0, store_lot-All P new lots h k.1)
]

find_lot-store_self :
    (new : Lot) (lots : List Lot) {lot : Lot}
    → find_lot lots new.id ≡ some lot
    → find_lot (store_lot new lots) new.id ≡ some new
unfolding store_lot
find_lot-store_self new [] h = cc
find_lot-store_self new (lot ∷ lots) {lot = found} h =
    ground (arith, eq_refl new.id, find_lot-store_self new lots {lot = found})

find_lot-store_ne :
    (new : Lot) (lots : List Lot) (id : String)
    → new.id ≢ id
    → find_lot (store_lot new lots) id ≡ find_lot lots id
unfolding store_lot
find_lot-store_ne new [] id ne = refl
find_lot-store_ne new (lot ∷ lots) id ne = ground (
  arith,
  eq_iff lot.id new.id,
  eq_iff lot.id id,
  eq_iff new.id id,
  find_lot-store_ne new lots id ne,
)

or_false_right : (b : Bool) → (b || false) ≡ b
or_false_right true = refl
or_false_right false = refl

debited-IsValid :
    (lot : Lot) (grams : Decimal)
    → IsValid lot
    → leb_ℤ grams (pos 0) ≡ false
    → lot.is_depleted ≡ false
    → ltb_ℤ lot.weight_remaining_grams grams ≡ false
    → IsValid (debited lot grams)
unfolding debited
debited-IsValid lot grams v positive fresh enough = record {
  nonneg = grind (int_laws, v.nonneg);
  within = grind (int_laws, v.within);
  flagged = rw fresh (or_false_right _);
}

lot_checks-ok :
    (lot : Lot) (grams : Decimal) {u : Unit {0}}
    → lot_checks lot grams ≡ ok u
    → (lot.is_depleted ≡ false) × (ltb_ℤ lot.weight_remaining_grams grams ≡ false)
unfolding lot_checks
lot_checks-ok lot grams h =
    let (u, fresh, rest) = bind_inversion (raise_if lot.is_depleted lot_depleted) _ h in
    (raise_if-eq-ok _ _ fresh, raise_if-eq-ok _ _ rest)

some_eq {ℓ} : {A : Type ℓ} {a b : A} → some a ≡ some b → a ≡ b
some_eq h = cc

-- A row of the table after a debit is the debited one or a row of before.
after_cases :
    (lots : List Lot) (lot : Lot) (grams : Decimal)
    → find_lot lots lot.id ≡ some lot
    → (id : String) (lot' : Lot) → find_lot (store_lot (debited lot grams) lots) id ≡ some lot'
    → ((lot.id ≡ id) × (lot' ≡ debited lot grams))
      ⊎ ((lot.id ≢ id) × (find_lot lots id ≡ some lot'))
unfolding debited
after_cases lots lot grams found id lot' h = elim (Bool-cases (str_eq lot.id id)) [
  | inl this ↦
      let same = (eq_iff lot.id id).0 this in
      let new = find_lot-store_self (debited lot grams) lots found in
      inl (
        same,
        some_eq (
            sym h
            ∙ subst
                (λ (x : String).
                  find_lot (store_lot (debited lot grams) lots) x ≡ some (debited lot grams))
                same new),
      )
  | inr other ↦
      let differ : lot.id ≢ id = (λ e. false≢true (sym other ∙ (eq_iff lot.id id).1 e)) in
      inr (differ, sym (find_lot-store_ne (debited lot grams) lots id differ) ∙ h)
]

take_add : (a g s : Decimal) → a +ℤ s ≡ (a -ℤ g) +ℤ (s +ℤ g)
take_add a g s = omega int_laws

add_zero : (a : Decimal) → a +ℤ pos 0 ≡ a
add_zero a = omega int_laws

str_ne : (a b : String) → a ≢ b → str_eq a b ≡ false
str_ne a b ne = ground (arith, eq_iff a b)

-- The sums over one more consumption, of this lot and of another.
account_this :
    (lot : Lot) (grams : Decimal) (c : Consumption) (id : String) (cs : List Consumption)
    → c.lot_id ≡ id
    → c.grams ≡ grams
    → lot.weight_grams ≡ lot.weight_remaining_grams +ℤ sum_of (grams_of id) cs
    → (debited lot grams).weight_grams
      ≡ (debited lot grams).weight_remaining_grams +ℤ sum_of (grams_of id) (cs ++ c ∷ [])
unfolding debited
account_this lot grams c id cs same taken h =
    rw (sum_of-snoc (grams_of id) cs c, (eq_iff c.lot_id id).1 same, taken)
      (h ∙ take_add lot.weight_remaining_grams grams (sum_of (grams_of id) cs))

account_other :
    (c : Consumption) (id : String) (cs : List Consumption)
    → c.lot_id ≢ id
    → sum_of (grams_of id) (cs ++ c ∷ []) ≡ sum_of (grams_of id) cs
account_other c id cs differ =
    rw (sum_of-snoc (grams_of id) cs c, str_ne c.lot_id id differ) (add_zero _)

module _ (digest : String → LedgerFields → String) where
  found-ok :
      (stock : Stock) (r : Request) (supply : Supply) (row : Option Lot) {c : Consumption}
      {stock' : Stock}
      → consume_found digest stock r supply row ≡ ok (c, stock')
      → (lot : Lot) × (row ≡ some lot)
        × ((lot.is_depleted ≡ false)
            × (ltb_ℤ lot.weight_remaining_grams r.grams ≡ false)
            × (c ≡ consumption_of r supply lot)
            × (stock'.lots ≡ store_lot (debited lot r.grams) stock.lots)
            × (stock'.consumptions ≡ stock.consumptions ++ c ∷ []))
  unfolding consume_found
  found-ok stock r supply none h = cc
  found-ok stock r supply (some lot) {c} {stock'} h =
      let (u, checked, h1) = bind_inversion (lot_checks lot r.grams) _ h in
      let (ledger, recorded, h2) =
        bind_inversion
          (record_events digest stock.ledger r supply (consumption_of r supply lot)
            (debited lot r.grams))
          _ h1 in
      let (fresh, enough) = lot_checks-ok lot r.grams checked in
      let same = ok-injective h2 in
      let c_is = ap (λ (x : Consumption × Stock). x.0) (sym same) in
      (
        lot,
        refl,
        (
          fresh,
          enough,
          c_is,
          ap (λ (x : Consumption × Stock). x.1.lots) (sym same),
          ap (λ (x : Consumption × Stock). x.1.consumptions) (sym same)
              ∙ ap (λ (x : Consumption). stock.consumptions ++ x ∷ []) (sym c_is),
        ),
      )

  -- What a debit that succeeds has read, checked and written.
  pub consume_from_lot-ok :
      (stock : Stock) (r : Request) (supply : Supply) {c : Consumption} {stock' : Stock}
      → consume_from_lot digest stock r supply ≡ ok (c, stock')
      → (lot : Lot) × (find_lot stock.lots r.lot_id ≡ some lot)
        × (leb_ℤ r.grams (pos 0) ≡ false)
        × (lot.is_depleted ≡ false)
        × (ltb_ℤ lot.weight_remaining_grams r.grams ≡ false)
        × (c ≡ consumption_of r supply lot)
        × (stock'.lots ≡ store_lot (debited lot r.grams) stock.lots)
        × (stock'.consumptions ≡ stock.consumptions ++ c ∷ [])
  unfolding consume_from_lot
  consume_from_lot-ok stock r supply {c} {stock'} h =
      let (u, positive, found_ok) =
        bind_inversion (raise_if (leb_ℤ r.grams (pos 0)) grams_not_positive)
          (λ (u : Unit {0}). consume_found digest stock r supply (find_lot stock.lots r.lot_id))
          h in
      let (lot, found, rest) = found-ok stock r supply (find_lot stock.lots r.lot_id) found_ok in
      (lot, found, raise_if-eq-ok _ _ positive, rest.0, rest.1, rest.2, rest.3, rest.4)

  pub debit-IsSound :
      (stock : Stock) (r : Request) (supply : Supply) {c : Consumption} {stock' : Stock}
      → IsSound stock
      → consume_from_lot digest stock r supply ≡ ok (c, stock')
      → IsSound stock'
  debit-IsSound stock r supply {c} {stock'} s h =
      let (lot, found, positive, fresh, enough, c_is, lots_are, consumed) =
        consume_from_lot-ok stock r supply h in
      let same_id =
        (eq_iff lot.id r.lot_id).0
          (find-test (λ (x : Lot). str_eq x.id r.lot_id) stock.lots found) in
      let found_self =
        subst (λ (x : String). find_lot stock.lots x ≡ some lot) (sym same_id) found in
      let cases = λ (id : String) (lot' : Lot) (e : find_lot stock'.lots id ≡ some lot').
        after_cases stock.lots lot r.grams found_self id lot'
          (subst (λ (ls : List Lot). find_lot ls id ≡ some lot') lots_are e) in
      let lot_id_is = ap (λ (x : Consumption). x.lot_id) c_is in
      let grams_is = ap (λ (x : Consumption). x.grams) c_is in
      record {
        valid = λ id lot' e. elim (cases id lot' e) [
          | inl (same, new) ↦
              subst IsValid (sym new)
                (debited-IsValid lot r.grams (s.valid r.lot_id lot found) positive fresh enough)
          | inr (differ, old) ↦ s.valid id lot' old
        ];
        accounted = λ id lot' e. elim (cases id lot' e) [
          | inl (same, new) ↦
              rw (new, consumed)
                (account_this lot r.grams c id stock.consumptions (lot_id_is ∙ same) grams_is (
                  s.accounted id lot
                    (subst (λ (x : String). find_lot stock.lots x ≡ some lot) same found_self)))
          | inr (differ, old) ↦
              rw (consumed, account_other c id stock.consumptions (λ x. differ (sym lot_id_is ∙ x)))
                (s.accounted id lot' old)
        ];
      }

  -- A debit of whole thousandths of a gram, of a stock with such weights, keeps every lot row valid
  -- and every gram accounted for: the weight of each lot is what remains of it and what its
  -- consumptions took; and it leaves such weights.
  pub consume_from_lot-IsSound :
      (stock : Stock) (r : Request) (supply : Supply) {c : Consumption} {stock' : Stock}
      → IsSound stock
      → InThousandths stock
      → IsThousandths r.grams
      → consume_from_lot digest stock r supply ≡ ok (c, stock')
      → IsSound stock' × InThousandths stock'
  unfolding debited
  consume_from_lot-IsSound stock r supply {c} {stock'} s whole step h =
      let (lot, found, positive, fresh, enough, c_is, lots_are, consumed) =
        consume_from_lot-ok stock r supply h in
      let weights = find-All _ (λ (x : Lot). str_eq x.id r.lot_id) stock.lots whole.lots found in
      (
        debit-IsSound stock r supply s h,
        record {
          lots = rw lots_are (
              store_lot-All _ (debited lot r.grams) stock.lots
                (weights.0, sub-IsThousandths _ _ weights.1 step) whole.lots);
          consumptions = rw consumed (
              All-append _ stock.consumptions (c ∷ []) whole.consumptions
                (subst (λ (x : Consumption). IsThousandths x.grams) (sym c_is) step, tt));
        },
      )

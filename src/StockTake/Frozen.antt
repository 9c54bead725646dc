-- ===== src/StockTake/Frozen.antt =====
-- What an approval does to the stock, and that a closed take stays as it is.
use mathlib.Core.Path.{subst}
use jewelry_backend.Common.{
  ℕ, zero, suc, ◌*◌, ◌/◌, ◌≡◌, refl, ap, sym, ◌∙◌, true, false, not, ◌&&◌, Option, none, some, List,
  String, str_eq, eq_iff, arith, if◌then◌else◌, ok, bind_inversion, ok-injective, find, replace,
  Bool-cases, Option-cases, inl, inr, ap₂, find-replace_self, find-replace_other, find-test,
  raise_if,
}
use jewelry_backend.Common.Dates.{and_true}
use jewelry_backend.Common.Int.{ℤ, pos, negsuc, ◌≤ℤ◌, ◌+ℤ◌, ◌-ℤ◌, nonzero, ltb_ℤ}
use jewelry_backend.Money.{negate}
use jewelry_backend.StockTake.Units.{
  RefType, coin_stock, ounce_stock, UnitRow, Adjusted, Change, is_unit, find_unit, to_int, of_int,
  unit_scale, adjust_row, apply_unit_stock_adjustment_core, to_adjustment_target, is_integral,
  kind_of, same_ref,
}
use jewelry_backend.StockTake.Lines.{
  Line, Take, closed, has_id, is_submitted, is_pending, require_line, add_line, edit_line,
  remove_line,
}
use jewelry_backend.StockTake.Handlers.{
  approve_line, submit_stock_take, reject_line, pending_line, require_variance, change_of,
}
use jewelry_backend.StockTake.Steps.{
  IsValid, Step, added, edited, removed, submitted_step, approved_step, rejected_step,
  require_line-ok,
}
use jewelry_backend.StockTake.Valid.{pending_line-ok}
use jewelry_backend.Audit.Events.{Event}

-- The quantity on hand of a unit.
abbrev pub quantity : Option UnitRow → Option ℤ
quantity none = none
quantity (some row) = some row.on_hand_qty

abbrev pub on_hand : RefType → String → List UnitRow → Option ℤ
on_hand kind id units = quantity (find_unit kind id units)

to_int-negate : (m n : ℕ) → m ≡ suc n * unit_scale → to_int (negate m) ≡ negsuc n
to_int-negate zero n h = absurd (omega arith)
to_int-negate (suc m) n h =
    let quotient : suc m / unit_scale ≡ suc n = omega arith in ap negate quotient

to_int-of_int : (v : ℤ) → to_int (of_int v) ≡ v
to_int-of_int (pos n) = ap pos (omega arith)
to_int-of_int (negsuc n) = to_int-negate (suc n * unit_scale) n refl

integral_negate : (m n : ℕ) → m ≡ n * unit_scale → is_integral (negate m) ≡ true
integral_negate zero n h = refl
integral_negate (suc m) n h = ground arith

integral-of_int : (v : ℤ) → is_integral (of_int v) ≡ true
integral-of_int (pos n) = ground arith
integral-of_int (negsuc n) = integral_negate (suc n * unit_scale) (suc n) refl

same_ref-eq : (a b : RefType) → same_ref a b ≡ true → a ≡ b
same_ref-eq coin_stock coin_stock h = refl
same_ref-eq ounce_stock ounce_stock h = refl
same_ref-eq coin_stock ounce_stock h = cc
same_ref-eq ounce_stock coin_stock h = cc

-- Two tests that agree on one row are the same test.
is_unit_trans :
    (kind j : RefType) (id i : String) (row : UnitRow)
    → is_unit kind id row ≡ true
    → is_unit j i row ≡ (same_ref kind j && str_eq id i)
is_unit_trans kind j id i row h =
    let (same_kind, same_id) = and_true (same_ref row.kind kind) (str_eq row.id id) h in
    ap₂ (λ k x. same_ref k j && str_eq x i) (same_ref-eq row.kind kind same_kind)
      ((eq_iff row.id id).0 same_id)

-- One row is replaced: the quantities of the others are as before.
on_hand-replace :
    (kind j : RefType) (id i : String) (units : List UnitRow) (new : UnitRow) {old : UnitRow}
    → find_unit kind id units ≡ some old
    → is_unit kind id new ≡ true
    → on_hand j i (replace (is_unit kind id) new units)
      ≡ (if same_ref kind j && str_eq id i then some new.on_hand_qty else on_hand j i units)
on_hand-replace kind j id i units new found is_new =
    elim (Bool-cases (same_ref kind j && str_eq id i)) [
      | inl same ↦
          let (same_kind, same_id) = and_true (same_ref kind j) (str_eq id i) same in
          rw same (
            subst (λ k. on_hand k i (replace (is_unit kind id) new units) ≡ some new.on_hand_qty)
              (same_ref-eq kind j same_kind)
              (subst
                (λ x. on_hand kind x (replace (is_unit kind id) new units) ≡ some new.on_hand_qty)
                ((eq_iff id i).0 same_id)
                (ap quantity (find-replace_self (is_unit kind id) new units is_new found))))
      | inr other ↦ rw other (
          ap quantity (
            find-replace_other (is_unit kind id) (is_unit j i) new units
              (is_unit_trans kind j id i new is_new ∙ other)
              (λ row h. is_unit_trans kind j id i row h ∙ other)))
    ]

not_below : (n : ℤ) → ltb_ℤ n (pos 0) ≡ false → pos 0 ≤ℤ n
not_below n h = ground arith

pending_line_found :
    (line_id : String) (t : Take) {line : Line}
    → pending_line line_id t ≡ ok line
    → find (has_id line_id) t.lines ≡ some line
unfolding pending_line
pending_line_found line_id t {line} h =
    let (_, is_open, h1) = bind_inversion (raise_if (not (is_submitted t.status)) _) _ h in
    let (found, got, h2) = bind_inversion (require_line (find (has_id line_id) t.lines)) _ h1 in
    let (_, unresolved, h3) =
      bind_inversion (raise_if (not (is_pending found.resolution)) _) _ h2 in
    require_line-ok _ got ∙ ap some (ok-injective h3)

-- An adjustment that succeeds.
adjust_row_moves :
    (id : String) (kind : RefType) (c : Change) (units : List UnitRow) (a : Adjusted)
    → adjust_row id kind c units (find_unit kind c.target_id units) ≡ ok a
    → (before : ℤ) × (on_hand kind c.target_id units ≡ some before)
      × (pos 0 ≤ℤ before +ℤ to_int c.delta)
      × ((j : RefType) (i : String)
          → on_hand j i a.units ≡ (
              if same_ref kind j && str_eq c.target_id i
              then some (before +ℤ to_int c.delta)
              else on_hand j i units))
unfolding adjust_row
adjust_row_moves id kind c units a h = elim (Option-cases (find_unit kind c.target_id units)) [
  | inl missing ↦ cc (rw missing at h)
  | inr (row, found) ↦
      let adjusted = rw found at h in
      let new_qty = row.on_hand_qty +ℤ to_int c.delta in
      elim (Bool-cases (ltb_ℤ new_qty (pos 0))) [
        | inl low ↦ cc (rw low at adjusted)
        | inr enough ↦
            let units_are = ap Adjusted.units (ok-injective (rw enough at adjusted)) in
            let is_row = find-test (is_unit kind c.target_id) units found in
            (
              row.on_hand_qty,
              ap quantity found,
              not_below new_qty enough,
              λ j i.
                  ap (on_hand j i) (sym units_are)
                  ∙ on_hand-replace kind j c.target_id i units
                      (record row { on_hand_qty = new_qty }) found is_row,
            )
      ]
]

kind_of-to_adjustment_target : (kind : RefType) → kind_of (to_adjustment_target kind) ≡ ok kind
kind_of-to_adjustment_target coin_stock = refl
kind_of-to_adjustment_target ounce_stock = refl

core_moves :
    (id : String) (kind : RefType) (c : Change) (v : ℤ) (units : List UnitRow) (a : Adjusted)
    → c.target_type ≡ to_adjustment_target kind
    → c.delta ≡ of_int v
    → apply_unit_stock_adjustment_core id c units ≡ ok a
    → (before : ℤ) × (on_hand kind c.target_id units ≡ some before)
      × (pos 0 ≤ℤ before +ℤ v)
      × ((j : RefType) (i : String)
          → on_hand j i a.units ≡ (
              if same_ref kind j && str_eq c.target_id i
              then some (before +ℤ v)
              else on_hand j i units))
unfolding apply_unit_stock_adjustment_core
core_moves id kind c v units a target delta h =
    let (found_kind, kinds, h1) = bind_inversion (kind_of c.target_type) _ h in
    let same_kind : found_kind ≡ kind =
      ok-injective (sym kinds ∙ ap kind_of target ∙ kind_of-to_adjustment_target kind) in
    let integral : is_integral c.delta ≡ true = ap is_integral delta ∙ integral-of_int v in
    let row_moved : adjust_row id found_kind c units (find_unit found_kind c.target_id units)
        ≡ ok a =
      rw integral at h1 in
    let moves = adjust_row_moves id kind c units a (
      subst (λ k. adjust_row id k c units (find_unit k c.target_id units) ≡ ok a) same_kind
        row_moved) in
    subst
      (λ (w : ℤ).
        (before : ℤ) × (on_hand kind c.target_id units ≡ some before)
        × (pos 0 ≤ℤ before +ℤ w)
        × ((j : RefType) (i : String)
            → on_hand j i a.units ≡ (
                if same_ref kind j && str_eq c.target_id i
                then some (before +ℤ w)
                else on_hand j i units)))
      (ap to_int delta ∙ to_int-of_int v) moves

require_variance-ok : (o : Option ℤ) {v w : ℤ} → require_variance o ≡ ok w → o ≡ some v → w ≡ v
require_variance-ok none h e = cc
require_variance-ok (some x) {v} {w} h e = elim (Bool-cases (nonzero x)) [
  | inl some_variance ↦ sym (ok-injective (rw some_variance at h)) ∙ value_same e
  | inr no_variance_left ↦ cc (rw no_variance_left at h)
]
  where
    value_same : some x ≡ some v → x ≡ v
    value_same same = cc

-- An approval in a valid take moves the quantity on hand of the line's unit by what was counted less
-- what was expected at the submit, to a quantity that is not negative, and no other quantity.
pub approve_line_moves :
    (units : List UnitRow) (adjustment_id : String) (now : ℕ) (actor line_id : String) (t u : Take)
    (a : Adjusted) (events : List Event)
    → IsValid t
    → approve_line units adjustment_id now actor line_id t ≡ ok (u, a, events)
    → (line : Line) × (expected before : ℤ) × (find (has_id line_id) t.lines ≡ some line)
      × (line.expected_qty_at_submit ≡ some expected)
      × (on_hand line.ref_type line.ref_id units ≡ some before)
      × (pos 0 ≤ℤ before +ℤ (line.counted_qty -ℤ expected))
      × ((j : RefType) (i : String)
          → on_hand j i a.units ≡ (
              if same_ref line.ref_type j && str_eq line.ref_id i
              then some (before +ℤ (line.counted_qty -ℤ expected))
              else on_hand j i units))
unfolding approve_line
approve_line_moves units adjustment_id now actor line_id t u a events valid h =
    let (line, found, h1) = bind_inversion (pending_line line_id t) _ h in
    let (variance, varied, h2) = bind_inversion (require_variance line.variance) _ h1 in
    let (change, applied, h3) =
      bind_inversion
        (apply_unit_stock_adjustment_core adjustment_id (change_of actor t line variance) units) _
        h2 in
    let (_, _, f, _, _) = pending_line-ok line_id t found valid in
    let same_change : change ≡ a = ap (λ r. r.1) (ok-injective h3) in
    let amount = require_variance-ok line.variance varied f.varied in
    let (before, read, kept, moved) =
      core_moves adjustment_id line.ref_type (change_of actor t line variance)
        (line.counted_qty -ℤ f.expected) units a refl (ap of_int amount)
        (applied ∙ ap ok same_change) in
    (line, f.expected, before, pending_line_found line_id t found, f.snapshot, read, kept, moved)

-- A closed take is final: no handler succeeds on it.
pub closed_is_final : (t u : Take) → t.status ≡ closed → ¬ Step t u
unfolding add_line edit_line remove_line submit_stock_take approve_line reject_line pending_line
closed_is_final t u is_closed (added units id ref_type ref_id counted h) = cc (rw is_closed at h)
closed_is_final t u is_closed (edited id counted h) = cc (rw is_closed at h)
closed_is_final t u is_closed (removed id h) = cc (rw is_closed at h)
closed_is_final t u is_closed (submitted_step units now actor events h) = cc (rw is_closed at h)
closed_is_final t u is_closed
      (approved_step units adjustment_id now actor line_id adjusted events h) =
    cc (rw is_closed at h)
closed_is_final t u is_closed (rejected_step now actor line_id reason events h) =
    cc (rw is_closed at h)

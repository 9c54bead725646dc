-- ===== src/StockTake/Steps.antt =====
-- The steps of a stock take, what holds of a take in each status, and that drafts keep it.
use jewelry_backend.Common.{
  ℕ, ◌<◌, ◌≡◌, refl, ap, sym, Bool, true, false, not, Option, none, some, List, [], ◌∷◌, String,
  arith, ok, raise_if, raise_if-eq-ok, bind_inversion, ok-injective, find, count_if, All,
  All-append, replace-All, find-All, Bool-cases, inl, inr,
}
use mathlib.Core.Path.{subst}
use jewelry_backend.Common.Int.{ℤ, ◌-ℤ◌, nonzero}
use jewelry_backend.StockTake.Units.{RefType, UnitRow, Adjusted, target_on_hand_qty}
use jewelry_backend.StockTake.Lines.{
  TakeStatus, draft, submitted, closed, pending, Line, Take, is_draft, is_submitted, is_closed,
  is_pending, is_approved, is_no_variance, has_id, require_line, refuse_existing_line,
  counts_target, without, add_line, edit_line, remove_line, frozen, freeze_lines,
}
use jewelry_backend.StockTake.Handlers.{submit_stock_take, approve_line, reject_line}
use jewelry_backend.Audit.Events.{Event}

abbrev pub is_some {ℓ} : {A : Type ℓ} → Option A → Bool
is_some none = false
is_some (some a) = true

-- A line of a draft.
pub record IsFresh (line : Line) : Type 0 where
  pub not_expected : line.expected_qty_at_submit ≡ none
  pub not_varied : line.variance ≡ none
  pub unresolved : line.resolution ≡ pending
  pub not_adjusted : line.adjustment_id ≡ none

-- A line after the submit: the variance is what was counted less what was expected, there is none
-- exactly in the lines marked so, and exactly the approved lines name an adjustment.
pub record IsFrozen (line : Line) : Type 0 where
  pub expected : ℤ
  pub snapshot : line.expected_qty_at_submit ≡ some expected
  pub varied : line.variance ≡ some (line.counted_qty -ℤ expected)
  pub settled : is_no_variance line.resolution ≡ not (nonzero (line.counted_qty -ℤ expected))
  pub linked : is_some line.adjustment_id ≡ is_approved line.resolution

abbrev pub pending_count : List Line → ℕ
pending_count = count_if (λ l. is_pending l.resolution)

abbrev pub FitsStatus : TakeStatus → List Line → Type 0
FitsStatus draft lines = All IsFresh lines
FitsStatus submitted lines = All IsFrozen lines × (0 < pending_count lines)
FitsStatus closed lines = All IsFrozen lines × (pending_count lines ≡ 0)

pub record IsValid (take : Take) : Type 0 where
  pub fits : FitsStatus take.status take.lines
  pub stamped : is_some take.closed_at ≡ is_closed take.status

-- A handler that succeeds on a take.
pub data Step (t u : Take) : Type 0 where
  added :
      (units : List UnitRow) (id : String) (ref_type : RefType) (ref_id : String) (counted : ℤ)
      → add_line units id ref_type ref_id counted t ≡ ok u
      → Step t u
  edited : (id : String) (counted : ℤ) → edit_line id counted t ≡ ok u → Step t u
  removed : (id : String) → remove_line id t ≡ ok u → Step t u
  submitted_step :
      (units : List UnitRow) (now : ℕ) (actor : String) (events : List Event)
      → submit_stock_take units now actor t ≡ ok (u, events)
      → Step t u
  approved_step :
      (units : List UnitRow) (adjustment_id : String) (now : ℕ) (actor line_id : String)
      (adjusted : Adjusted) (events : List Event)
      → approve_line units adjustment_id now actor line_id t ≡ ok (u, adjusted, events)
      → Step t u
  rejected_step :
      (now : ℕ) (actor line_id reason : String) (events : List Event)
      → reject_line now actor line_id reason t ≡ ok (u, events)
      → Step t u

pub data Reach (t : Take) : Take → Type 0 where
  here : Reach t t
  next : {u v : Take} → Reach t u → Step u v → Reach t v

pub draft_of : (s : TakeStatus) → not (is_draft s) ≡ false → s ≡ draft
draft_of s h = ground arith

pub submitted_of : (s : TakeStatus) → not (is_submitted s) ≡ false → s ≡ submitted
submitted_of s h = ground arith

-- On a draft.
pub fits_draft : (t : Take) → IsValid t → not (is_draft t.status) ≡ false → All IsFresh t.lines
fits_draft t v h = subst (λ s. FitsStatus s t.lines) (draft_of t.status h) v.fits

still_draft :
    (t : Take) (lines : List Line)
    → IsValid t
    → not (is_draft t.status) ≡ false
    → All IsFresh lines
    → IsValid (record t { lines = lines })
still_draft t lines v h fresh = record {
  fits = subst (λ s. FitsStatus s lines) (sym (draft_of t.status h)) fresh;
  stamped = v.stamped;
}

pub require_line-ok : (o : Option Line) {line : Line} → require_line o ≡ ok line → o ≡ some line
require_line-ok none h = cc
require_line-ok (some x) h = ap some (ok-injective h)

pub add_line-IsValid :
    (units : List UnitRow) (id : String) (ref_type : RefType) (ref_id : String) (counted : ℤ)
    (t u : Take)
    → add_line units id ref_type ref_id counted t ≡ ok u
    → IsValid t
    → IsValid u
unfolding add_line
add_line-IsValid units id ref_type ref_id counted t u h v =
    let (_, is_open, h1) = bind_inversion (raise_if (not (is_draft t.status)) _) _ h in
    let (_, _, h2) = bind_inversion (target_on_hand_qty units ref_type ref_id) _ h1 in
    let (_, _, h3) =
      bind_inversion (refuse_existing_line (find (counts_target ref_type ref_id) t.lines)) _ h2 in
    let no_raise = raise_if-eq-ok _ _ is_open in
    subst IsValid (ok-injective h3) (
      still_draft t _ v no_raise (
        All-append IsFresh t.lines _ (fits_draft t v no_raise) (
          record { not_expected = refl; not_varied = refl; unresolved = refl; not_adjusted = refl },
          tt,
        )))

pub edit_line-IsValid :
    (id : String) (counted : ℤ) (t u : Take) → edit_line id counted t ≡ ok u → IsValid t → IsValid u
unfolding edit_line
edit_line-IsValid id counted t u h v =
    let (_, is_open, h1) = bind_inversion (raise_if (not (is_draft t.status)) _) _ h in
    let (line, found, h2) = bind_inversion (require_line (find (has_id id) t.lines)) _ h1 in
    let no_raise = raise_if-eq-ok _ _ is_open in
    let fresh = fits_draft t v no_raise in
    let f = find-All IsFresh (has_id id) t.lines fresh (require_line-ok _ found) in
    subst IsValid (ok-injective h2) (
      still_draft t _ v no_raise (
        replace-All IsFresh (has_id id) _ t.lines
          (record {
            not_expected = f.not_expected;
            not_varied = f.not_varied;
            unresolved = f.unresolved;
            not_adjusted = f.not_adjusted;
          })
          fresh))

without-All :
    (P : Line → Type 0) (id : String) (lines : List Line) → All P lines → All P (without id lines)
without-All P id [] h = tt
without-All P id (line ∷ lines) h = keep (has_id id line) (without-All P id lines h.1)
  where
    keep :
        (b : Bool)
        → All P (without id lines)
        → All P (elim b [ true ↦ without id lines | false ↦ line ∷ without id lines ])
    keep true rest = rest
    keep false rest = (h.0, rest)

pub remove_line-IsValid :
    (id : String) (t u : Take) → remove_line id t ≡ ok u → IsValid t → IsValid u
unfolding remove_line
remove_line-IsValid id t u h v =
    let (_, is_open, h1) = bind_inversion (raise_if (not (is_draft t.status)) _) _ h in
    let (line, found, h2) = bind_inversion (require_line (find (has_id id) t.lines)) _ h1 in
    let no_raise = raise_if-eq-ok _ _ is_open in
    subst IsValid (ok-injective h2)
      (still_draft t _ v no_raise (without-All IsFresh id t.lines (fits_draft t v no_raise)))

frozen-IsFrozen :
    (now : ℕ) (actor : String) (expected : ℤ) (line : Line)
    → IsFresh line
    → IsFrozen (frozen now actor expected line)
frozen-IsFrozen now actor expected line f = record {
  expected = expected;
  snapshot = refl;
  varied = refl;
  settled = elim (Bool-cases (nonzero (line.counted_qty -ℤ expected))) [
    | inl some_variance ↦ rw (some_variance, f.unresolved) refl
    | inr no_variance_left ↦ rw no_variance_left refl
  ];
  linked = elim (Bool-cases (nonzero (line.counted_qty -ℤ expected))) [
    | inl some_variance ↦ rw (some_variance, f.unresolved, f.not_adjusted) refl
    | inr no_variance_left ↦ rw (no_variance_left, f.not_adjusted) refl
  ];
}

pub freeze_lines-All :
    (units : List UnitRow) (now : ℕ) (actor : String) (lines lines' : List Line)
    → freeze_lines units now actor lines ≡ ok lines'
    → All IsFresh lines
    → All IsFrozen lines'
unfolding freeze_lines
freeze_lines-All units now actor [] lines' h fresh = subst (All IsFrozen) (ok-injective h) tt
freeze_lines-All units now actor (line ∷ lines) lines' h fresh =
    let (expected, read, h1) =
      bind_inversion (target_on_hand_qty units line.ref_type line.ref_id) _ h in
    let (rest, recursive, h2) = bind_inversion (freeze_lines units now actor lines) _ h1 in
    subst (All IsFrozen) (ok-injective h2) (
      frozen-IsFrozen now actor expected line fresh.0,
      freeze_lines-All units now actor lines rest recursive fresh.1,
    )

-- ===== src/StockTake/Valid.antt =====
-- The state machine of a stock take: what holds of every take that its operations can reach.
use jewelry_backend.Common.{
  ℕ, ◌<◌, ◌≡◌, refl, ap, sym, ◌∙◌, false, not, Option, none, some, List, String, arith, ok,
  raise_if, raise_if-eq-ok, bind_inversion, ok-injective, find, All, replace-All, find-All, ◌==◌,
  ==_iff, Bool-cases, inl, inr,
}
use mathlib.Core.Path.{subst}
use jewelry_backend.Common.Int.{ℤ, ◌-ℤ◌, nonzero}
use jewelry_backend.StockTake.Units.{UnitRow, Adjusted, apply_unit_stock_adjustment_core}
use jewelry_backend.StockTake.Lines.{
  submitted, Resolution, pending, approved, rejected, Line, Take, is_draft, is_submitted, is_closed,
  is_pending, is_approved, is_no_variance, has_id, require_line, freeze_lines,
}
use jewelry_backend.StockTake.Handlers.{
  create_stock_take, maybe_close_take, submit_stock_take, approve_line, reject_line, pending_line,
  require_lines, require_variance, resolve, with_line, change_of,
}
use jewelry_backend.Audit.Events.{Event}
use jewelry_backend.StockTake.Steps.{
  is_some, IsFrozen, pending_count, FitsStatus, IsValid, Step, Reach, draft_of, submitted_of,
  fits_draft, require_line-ok, add_line-IsValid, edit_line-IsValid, remove_line-IsValid,
  freeze_lines-All, added, edited, removed, submitted_step, approved_step, rejected_step, here,
  next,
}

not_zero : (n : ℕ) → (n == 0) ≡ false → 0 < n
not_zero n h = ground arith

-- Closing a take whose lines are frozen, and that is still open.
maybe_close_take-IsValid :
    (now : ℕ) (t : Take)
    → t.status ≡ submitted
    → t.closed_at ≡ none
    → All IsFrozen t.lines
    → IsValid (maybe_close_take now t).0
unfolding maybe_close_take
maybe_close_take-IsValid now t is_open not_stamped all_frozen =
    rw is_open (elim (Bool-cases (pending_count t.lines == 0)) [
      | inl done ↦ rw done (record { fits = (all_frozen, (==_iff _ 0).0 done); stamped = refl })
      | inr waiting ↦
          rw waiting
            (record { fits = (all_frozen, not_zero _ waiting); stamped = rw not_stamped refl })
    ])

submit_stock_take-IsValid :
    (units : List UnitRow) (now : ℕ) (actor : String) (t u : Take) (events : List Event)
    → submit_stock_take units now actor t ≡ ok (u, events)
    → IsValid t
    → IsValid u
unfolding submit_stock_take
submit_stock_take-IsValid units now actor t u events h v =
    let (_, is_open, h1) = bind_inversion (raise_if (not (is_draft t.status)) _) _ h in
    let (_, _, h2) = bind_inversion (require_lines t.lines) _ h1 in
    let (lines, froze, h3) = bind_inversion (freeze_lines units now actor t.lines) _ h2 in
    let no_raise = raise_if-eq-ok _ _ is_open in
    let all_frozen =
      freeze_lines-All units now actor t.lines lines froze (fits_draft t v no_raise) in
    subst IsValid (ap (λ r. r.0) (ok-injective h3)) (
      maybe_close_take-IsValid now
        (record t { status = submitted; submitted_at = some now; lines = lines }) refl
        (not_stamped t.closed_at (v.stamped ∙ ap is_closed (draft_of t.status no_raise)))
        all_frozen)
  where
    not_stamped : (o : Option ℕ) → is_some o ≡ false → o ≡ none
    not_stamped none e = refl
    not_stamped (some n) e = cc

-- On a submitted take: the line that is resolved, and that the take is open.
pub pending_line-ok :
    (line_id : String) (t : Take) {line : Line}
    → pending_line line_id t ≡ ok line
    → IsValid t
    → (t.status ≡ submitted)
      × All IsFrozen t.lines
      × IsFrozen line
      × (line.resolution ≡ pending)
      × (t.closed_at ≡ none)
unfolding pending_line
pending_line-ok line_id t {line} h v =
    let (_, is_open, h1) = bind_inversion (raise_if (not (is_submitted t.status)) _) _ h in
    let (found, got, h2) = bind_inversion (require_line (find (has_id line_id) t.lines)) _ h1 in
    let (_, unresolved, h3) =
      bind_inversion (raise_if (not (is_pending found.resolution)) _) _ h2 in
    let status = submitted_of t.status (raise_if-eq-ok _ _ is_open) in
    let fits : FitsStatus submitted t.lines = subst (λ s. FitsStatus s t.lines) status v.fits in
    let same : found ≡ line = ok-injective h3 in
    (
      status,
      fits.0,
      subst IsFrozen same
          (find-All IsFrozen (has_id line_id) t.lines fits.0 (require_line-ok _ got)),
      subst (λ (l : Line). l.resolution ≡ pending) same
          (pending_of found.resolution (raise_if-eq-ok _ _ unresolved)),
      none_of t.closed_at (v.stamped ∙ ap is_closed status),
    )
  where
    pending_of : (r : Resolution) → not (is_pending r) ≡ false → r ≡ pending
    pending_of r e = ground arith

    none_of : (o : Option ℕ) → is_some o ≡ false → o ≡ none
    none_of none e = refl
    none_of (some n) e = cc

approve_line-IsValid :
    (units : List UnitRow) (adjustment_id : String) (now : ℕ) (actor line_id : String) (t u : Take)
    (adjusted : Adjusted) (events : List Event)
    → approve_line units adjustment_id now actor line_id t ≡ ok (u, adjusted, events)
    → IsValid t
    → IsValid u
unfolding approve_line
approve_line-IsValid units adjustment_id now actor line_id t u adjusted events h v =
    let (line, found, h1) = bind_inversion (pending_line line_id t) _ h in
    let (variance, varied, h2) = bind_inversion (require_variance line.variance) _ h1 in
    let (change, applied, h3) =
      bind_inversion
        (apply_unit_stock_adjustment_core adjustment_id (change_of actor t line variance) units) _
        h2 in
    let (status, all_frozen, f, unresolved, not_stamped) = pending_line-ok line_id t found v in
    let done : IsFrozen
        (resolve approved line.rejection_reason (some adjustment_id) now actor line) =
      record {
        expected = f.expected;
        snapshot = f.snapshot;
        varied = f.varied;
        settled = still_varies line.variance (line.counted_qty -ℤ f.expected) f.varied varied;
        linked = refl;
      } in
    subst IsValid (ap (λ r. r.0) (ok-injective h3)) (
      maybe_close_take-IsValid now
        (with_line (resolve approved line.rejection_reason (some adjustment_id) now actor line) t)
        status not_stamped (replace-All IsFrozen (has_id line.id) _ t.lines done all_frozen))
  where
    still_varies :
        (o : Option ℤ) (v : ℤ) {w : ℤ}
        → o ≡ some v
        → require_variance o ≡ ok w
        → false ≡ not (nonzero v)
    still_varies o v e k = elim (Bool-cases (nonzero v)) [
      | inl yes' ↦ rw yes' refl
      | inr no' ↦ cc (rw (e, no') at k)
    ]

reject_line-IsValid :
    (now : ℕ) (actor line_id reason : String) (t u : Take) (events : List Event)
    → reject_line now actor line_id reason t ≡ ok (u, events)
    → IsValid t
    → IsValid u
unfolding reject_line
reject_line-IsValid now actor line_id reason t u events h v =
    let (line, found, h1) = bind_inversion (pending_line line_id t) _ h in
    let (status, all_frozen, f, unresolved, not_stamped) = pending_line-ok line_id t found v in
    let done : IsFrozen (resolve rejected (some reason) line.adjustment_id now actor line) =
      record {
        expected = f.expected;
        snapshot = f.snapshot;
        varied = f.varied;
        settled = sym (ap is_no_variance unresolved) ∙ f.settled;
        linked = f.linked ∙ ap is_approved unresolved;
      } in
    subst IsValid (ap (λ r. r.0) (ok-injective h1)) (
      maybe_close_take-IsValid now
        (with_line (resolve rejected (some reason) line.adjustment_id now actor line) t) status
        not_stamped (replace-All IsFrozen (has_id line.id) _ t.lines done all_frozen))

Step-IsValid : {t u : Take} → Step t u → IsValid t → IsValid u
Step-IsValid {t} {u} (added units id ref_type ref_id counted h) v =
    add_line-IsValid units id ref_type ref_id counted t u h v
Step-IsValid {t} {u} (edited id counted h) v = edit_line-IsValid id counted t u h v
Step-IsValid {t} {u} (removed id h) v = remove_line-IsValid id t u h v
Step-IsValid {t} {u} (submitted_step units now actor events h) v =
    submit_stock_take-IsValid units now actor t u events h v
Step-IsValid {t} {u} (approved_step units adjustment_id now actor line_id adjusted events h) v =
    approve_line-IsValid units adjustment_id now actor line_id t u adjusted events h v
Step-IsValid {t} {u} (rejected_step now actor line_id reason events h) v =
    reject_line-IsValid now actor line_id reason t u events h v

-- Whatever handlers succeed after a take is created, in whatever order and with whatever stock
-- between them: a draft holds unresolved lines without a snapshot; a submitted take has a pending
-- line and a closed one none; after the submit each line keeps the variance of its count against
-- its snapshot, is marked so exactly where there is none, and names an adjustment exactly where it
-- was approved; and the time of closing is set exactly in a closed take.
pub Reach-IsValid :
    (id actor notes : String) {t : Take} → Reach (create_stock_take id actor notes).0 t → IsValid t
Reach-IsValid id actor notes here = record { fits = tt; stamped = refl }
Reach-IsValid id actor notes (next r s) = Step-IsValid s (Reach-IsValid id actor notes r)

-- ===== src/Gl/Post/Numbers.antt =====
-- The counters of `next_doc_no`: a new number is above all that its series and day gave out.
use mathlib.Core.Bool.{false≢true}
use jewelry_backend.Common.{
  ℕ, ◌+◌, ◌≤◌, ◌≡◌, refl, sym, ◌∙◌, Bool, true, false, ◌&&◌, List, [], ◌∷◌, String, str_eq, arith,
  if◌then◌else◌, inl, inr, Bool-cases,
}
use jewelry_backend.Common.Dates.{
  Date, DocNo, same_day_key, date_eq, same_day_key_trans, same_day_key-eq, same_day_key-true,
}
use jewelry_backend.Gl.Store.{Sequence, next_doc_no}

if_absorb {ℓ} :
    {A : Type ℓ} (b : Bool) (x y z : A)
    → (if b then x else z) ≡ (if b then x else if b then y else z)
if_absorb true x y z = refl
if_absorb false x y z = refl

if_swap {ℓ} :
    {A : Type ℓ} (a b : Bool) (x y z : A)
    → (a ≡ true → b ≡ true → ⊥)
    → (if a then x else if b then y else z) ≡ (if b then y else if a then x else z)
if_swap true true x y z h = absurd (h refl refl)
if_swap true false x y z h = refl
if_swap false b x y z h = refl

-- The last number of a series and day, zero where none was given out.
abbrev pub last_seq : List Sequence → DocNo → ℕ
last_seq [] n = 0
last_seq (row ∷ rows) n = if same_day_key row.key n then row.key.seq else last_seq rows n

module _ (series : String) (day : Date) where
  pub next_doc_no-series :
      (rows : List Sequence)
      → ((next_doc_no rows series day).0.series ≡ series)
        × ((next_doc_no rows series day).0.day ≡ day)
  unfolding next_doc_no
  next_doc_no-series [] = (refl, refl)
  next_doc_no-series (row ∷ rows) = ground (arith, next_doc_no-series rows)

  -- The new number is the next one after the last.
  pub next_doc_no-seq :
      (rows : List Sequence)
      → (next_doc_no rows series day).0.seq ≡ last_seq rows (next_doc_no rows series day).0 + 1
  unfolding next_doc_no
  next_doc_no-seq [] = refl
  next_doc_no-seq (row ∷ rows) = ground (arith, next_doc_no-series rows, next_doc_no-seq rows)

  -- The counters of other days stay, and that of this day holds the new number.
  pub last_seq-next_doc_no :
      (rows : List Sequence) (n : DocNo)
      → last_seq (next_doc_no rows series day).1 n ≡ (
          if same_day_key (next_doc_no rows series day).0 n
          then (next_doc_no rows series day).0.seq
          else last_seq rows n)
  unfolding next_doc_no
  last_seq-next_doc_no [] n = refl
  last_seq-next_doc_no (row ∷ rows) n =
      let number : DocNo = record { series = series; day = day; seq = row.key.seq + 1 } in
      let found = (next_doc_no rows series day).0 in
      elim (Bool-cases (same_day_key row.key number)) [
        | inl this ↦
            rw (this, same_day_key_trans row.key number n this)
              (if_absorb (same_day_key number n) _ _ _)
        | inr other ↦
            rw (other, last_seq-next_doc_no rows n)
              (if_swap (same_day_key row.key n) (same_day_key found n) _ _ _ λ p q.
                let (row_series, row_day) = same_day_key-eq row.key n p in
                let (found_series, found_day) = same_day_key-eq found n q in
                let (series_is, day_is) = next_doc_no-series rows in
                false≢true (
                  sym other
                  ∙ same_day_key-true row.key number (row_series ∙ sym found_series ∙ series_is)
                      (row_day ∙ sym found_day ∙ day_is)))
      ]

-- Numbers of one series and day look up the same counter.
pub last_seq-same :
    (rows : List Sequence) (a b : DocNo)
    → a.series ≡ b.series
    → a.day ≡ b.day
    → last_seq rows a ≡ last_seq rows b
last_seq-same [] a b same_series same_day = refl
last_seq-same (row ∷ rows) a b same_series same_day =
    let rest = last_seq-same rows a b same_series same_day in
    λ i.
      if str_eq row.key.series (same_series i) && date_eq row.key.day (same_day i)
      then row.key.seq
      else rest i

-- No counter goes down.
pub last_seq-le-next_doc_no :
    (rows : List Sequence) (series : String) (day : Date) (n : DocNo)
    → last_seq rows n ≤ last_seq (next_doc_no rows series day).1 n
last_seq-le-next_doc_no rows series day n =
    let found = (next_doc_no rows series day).0 in
    rw (last_seq-next_doc_no series day rows n) (elim (Bool-cases (same_day_key found n)) [
      | inl same ↦
          let (same_series, same_day) = same_day_key-eq found n same in
          rw same (
            omega (
              arith,
              next_doc_no-seq series day rows,
              last_seq-same rows found n same_series same_day,
            ))
      | inr other ↦ rw other (omega arith)
    ])

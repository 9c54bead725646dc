-- ===== src/Gl/Reverse/Once.antt =====
-- An entry is reversed at most once; a reversal and a year-close entry are never reversed.
use jewelry_backend.Common.{
  ◌≡◌, ◌≢◌, ap, sym, ◌∙◌, Bool, true, false, some, List, [], ◌∷◌, ◌++◌, String, str_eq, arith, ok,
  err, find, Bool-cases, inl, inr, raise_if, raise_if-eq-ok, bind_inversion, eq_refl,
}
use jewelry_backend.Audit.Ledger.{LedgerFields}
use jewelry_backend.Gl.Store.{
  GlFields, Entry, Db, entry_id, header_of, is_reversal, find_reversal, reverses, reverses_target,
  is_a_reversal, is_a_year_close, reversed_already,
}
use jewelry_backend.Gl.Post.{Supply}
use jewelry_backend.Gl.Post.Invariant.{IsSound}
use jewelry_backend.Gl.Reverse.{
  Reversal, reversal_checks, find_entry, reverse_entry, refuse_existing,
}
use jewelry_backend.Gl.Reverse.Mirror.{some_eq, reverse_entry-ok, reverse_entry-Cancels}

-- An item that is found is found in a longer list too.
pub find-append {ℓ} :
    {A : Type ℓ} (q : A → Bool) (xs ys : List A) {a : A}
    → find q xs ≡ some a
    → find q (xs ++ ys) ≡ some a
find-append q [] ys h = cc
find-append q (x ∷ xs) ys {a} h = ground (arith, find-append q xs ys {a = a})

-- With an item that passes at its end, a list has one that passes.
pub find-present {ℓ} :
    {A : Type ℓ} (q : A → Bool) (xs : List A) (a : A)
    → q a ≡ true
    → (b : A) × (find q (xs ++ a ∷ []) ≡ some b)
find-present q [] a h = (a, rw (h, find))
find-present q (x ∷ xs) a h = elim (Bool-cases (q x)) [
  | inl this ↦ (x, rw (this, find))
  | inr other ↦ let (b, rest) = find-present q xs a h in (b, rw (other, find) rest)
]

-- An original that passed is no reversal and no closing entry.
reversal_checks-passed :
    (db : Db) (original : Entry) {u : Unit {0}}
    → reversal_checks db original ≡ ok u
    → (is_reversal original ≡ false)
      × (str_eq (header_of original).source_type "YEAR_CLOSE" ≡ false)
unfolding reversal_checks
reversal_checks-passed db original h =
    let (u, plain, h1) =
      bind_inversion (raise_if (is_reversal original) (is_a_reversal (header_of original).entry_no))
        _ h in
    let (v, open_year, h2) =
      bind_inversion
        (raise_if (str_eq (header_of original).source_type "YEAR_CLOSE")
          (is_a_year_close (header_of original).entry_no))
        _ h1 in
    (raise_if-eq-ok _ _ plain, raise_if-eq-ok _ _ open_year)

module _ (gl_digest : String → GlFields → String)
    (ledger_digest : String → LedgerFields → String) where
  -- The refusals, in their order, for an entry that exists: a reversal, a closing entry of a year,
  -- and an entry that has a reversal. Each leaves the tables as they were.
  pub reverse_entry_refusals :
      (db : Db) (r : Reversal) (supply : Supply) (original : Entry)
      → find_entry db.entries r.original_entry_id ≡ some original
      → (is_reversal original ≡ true
          → reverse_entry gl_digest ledger_digest db r supply
            ≡ err (is_a_reversal (header_of original).entry_no))
        × (is_reversal original ≡ false
            → str_eq (header_of original).source_type "YEAR_CLOSE" ≡ true
            → reverse_entry gl_digest ledger_digest db r supply
              ≡ err (is_a_year_close (header_of original).entry_no))
        × ((existing : Entry)
            → is_reversal original ≡ false
            → str_eq (header_of original).source_type "YEAR_CLOSE" ≡ false
            → find_reversal db.entries (entry_id original) ≡ some existing
            → reverse_entry gl_digest ledger_digest db r supply
              ≡ err (reversed_already (header_of existing).entry_no))
  unfolding reverse_entry
  reverse_entry_refusals db r supply original found = (
    λ p. rw (found, p),
    λ p q. rw (found, p, q),
    λ existing p q e. rw (found, p, q, e, refuse_existing),
  )

  -- After a reversal that succeeded, every further attempt on the same entry is a conflict,
  -- whoever makes it, at whatever date and in whatever period.
  pub reverse_twice :
      ((h : String) (f : GlFields) → gl_digest h f ≢ "")
      → ((h : String) (f : LedgerFields) → ledger_digest h f ≢ "")
      → (db : Db) (r again : Reversal) (supply later : Supply) {e : Entry} {db' : Db}
      → IsSound gl_digest ledger_digest db
      → reverse_entry gl_digest ledger_digest db r supply ≡ ok (e, db')
      → again.original_entry_id ≡ r.original_entry_id
      → (existing : Entry) × (reverse_entry gl_digest ledger_digest db' again later
          ≡ err (reversed_already (header_of existing).entry_no))
  reverse_twice gn ln db r again supply later {e} {db'} s h same =
      let (original, found, names, grown, cancels) =
        reverse_entry-Cancels gl_digest ledger_digest gn ln db r supply s h in
      let (original', found', checked, posted) =
        reverse_entry-ok gl_digest ledger_digest db r supply h in
      let same_original : original' ≡ original = some_eq (sym found' ∙ found) in
      let (plain, open_year) =
        reversal_checks-passed db original
          (ap (reversal_checks db) (sym same_original) ∙ checked) in
      let id = entry_id original in
      let (existing, present) =
        find-present (reverses id) db.entries e (rw (names, reverses_target) (eq_refl id)) in
      let found_again : find_entry db'.entries again.original_entry_id ≡ some original =
        rw (grown, same)
          (find-append (λ (x : Entry). str_eq (entry_id x) r.original_entry_id) db.entries (e ∷ [])
            found) in
      (
        existing,
        (reverse_entry_refusals db' again later original found_again).2 existing plain open_year
            (unfold find_reversal in rw grown present),
      )

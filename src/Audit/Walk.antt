-- ===== src/Audit/Walk.antt =====
-- The walk over a chain: which row it reports, and when it reports none.
use mathlib.Core.Bool.{false≢true}
use native.Mathlib.Nat.{zero-add}
use jewelry_backend.Common.{
  ℕ, ◌+◌, ◌≡◌, ◌≢◌, ◌↔◌, ◌⊎◌, refl, ap, sym, ◌∙◌, none, List, [], ◌∷◌, ◌++◌, String, str_eq, eq_iff,
  arith, ok, err, length, Bool-cases, inl, inr, if◌then◌else◌,
}
use jewelry_backend.Audit.{
  Row, Report, IsChain, last_hash, verify_from, verify_chain, genesis_hash, clean_report,
  break_report, break_at, empty_prev_hash,
}

pub genesis_hash-ne-empty : genesis_hash ≢ ""
genesis_hash-ne-empty p = false≢true ((eq_iff genesis_hash "").1 p)

module _ {F : Type 0} (digest : String → F → String) where
  -- A chain may be extended by a row that points to its last hash.
  pub IsChain-append :
      (prev : String) (rows more : List (Row F))
      → IsChain digest prev rows
      → IsChain digest (last_hash digest prev rows) more
      → IsChain digest prev (rows ++ more)
  IsChain-append prev [] more h k = k
  IsChain-append prev (row ∷ rows) more h k =
      (h.0, h.1, IsChain-append row.entry_hash rows more h.2 k)

  pub last_hash-append :
      (prev : String) (rows : List (Row F)) (row : Row F)
      → last_hash digest prev (rows ++ row ∷ []) ≡ row.entry_hash
  last_hash-append prev [] row = refl
  last_hash-append prev (r ∷ rows) row = last_hash-append r.entry_hash rows row

  module _ (digest_nonempty : (p : String) (f : F) → digest p f ≢ "") where
    verify_from-chain :
        (prev : String) (total : ℕ) (rows : List (Row F))
        → prev ≢ ""
        → IsChain digest prev rows
        → verify_from digest prev total rows ≡ ok (clean_report (total + length rows))
    unfolding verify_from
    verify_from-chain prev total [] ne h = ap (λ (n : ℕ). ok (clean_report n)) (omega arith)
    verify_from-chain prev total (row ∷ rows) ne h = ground (
      arith,
      eq_iff row.prev_hash "",
      eq_iff row.prev_hash prev,
      eq_iff row.entry_hash (digest row.prev_hash row.fields),
      digest_nonempty row.prev_hash row.fields,
      verify_from-chain row.entry_hash (total + 1) rows,
    )

    IsChain-verify_from :
        (prev : String) (total : ℕ) (rows : List (Row F)) {r : Report}
        → verify_from digest prev total rows ≡ ok r
        → r.first_break ≡ none
        → IsChain digest prev rows
    unfolding verify_from
    IsChain-verify_from prev total [] h n = tt
    IsChain-verify_from prev total (row ∷ rows) {r} h n = ground (
      arith,
      eq_iff row.prev_hash "",
      eq_iff row.prev_hash prev,
      eq_iff row.entry_hash (digest row.prev_hash row.fields),
      IsChain-verify_from row.entry_hash (total + 1) rows {r = r},
    )

    -- A walk succeeds with a clean report of every row exactly on the lists that are chains.
    pub verify_chain_iff :
        (rows : List (Row F))
        → (verify_chain digest rows ≡ ok (clean_report (length rows)))
          ↔ IsChain digest genesis_hash rows
    unfolding verify_chain
    verify_chain_iff rows = (
      λ h. IsChain-verify_from genesis_hash 0 rows {r = clean_report (length rows)} h refl,
      λ h.
          verify_from-chain genesis_hash 0 rows genesis_hash-ne-empty h
          ∙ ap (λ (n : ℕ). ok (clean_report n)) (omega arith),
    )

  verify_from-break :
      (prev : String) (total : ℕ) (pre post : List (Row F)) (row : Row F)
      → prev ≢ ""
      → ((p : String) (f : F) → digest p f ≢ "")
      → IsChain digest prev pre
      → row.prev_hash ≢ ""
      → (row.prev_hash ≢ last_hash digest prev pre)
        ⊎ (row.entry_hash ≢ digest row.prev_hash row.fields)
      → verify_from digest prev total (pre ++ row ∷ post)
        ≡ ok (
            break_report
              (total + length pre + 1)
              (break_at digest (last_hash digest prev pre) row (digest row.prev_hash row.fields)))
  unfolding verify_from
  verify_from-break prev total [] post row ne dn h rn bad = ground (
    arith,
    eq_iff row.prev_hash "",
    eq_iff row.prev_hash prev,
    eq_iff row.entry_hash (digest row.prev_hash row.fields),
  )
  verify_from-break prev total (p ∷ pre) post row ne dn h rn bad = ground (
    arith,
    eq_iff p.prev_hash "",
    eq_iff p.prev_hash prev,
    eq_iff p.entry_hash (digest p.prev_hash p.fields),
    dn p.prev_hash p.fields,
    verify_from-break p.entry_hash (total + 1) pre post row (λ e. dn prev p.fields (sym h.1 ∙ e)) dn
        h.2 rn bad,
  )

  verify_from-raises :
      (prev : String) (total : ℕ) (pre post : List (Row F)) (row : Row F)
      → prev ≢ ""
      → ((p : String) (f : F) → digest p f ≢ "")
      → IsChain digest prev pre
      → row.prev_hash ≡ ""
      → verify_from digest prev total (pre ++ row ∷ post) ≡ err empty_prev_hash
  unfolding verify_from
  verify_from-raises prev total [] post row ne dn h missing =
      ground (arith, eq_iff row.prev_hash "")
  verify_from-raises prev total (p ∷ pre) post row ne dn h missing = ground (
    arith,
    eq_iff p.prev_hash "",
    eq_iff p.prev_hash prev,
    eq_iff p.entry_hash (digest p.prev_hash p.fields),
    dn p.prev_hash p.fields,
    verify_from-raises p.entry_hash (total + 1) pre post row (λ e. dn prev p.fields (sym h.1 ∙ e))
        dn h.2 missing,
  )

  -- A walk comes to a row that does not continue the chain before it, of any digest that is never
  -- empty: it raises where the row names no previous hash, and else stops there and reports the row
  -- and its position, whatever rows follow.
  pub verify_chain-break :
      (pre post : List (Row F)) (row : Row F)
      → ((p : String) (f : F) → digest p f ≢ "")
      → IsChain digest genesis_hash pre
      → (row.prev_hash ≢ last_hash digest genesis_hash pre)
        ⊎ (row.entry_hash ≢ digest row.prev_hash row.fields)
      → verify_chain digest (pre ++ row ∷ post) ≡ (
          if str_eq row.prev_hash ""
          then err empty_prev_hash
          else ok (
              break_report (length pre + 1) (
                break_at digest
                  (last_hash digest genesis_hash pre)
                  row
                  (digest row.prev_hash row.fields))))
  unfolding verify_chain
  verify_chain-break pre post row dn h bad = elim (Bool-cases (str_eq row.prev_hash "")) [
    | inl missing ↦
        verify_from-raises genesis_hash 0 pre post row genesis_hash-ne-empty dn h
          ((eq_iff row.prev_hash "").0 missing)
        ∙ rw missing refl
    | inr named ↦
        rw zero-add at (
          verify_from-break genesis_hash 0 pre post row genesis_hash-ne-empty dn h
            (λ e. false≢true (sym named ∙ (eq_iff row.prev_hash "").1 e)) bad)
        ∙ rw named refl
  ]

-- ===== src/Gl/Post/Written.antt =====
-- What a posting adds to the balance of an account.
use jewelry_backend.Common.{
  ◌≡◌, refl, sym, ap, ap₂, ◌∙◌, Option, none, some, List, [], ◌∷◌, ◌++◌, String, str_eq, map,
  if◌then◌else◌, ok, bind_inversion, ok-injective, find, Bool-cases, inl, inr,
}
use jewelry_backend.Common.Int.{pos, ◌+ℤ◌, ◌-ℤ◌}
use jewelry_backend.Money.{Decimal, quantize}
use jewelry_backend.Audit.{compute_entry_hash}
use jewelry_backend.Audit.Ledger.{LedgerFields, append}
use jewelry_backend.Gl.Lines.{GlLine, q_money, sum_of, normalize_line_decimals}
use jewelry_backend.Gl.Cents.{sum_of-snoc}
use jewelry_backend.Gl.Store.{
  Account, Period, JournalLine, GlFields, Entry, Db, lines_of, resolve_line, resolve_denominations,
  next_doc_no,
}
use jewelry_backend.Gl.Post.{
  Posting, Supply, post_checks, write_entry, post_entry, hashed, fields_of, posted_event,
  line_to_hash_dict,
}
use jewelry_backend.Gl.Post.Checks.{post_checks-Passed}

-- The credits less the debits of an account, in a line, an entry and the ledger.
abbrev pub net_credit : String → JournalLine → Decimal
net_credit id l = if str_eq l.account_id id then l.base_credit -ℤ l.base_debit else pos 0

abbrev pub entry_credit : String → Entry → Decimal
entry_credit id e = sum_of (net_credit id) (lines_of e)

abbrev pub ledger_credit : String → List Entry → Decimal
ledger_credit id entries = sum_of (entry_credit id) entries

-- The same of a line as it is asked for, rounded as it will be stored.
abbrev pub asked_credit : String → GlLine → Decimal
asked_credit id ln =
    if str_eq ln.account_id id
    then quantize q_money ln.base_credit -ℤ quantize q_money ln.base_debit
    else pos 0

abbrev stored_credit : String → GlLine → Decimal
stored_credit id ln = net_credit id (line_to_hash_dict (normalize_line_decimals ln))

resolve_line-credit :
    (id : String) (found : Option Account) (ln : GlLine) {ln' : GlLine}
    → resolve_line found ln ≡ ok ln'
    → stored_credit id ln' ≡ asked_credit id ln
unfolding normalize_line_decimals quantize
resolve_line-credit id none ln h = cc
resolve_line-credit id (some acct) ln {ln'} h = elim (Bool-cases acct.is_active) [
  | inl active ↦ ap (stored_credit id) (sym (ok-injective (rw active at h)))
  | inr closed ↦ cc (rw closed at h)
]

resolve_denominations-credit :
    (id : String) (accounts : List Account) (lines : List GlLine) {resolved : List GlLine}
    → resolve_denominations accounts lines ≡ ok resolved
    → sum_of (net_credit id) (map line_to_hash_dict (map normalize_line_decimals resolved))
      ≡ sum_of (asked_credit id) lines
unfolding resolve_denominations
resolve_denominations-credit id accounts [] h =
    ap
      (λ (ls : List GlLine).
        sum_of (net_credit id) (map line_to_hash_dict (map normalize_line_decimals ls)))
      (sym (ok-injective h))
resolve_denominations-credit id accounts (ln ∷ lines) h =
    let found = find (λ (a : Account). str_eq a.id ln.account_id) accounts in
    let (ln', first, h1) = bind_inversion (resolve_line found ln) _ h in
    let (lines', rest, h2) = bind_inversion (resolve_denominations accounts lines) _ h1 in
    rw (sym (ok-injective h2)) (
      ap₂ ◌+ℤ◌ (resolve_line-credit id found ln first)
        (resolve_denominations-credit id accounts lines rest))

module _ (gl_digest : String → GlFields → String)
    (ledger_digest : String → LedgerFields → String) where
  write_entry-lines :
      (db : Db) (p : Posting) (supply : Supply) (period : Period) (lines : List GlLine)
      {posted : Entry × Db}
      → write_entry gl_digest ledger_digest db p supply period lines ≡ ok posted
      → (posted.1.entries ≡ db.entries ++ posted.0 ∷ [])
        × (posted.1.accounts ≡ db.accounts)
        × (lines_of posted.0 ≡ map line_to_hash_dict lines)
  unfolding write_entry
  write_entry-lines db p supply period lines {posted} h =
      let entry_no = (next_doc_no db.sequences "JE" p.entry_date).0 in
      let (entry_hash, hashed_ok, h1) =
        bind_inversion
          (hashed
            (compute_entry_hash gl_digest db.latest_entry_hash (fields_of p supply entry_no lines)))
          _ h in
      let (ledger, appended, h2) =
        bind_inversion
          (hashed
            (append ledger_digest db.ledger supply.event_id (posted_event p supply entry_no lines)))
          _ h1 in
      rw (sym (ok-injective h2)) (refl, refl, refl)

  -- A posting that succeeds adds to the balance of each account what its lines ask for, rounded.
  pub post_entry-credit :
      (id : String) (db : Db) (p : Posting) (supply : Supply) {posted : Entry × Db}
      → post_entry gl_digest ledger_digest db p supply ≡ ok posted
      → (ledger_credit id posted.1.entries
          ≡ ledger_credit id db.entries +ℤ sum_of (asked_credit id) p.lines)
        × (posted.1.accounts ≡ db.accounts)
  unfolding post_entry
  post_entry-credit id db p supply {posted} h =
      let (checked, passes, wrote) = bind_inversion (post_checks db p) _ h in
      let passed = post_checks-Passed db p {period = checked.0} {lines = checked.1} passes in
      let (entries, accounts, lines) = write_entry-lines db p supply checked.0 checked.1 wrote in
      let credit =
        ap (sum_of (net_credit id)) lines
        ∙ (ap (λ (ls : List GlLine). sum_of (net_credit id) (map line_to_hash_dict ls))
              passed.normalized
            ∙ resolve_denominations-credit id db.accounts p.lines passed.accounts_found) in
      (
        ap (ledger_credit id) entries
            ∙ (sum_of-snoc (entry_credit id) db.entries posted.0
                ∙ ap (λ (x : Decimal). ledger_credit id db.entries +ℤ x) credit),
        accounts,
      )

-- ===== src/YearClose/Trial.antt =====
-- The trial balance agrees with a replay of every line, and is balanced on every day.
use jewelry_backend.Common.{
  ◌≡◌, refl, sym, ap, ap₂, ◌∙◌, Bool, true, false, List, [], ◌∷◌, String, str_eq, if◌then◌else◌,
  arith, Bool-cases, inl, inr, All, All-map, count_if,
}
use mathlib.Core.Path.{subst}
use jewelry_backend.Common.Int.{pos, ◌+ℤ◌, int_laws, eq_of_parts, eq_ℤ_iff}
use jewelry_backend.Common.Dates.{Date, date_leb}
use jewelry_backend.Money.{Decimal, quantize}
use jewelry_backend.Audit.Ledger.{LedgerFields}
use jewelry_backend.Gl.Lines.{q_money, sum_of}
use jewelry_backend.Gl.Cents.{IsCents, quantize_cents, quantize-IsCents, add-IsCents}
use jewelry_backend.Gl.Store.{Account, JournalLine, GlFields, Entry, Db, header_of, lines_of}
use jewelry_backend.Gl.Post.Invariant.{IsSound, IsNormal, EntryBalanced, normalize_stored}
use jewelry_backend.YearClose.{
  at_account, up_to, base_at, AccountRow, account_row, account_rows, compute_trial_balance,
}

module _ {ℓ} {A : Type ℓ} where
  sum_of-add :
      (f g : A → Decimal) (xs : List A) → sum_of (λ x. f x +ℤ g x) xs ≡ sum_of f xs +ℤ sum_of g xs
  sum_of-add f g [] = omega int_laws
  sum_of-add f g (x ∷ xs) = rw (sum_of-add f g xs) (eq_of_parts _ _ (omega int_laws))

  sum_of-zero : (xs : List A) → sum_of (λ x. pos 0) xs ≡ pos 0
  sum_of-zero [] = refl
  sum_of-zero (x ∷ xs) = rw (sum_of-zero xs) (omega int_laws)

  -- An amount that no item takes, and one that a single item takes.
  sum_of-none :
      (p : A → Bool) (v : Decimal) (xs : List A)
      → count_if p xs ≡ 0
      → sum_of (λ x. if p x then v else pos 0) xs ≡ pos 0
  sum_of-none p v [] h = refl
  sum_of-none p v (x ∷ xs) h = elim (Bool-cases (p x)) [
    | inl this ↦ absurd (omega (arith, rw (this, count_if) at h))
    | inr other ↦ rw (other, sum_of-none p v xs (rw (other, count_if) at h)) (omega int_laws)
  ]

  sum_of-single :
      (p : A → Bool) (v : Decimal) (xs : List A)
      → count_if p xs ≡ 1
      → sum_of (λ x. if p x then v else pos 0) xs ≡ v
  sum_of-single p v [] h = absurd (omega (arith, h))
  sum_of-single p v (x ∷ xs) h = elim (Bool-cases (p x)) [
    | inl this ↦
        rw (this, sum_of-none p v xs (omega (arith, rw (this, count_if) at h))) (omega int_laws)
    | inr other ↦ rw (other, sum_of-single p v xs (rw (other, count_if) at h)) (omega int_laws)
  ]

-- The account of a line is one of the accounts, and one only.
abbrev pub IsKnown : List Account → JournalLine → Type 0
IsKnown accounts l = count_if (λ (a : Account). str_eq l.account_id a.id) accounts ≡ 1

abbrev pub AllKnown : List Account → Entry → Type 0
AllKnown accounts e = All (IsKnown accounts) (lines_of e)

-- The sum of every line up to the day, as a replay takes it.
abbrev pub replayed : (JournalLine → Decimal) → Date → List Entry → Decimal
replayed f as_of entries = sum_of (up_to as_of (λ e. sum_of f (lines_of e))) entries

module _ (f : JournalLine → Decimal) (as_of : Date) (accounts : List Account) where
  lines_by_account :
      (lines : List JournalLine)
      → All (IsKnown accounts) lines
      → sum_of (λ (a : Account). sum_of (at_account f a.id) lines) accounts ≡ sum_of f lines
  lines_by_account [] h = sum_of-zero accounts
  lines_by_account (l ∷ lines) h =
      sum_of-add (λ (a : Account). at_account f a.id l)
        (λ (a : Account). sum_of (at_account f a.id) lines) accounts
      ∙ ap₂ (λ x y. x +ℤ y)
          (sum_of-single (λ (a : Account). str_eq l.account_id a.id) (f l) accounts h.0)
          (lines_by_account lines h.1)

  entry_by_account :
      (e : Entry)
      → AllKnown accounts e
      → sum_of
          (λ (a : Account). up_to as_of (λ x. sum_of (at_account f a.id) (lines_of x)) e)
          accounts
        ≡ up_to as_of (λ x. sum_of f (lines_of x)) e
  entry_by_account e h = elim (Bool-cases (date_leb (header_of e).entry_date as_of)) [
    | inl this ↦ rw this (lines_by_account (lines_of e) h)
    | inr later ↦ rw later (sum_of-zero accounts)
  ]

  entries_by_account :
      (entries : List Entry)
      → All (AllKnown accounts) entries
      → sum_of (λ (a : Account). base_at f as_of entries a.id) accounts ≡ replayed f as_of entries
  entries_by_account [] h = sum_of-zero accounts
  entries_by_account (e ∷ entries) h =
      sum_of-add (λ (a : Account). up_to as_of (λ x. sum_of (at_account f a.id) (lines_of x)) e)
        (λ (a : Account). base_at f as_of entries a.id) accounts
      ∙ ap₂ (λ x y. x +ℤ y) (entry_by_account e h.0) (entries_by_account entries h.1)

sum-IsCents :
    {A : Type 0} (f : A → Decimal) (xs : List A)
    → All (λ x. IsCents (f x)) xs
    → IsCents (sum_of f xs)
sum-IsCents f [] h = refl
sum-IsCents f (x ∷ xs) h = add-IsCents _ _ h.0 (sum-IsCents f xs h.1)

if-IsCents : (b : Bool) (v : Decimal) → IsCents v → IsCents (if b then v else pos 0)
if-IsCents true v h = h
if-IsCents false v h = refl

base_at-IsCents :
    (f : JournalLine → Decimal) (as_of : Date) (entries : List Entry) (id : String)
    → All (λ e. All (λ l. IsCents (f l)) (lines_of e)) entries
    → IsCents (base_at f as_of entries id)
base_at-IsCents f as_of entries id h = sum-IsCents _ entries (
    All-map _ _
      (λ e k. if-IsCents (date_leb (header_of e).entry_date as_of) _ (
        sum-IsCents (at_account f id) (lines_of e)
          (All-map _ _ (λ l c. if-IsCents (str_eq l.account_id id) _ c) (lines_of e) k)))
      entries h)

rows-sum :
    (f : JournalLine → Decimal) (g : AccountRow → Decimal) (as_of : Date) (entries : List Entry)
    (accounts : List Account)
    → ((a : Account)
        → g (account_row as_of entries a) ≡ quantize q_money (base_at f as_of entries a.id))
    → All (λ e. All (λ l. IsCents (f l)) (lines_of e)) entries
    → sum_of g (account_rows as_of entries accounts)
      ≡ sum_of (λ (a : Account). base_at f as_of entries a.id) accounts
rows-sum f g as_of entries [] same h = refl
rows-sum f g as_of entries (a ∷ accounts) same h =
    ap₂ (λ x y. x +ℤ y) (same a ∙ quantize_cents _ (base_at-IsCents f as_of entries a.id h))
      (rows-sum f g as_of entries accounts same h)

-- The lines that are stored are in cents.
debit-IsCents : (l : JournalLine) → IsNormal l → IsCents l.base_debit
unfolding normalize_stored
debit-IsCents l h = subst IsCents (ap JournalLine.base_debit h) (quantize-IsCents l.base_debit)

credit-IsCents : (l : JournalLine) → IsNormal l → IsCents l.base_credit
unfolding normalize_stored
credit-IsCents l h = subst IsCents (ap JournalLine.base_credit h) (quantize-IsCents l.base_credit)

replayed-IsCents :
    (f : JournalLine → Decimal) (as_of : Date) (entries : List Entry)
    → All (λ e. All (λ l. IsCents (f l)) (lines_of e)) entries
    → IsCents (replayed f as_of entries)
replayed-IsCents f as_of entries h = sum-IsCents _ entries (
    All-map _ _
      (λ e k. if-IsCents (date_leb (header_of e).entry_date as_of) _ (sum-IsCents f (lines_of e) k))
      entries h)

-- With every entry balanced the two replays agree.
replayed_balanced :
    (as_of : Date) (entries : List Entry)
    → All EntryBalanced entries
    → replayed JournalLine.base_debit as_of entries ≡ replayed JournalLine.base_credit as_of entries
replayed_balanced as_of [] h = refl
replayed_balanced as_of (e ∷ entries) h =
    ap₂ (λ x y. x +ℤ y)
      (ap (λ (x : Decimal). if date_leb (header_of e).entry_date as_of then x else pos 0)
        h.0.money_balance)
      (replayed_balanced as_of entries h.1)

-- Of a ledger that posting has kept sound, with each line's account in the table once, the trial
-- balance as of any day has for its totals the sums of all lines up to the day, line by line, and it
-- is balanced.
pub compute_trial_balance_lem :
    (gl_digest : String → GlFields → String) (ledger_digest : String → LedgerFields → String)
    (db : Db) (as_of : Date)
    → IsSound gl_digest ledger_digest db
    → All (AllKnown db.accounts) db.entries
    → ((compute_trial_balance db as_of).total_base_debit
        ≡ replayed JournalLine.base_debit as_of db.entries)
      × ((compute_trial_balance db as_of).total_base_credit
          ≡ replayed JournalLine.base_credit as_of db.entries)
      × ((compute_trial_balance db as_of).balanced ≡ true)
unfolding compute_trial_balance
compute_trial_balance_lem gl_digest ledger_digest db as_of s known =
    let d = All-map _ _ (λ e k. All-map _ _ debit-IsCents (lines_of e) k) db.entries s.normal in
    let c = All-map _ _ (λ e k. All-map _ _ credit-IsCents (lines_of e) k) db.entries s.normal in
    let debit = total JournalLine.base_debit AccountRow.base_debit (λ a. refl) d in
    let credit = total JournalLine.base_credit AccountRow.base_credit (λ a. refl) c in
    (
      debit,
      credit,
      (eq_ℤ_iff _ _).1 (debit ∙ replayed_balanced as_of db.entries s.balanced ∙ sym credit),
    )
  where
    total :
        (f : JournalLine → Decimal) (g : AccountRow → Decimal)
        → ((a : Account)
            → g (account_row as_of db.entries a)
              ≡ quantize q_money (base_at f as_of db.entries a.id))
        → All (λ e. All (λ l. IsCents (f l)) (lines_of e)) db.entries
        → quantize q_money (sum_of g (account_rows as_of db.entries db.accounts))
          ≡ replayed f as_of db.entries
    total f g same h =
        ap (quantize q_money) (
          rows-sum f g as_of db.entries db.accounts same h
          ∙ entries_by_account f as_of db.accounts db.entries known)
        ∙ quantize_cents _ (replayed-IsCents f as_of db.entries h)

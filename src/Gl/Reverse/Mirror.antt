-- ===== src/Gl/Reverse/Mirror.antt =====
-- A reversal exchanges debit and credit line by line, so that it cancels the original on every
-- account, in USD base and in grams of every karat.
use mathlib.Core.Path.{subst}
use jewelry_backend.Common.{
  ◌≡◌, ◌≢◌, refl, ap, ap₂, sym, ◌∙◌, Bool, ◌&&◌, Option, none, some, List, [], ◌∷◌, ◌++◌, String,
  map, str_eq, if◌then◌else◌, ok, bind_inversion, find, All, Bool-cases, Option-cases, inl, inr,
}
use jewelry_backend.Common.Int.{pos, ◌+ℤ◌, +ℤ_comm}
use jewelry_backend.Money.{Decimal}
use jewelry_backend.Audit.Ledger.{LedgerFields}
use jewelry_backend.Gl.Lines.{sum_of, tag_is}
use jewelry_backend.Gl.Store.{JournalLine, GlFields, Entry, Db, entry_id, header_of, lines_of}
use jewelry_backend.Gl.Post.{Supply, line_to_hash_dict, post_entry}
use jewelry_backend.Gl.Post.Invariant.{IsSound, IsNormal, normalize_stored, sum_of-map}
use jewelry_backend.Gl.Post.Soundness.{post_entry-ok, stored_proposed}
use jewelry_backend.Gl.Reverse.{
  Reversal, swap_line, reversal_checks, reversal_posting, find_entry, reverse_found, reverse_entry,
}

-- A stored line with its sides exchanged.
unfoldable pub mirrored : JournalLine → JournalLine
unfolding swap_line
mirrored l = line_to_hash_dict (swap_line l)

mirror_lines :
    (lines : List JournalLine)
    → All IsNormal lines
    → map normalize_stored (map line_to_hash_dict (map swap_line lines)) ≡ map mirrored lines
unfolding mirrored normalize_stored
mirror_lines [] h = refl
mirror_lines (l ∷ lines) h =
    ap₂ ◌∷◌
      (ap (λ (x : JournalLine). line_to_hash_dict (swap_line (record x { memo = l.memo }))) h.0)
      (mirror_lines lines h.1)

none_ne_some {ℓ} : {A : Type ℓ} {a : A} → ◌≡◌ {A = Option A} none (some a) → ⊥
none_ne_some h = cc

pub some_eq {ℓ} : {A : Type ℓ} {a b : A} → some a ≡ some b → a ≡ b
some_eq h = cc

pub find-All {ℓ} :
    (P : Entry → Type ℓ) (q : Entry → Bool) (es : List Entry) {e : Entry}
    → find q es ≡ some e
    → All P es
    → P e
find-All P q [] found h = absurd (none_ne_some found)
find-All P q (x ∷ es) {e} found h = elim (Bool-cases (q x)) [
  | inl this ↦ subst P (some_eq (rw (this, find) at found)) h.0
  | inr other ↦ find-All P q es (rw (other, find) at found) h.1
]

-- The base amounts of a line where it is on account `a`, and its grams where its karat is `k`.
abbrev pub account_debit : String → JournalLine → Decimal
account_debit a ln = if str_eq ln.account_id a then ln.base_debit else pos 0

abbrev pub account_credit : String → JournalLine → Decimal
account_credit a ln = if str_eq ln.account_id a then ln.base_credit else pos 0

abbrev pub account_debit_grams : String → String → JournalLine → Decimal
account_debit_grams a k ln =
    if str_eq ln.account_id a && tag_is k ln.karat then ln.metal_debit_grams else pos 0

abbrev pub account_credit_grams : String → String → JournalLine → Decimal
account_credit_grams a k ln =
    if str_eq ln.account_id a && tag_is k ln.karat then ln.metal_credit_grams else pos 0

-- Together the lines of both leave every account where it was.
pub record Cancels (original reversing : Entry) : Type 0 where
  pub base :
      (a : String)
      → sum_of (account_debit a) (lines_of original)
          +ℤ sum_of (account_debit a) (lines_of reversing)
        ≡ sum_of (account_credit a) (lines_of original)
          +ℤ sum_of (account_credit a) (lines_of reversing)
  pub grams :
      (a k : String)
      → sum_of (account_debit_grams a k) (lines_of original)
          +ℤ sum_of (account_debit_grams a k) (lines_of reversing)
        ≡ sum_of (account_credit_grams a k) (lines_of original)
          +ℤ sum_of (account_credit_grams a k) (lines_of reversing)

mirror-Cancels :
    (original reversing : Entry)
    → lines_of reversing ≡ map mirrored (lines_of original)
    → Cancels original reversing
unfolding mirrored
mirror-Cancels original reversing same = record {
  base = λ a.
      rw
        (
          same,
          sum_of-map (account_debit a) mirrored (account_credit a) (lines_of original) (λ x. refl),
          sum_of-map (account_credit a) mirrored (account_debit a) (lines_of original) (λ x. refl),
        )
        (+ℤ_comm _ _);
  grams = λ a k.
      rw
        (
          same,
          sum_of-map (account_debit_grams a k) mirrored (account_credit_grams a k)
              (lines_of original) (λ x. refl),
          sum_of-map (account_credit_grams a k) mirrored (account_debit_grams a k)
              (lines_of original) (λ x. refl),
        )
        (+ℤ_comm _ _);
}

module _ (gl_digest : String → GlFields → String)
    (ledger_digest : String → LedgerFields → String) where
  pub reverse_entry-ok :
      (db : Db) (r : Reversal) (supply : Supply) {e : Entry} {db' : Db}
      → reverse_entry gl_digest ledger_digest db r supply ≡ ok (e, db')
      → (original : Entry) × (find_entry db.entries r.original_entry_id ≡ some original)
        × (reversal_checks db original ≡ ok tt)
        × (post_entry gl_digest ledger_digest db (reversal_posting r original) supply ≡ ok (e, db'))
  unfolding reverse_entry
  reverse_entry-ok db r supply {e} {db'} h =
      elim (Option-cases (find_entry db.entries r.original_entry_id)) [
        | inl gone ↦ cc (rw (gone, reverse_found) at h)
        | inr (original, found) ↦
            let (u, checked, posted) =
              bind_inversion (reversal_checks db original)
                (λ (u : Unit {0}).
                  post_entry gl_digest ledger_digest db (reversal_posting r original) supply)
                (rw found at h) in
            (original, found, checked, posted)
      ]

  module _ (gl_nonempty : (h : String) (f : GlFields) → gl_digest h f ≢ "")
      (ledger_nonempty : (h : String) (f : LedgerFields) → ledger_digest h f ≢ "") where
    -- A reversal that succeeds mirrors the entry, names it as reversed, and cancels it.
    pub reverse_entry-Cancels :
        (db : Db) (r : Reversal) (supply : Supply) {e : Entry} {db' : Db}
        → IsSound gl_digest ledger_digest db
        → reverse_entry gl_digest ledger_digest db r supply ≡ ok (e, db')
        → (original : Entry) × (find_entry db.entries r.original_entry_id ≡ some original)
          × ((header_of e).reverses_entry_id ≡ some (entry_id original))
          × (db'.entries ≡ db.entries ++ e ∷ [])
          × Cancels original e
    unfolding reversal_posting
    reverse_entry-Cancels db r supply {e} {db'} s h =
        let (original, found, checked, posted) = reverse_entry-ok db r supply h in
        let p = reversal_posting r original in
        let (period, lines, passed, same_entry, same_db) =
          post_entry-ok gl_digest ledger_digest gl_nonempty ledger_nonempty db p supply s posted in
        let normal =
          find-All (λ (x : Entry). All IsNormal (lines_of x))
            (λ (x : Entry). str_eq (entry_id x) r.original_entry_id) db.entries found s.normal in
        (
          original,
          found,
          ap (λ (x : Entry). (header_of x).reverses_entry_id) same_entry,
          ap (λ (x : Db). x.entries) same_db
              ∙ ap (λ (x : Entry). db.entries ++ x ∷ []) (sym same_entry),
          mirror-Cancels original e (
              ap (λ (x : Entry). lines_of x) same_entry
              ∙ stored_proposed gl_digest ledger_digest gl_nonempty ledger_nonempty db p supply
                  period lines s passed
              ∙ mirror_lines (lines_of original) normal),
        )

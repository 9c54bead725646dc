-- ===== src/Gl/Post/Invariant.antt =====
-- The invariant of the general ledger, and lemmas on its parts for one more entry.
use mathlib.Core.Path.{subst}
use jewelry_backend.Common.{
  Option, none, some, ok, find, bind_inversion, ◌>>=◌, ok-injective, ap₂, ℕ, ◌+◌, ◌≤◌, ◌<◌, ◌≡◌,
  ◌≢◌, refl, ap, sym, ◌∙◌, Bool, true, false, ◌&&◌, List, [], ◌∷◌, ◌++◌, String, map, arith, All,
  count_if, count_if-append, length, eq_iff, str_eq, if◌then◌else◌, Bool-cases, inl, inr,
}
use jewelry_backend.Common.Int.{pos, ◌+ℤ◌}
use jewelry_backend.Common.Dates.{DocNo, doc_no_eq, doc_no_eq-eq}
use jewelry_backend.Audit.{Row, IsChain, last_hash, genesis_hash}
use jewelry_backend.Audit.Ledger
use jewelry_backend.Audit.Ledger.{LedgerFields, append-eq, appended, appended-IsSound}
use jewelry_backend.Gl.Lines.{GlLine, sum_of, tag_is, debit_at, credit_at}
use jewelry_backend.Gl.Balance.{IsBalanced}
use jewelry_backend.Gl.Store.{
  Sequence, JournalLine, GlFields, Entry, Db, header_of, lines_of, entry_rows, reverses, live_for,
  unique_live_source_type,
}
use jewelry_backend.Money.{Decimal, quantize}
use jewelry_backend.Money.Rounding.{quantize_twice}
use jewelry_backend.Gl.Lines.{normalize_line_decimals, q_money, q_fx, q_grams}
use jewelry_backend.Gl.Store.{resolve_denominations, resolve_line, Account}
use jewelry_backend.Gl.Post.{line_to_hash_dict}
use jewelry_backend.Gl.Post.Numbers.{last_seq}

-- The grams of a stored line where its karat is `k`.
abbrev pub stored_debit_at : String → JournalLine → Decimal
stored_debit_at k ln = if tag_is k ln.karat then ln.metal_debit_grams else pos 0

abbrev pub stored_credit_at : String → JournalLine → Decimal
stored_credit_at k ln = if tag_is k ln.karat then ln.metal_credit_grams else pos 0

-- A stored entry balances in USD base and in grams of every karat.
pub record EntryBalanced (e : Entry) : Type 0 where
  pub money_balance :
      sum_of JournalLine.base_debit (lines_of e) ≡ sum_of JournalLine.base_credit (lines_of e)
  pub metal_balance :
      (k : String)
      → sum_of (stored_debit_at k) (lines_of e) ≡ sum_of (stored_credit_at k) (lines_of e)

-- The normalisation of a line, on what is stored of it.
unfoldable pub normalize_stored : JournalLine → JournalLine
normalize_stored ln = record ln {
  base_debit = quantize q_money ln.base_debit;
  base_credit = quantize q_money ln.base_credit;
  money_debit = quantize q_money ln.money_debit;
  money_credit = quantize q_money ln.money_credit;
  fx_rate = quantize q_fx ln.fx_rate;
  metal_debit_grams = quantize q_grams ln.metal_debit_grams;
  metal_credit_grams = quantize q_grams ln.metal_credit_grams;
}

-- The amounts of a stored line are at the scale of their columns.
abbrev pub IsNormal : JournalLine → Type 0
IsNormal ln = normalize_stored ln ≡ ln

normalize_stored-IsNormal : (ln : JournalLine) → IsNormal (normalize_stored ln)
unfolding normalize_stored
normalize_stored-IsNormal ln i = record ln {
  base_debit = quantize_twice q_money ln.base_debit (omega arith) i;
  base_credit = quantize_twice q_money ln.base_credit (omega arith) i;
  money_debit = quantize_twice q_money ln.money_debit (omega arith) i;
  money_credit = quantize_twice q_money ln.money_credit (omega arith) i;
  fx_rate = quantize_twice q_fx ln.fx_rate (omega arith) i;
  metal_debit_grams = quantize_twice q_grams ln.metal_debit_grams (omega arith) i;
  metal_credit_grams = quantize_twice q_grams ln.metal_credit_grams (omega arith) i;
}

pub normalized-IsNormal : (lines : List JournalLine) → All IsNormal (map normalize_stored lines)
normalized-IsNormal [] = tt
normalized-IsNormal (ln ∷ lines) = (normalize_stored-IsNormal ln, normalized-IsNormal lines)

-- Resolving a line changes nothing that is stored of it.
resolve_line-stored :
    (found : Option Account) (ln : GlLine) {ln' : GlLine}
    → resolve_line found ln ≡ ok ln'
    → line_to_hash_dict ln' ≡ line_to_hash_dict ln
resolve_line-stored none ln h = cc
resolve_line-stored (some acct) ln h = elim (Bool-cases acct.is_active) [
  | inl active ↦ ap line_to_hash_dict (sym (ok-injective (rw active at h)))
  | inr inactive ↦ cc (rw inactive at h)
]

-- What is stored of resolved and normalised lines is what was proposed, normalised.
pub stored_lines :
    (accounts : List Account) (lines resolved : List GlLine)
    → resolve_denominations accounts lines ≡ ok resolved
    → map line_to_hash_dict (map normalize_line_decimals resolved)
      ≡ map normalize_stored (map line_to_hash_dict lines)
unfolding resolve_denominations normalize_line_decimals normalize_stored
stored_lines accounts [] resolved h =
    ap (λ (l : List GlLine). map line_to_hash_dict (map normalize_line_decimals l))
      (sym (ok-injective h))
stored_lines accounts (ln ∷ lines) resolved h =
    let found = find (λ (a : Account). str_eq a.id ln.account_id) accounts in
    let (ln', this, h1) =
      bind_inversion (resolve_line found ln)
        (λ (x : GlLine). resolve_denominations accounts lines >>= λ (xs : List GlLine). ok (x ∷ xs))
        h in
    let (lines', rest, h2) =
      bind_inversion (resolve_denominations accounts lines) (λ (xs : List GlLine). ok (ln' ∷ xs))
        h1 in
    ap (λ (l : List GlLine). map line_to_hash_dict (map normalize_line_decimals l))
      (sym (ok-injective h2))
    ∙ ap₂ ◌∷◌ (ap (λ (l : JournalLine). normalize_stored l) (resolve_line-stored found ln this))
        (stored_lines accounts lines lines' rest)

abbrev pub has_number : DocNo → Entry → Bool
has_number n e = doc_no_eq (header_of e).entry_no n

abbrev pub Numbered : List Sequence → Entry → Type 0
Numbered rows e = (header_of e).entry_no.seq ≤ last_seq rows (header_of e).entry_no

pub record IsSound (gl_digest : String → GlFields → String)
    (ledger_digest : String → LedgerFields → String) (db : Db) : Type 0 where
  pub chain : IsChain gl_digest genesis_hash (entry_rows db.entries)
  pub head : db.latest_entry_hash ≡ last_hash gl_digest genesis_hash (entry_rows db.entries)
  pub count : db.row_count ≡ length db.entries
  pub hash_present : db.latest_entry_hash ≢ ""
  pub audit : Ledger.IsSound ledger_digest db.ledger
  pub balanced : All EntryBalanced db.entries
  pub reversed_once : (id : String) → count_if (reverses id) db.entries ≤ 1
  pub posted_once :
      (source_type id : String)
      → unique_live_source_type source_type ≡ true
      → count_if (live_for source_type id) db.entries ≤ 1
  pub normal : All (λ e. All IsNormal (lines_of e)) db.entries
  pub numbered : All (Numbered db.sequences) db.entries
  pub numbers_differ : (n : DocNo) → count_if (has_number n) db.entries ≤ 1

pub sum_of-map {ℓ κ} :
    {A : Type ℓ} {B : Type κ} (f : B → Decimal) (g : A → B) (h : A → Decimal) (xs : List A)
    → ((x : A) → f (g x) ≡ h x)
    → sum_of f (map g xs) ≡ sum_of h xs
sum_of-map f g h [] e = refl
sum_of-map f g h (x ∷ xs) e = λ i. e x i +ℤ sum_of-map f g h xs e i

-- What is stored of balanced lines balances.
pub stored_balanced :
    (lines : List GlLine) (e : Entry)
    → lines_of e ≡ map line_to_hash_dict lines
    → IsBalanced lines
    → EntryBalanced e
stored_balanced lines e same b = record {
  money_balance = rw same (
      sum_of-map JournalLine.base_debit line_to_hash_dict GlLine.base_debit lines (λ x. refl)
      ∙ b.money_balance
      ∙ sym (
          sum_of-map JournalLine.base_credit line_to_hash_dict GlLine.base_credit lines
            (λ x. refl)));
  metal_balance = λ k. rw same (
      sum_of-map (stored_debit_at k) line_to_hash_dict (debit_at k) lines (λ x. refl)
      ∙ b.metal_balance k
      ∙ sym (sum_of-map (stored_credit_at k) line_to_hash_dict (credit_at k) lines (λ x. refl)));
}

pub str_ne : (a b : String) → a ≢ b → str_eq a b ≡ false
str_ne a b ne = ground (arith, eq_iff a b)

-- One more item keeps a count at one, if it is not counted or the first.
pub count_if-add :
    (q : Entry → Bool) (es : List Entry) (e : Entry)
    → count_if q es ≤ 1
    → (q e ≡ true → count_if q es ≡ 0)
    → count_if q (es ++ e ∷ []) ≤ 1
count_if-add q es e most first = rw count_if-append (ground arith)

pub le_lt_absurd : {a b : ℕ} → a ≤ b → b < a → ⊥
le_lt_absurd h k = omega arith

pub and_false_absurd : (a : Bool) → (a && false) ≡ true → ⊥
and_false_absurd true h = cc
and_false_absurd false h = cc

pub and_not_absurd : (a b : Bool) → (a && (b && false)) ≡ true → ⊥
and_not_absurd a b h = ground arith

pub above_last : {a b : ℕ} → a ≡ b + 1 → b < a
above_last h = omega arith

-- A number above the counter is not given out.
pub numbers_below :
    (rows : List Sequence) (n : DocNo) (es : List Entry)
    → All (Numbered rows) es
    → last_seq rows n < n.seq
    → count_if (has_number n) es ≡ 0
numbers_below rows n [] h above = refl
numbers_below rows n (e ∷ es) h above = elim (Bool-cases (has_number n e)) [
  | inl this ↦
      let same = doc_no_eq-eq (header_of e).entry_no n this in
      absurd (le_lt_absurd (subst (λ (m : DocNo). m.seq ≤ last_seq rows m) same h.0) above)
  | inr other ↦ rw (other, count_if) (numbers_below rows n es h.1 above)
]

pub entry_rows-append :
    (es : List Entry) (e : Entry) → entry_rows (es ++ e ∷ []) ≡ entry_rows es ++ e.row ∷ []
entry_rows-append [] e = refl
entry_rows-append (x ∷ es) e = ap (λ (r : List (Row GlFields)). x.row ∷ r) (entry_rows-append es e)

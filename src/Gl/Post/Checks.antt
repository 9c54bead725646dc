-- ===== src/Gl/Post/Checks.antt =====
-- What is known of a posting that passes the checks of `post_entry`, and what each refusal is.
use jewelry_backend.Common.{
  ◌≡◌, refl, sym, ◌∙◌, true, Option, none, some, List, [], ◌∷◌, String, map, ok, ok-injective, ap,
  bind_inversion, Option-cases, inl, inr, count_if, find, count_if-find,
}
use jewelry_backend.Gl.Lines.{GlLine, LineError, validate_balanced, normalize_line_decimals}
use jewelry_backend.Gl.Store.{
  Period, Entry, Db, resolve_open_period, resolve_denominations, refuse_duplicate_posting, reverses,
  live_for, unique_live_source_type,
}
use jewelry_backend.Gl.Post.{Posting, post_checks, require_valid}

require_valid-eq-ok : (es : List LineError) {u : Unit {0}} → require_valid es ≡ ok u → es ≡ []
require_valid-eq-ok [] h = refl
require_valid-eq-ok (e ∷ es) h = cc

-- The facts that the checks establish of a period and the lines to be stored.
pub record Passed (db : Db) (p : Posting) (period : Period) (lines : List GlLine) : Type 0 where
  pub period_found : resolve_open_period db.periods p.entry_date p.allow_closed_period ≡ ok period
  pub resolved : List GlLine
  pub accounts_found : resolve_denominations db.accounts p.lines ≡ ok resolved
  pub normalized : lines ≡ map normalize_line_decimals resolved
  pub valid : validate_balanced lines ≡ []
  pub unposted :
      refuse_duplicate_posting db.entries p.source_type p.source_id p.reverses_entry_id ≡ ok tt

pub post_checks-Passed :
    (db : Db) (p : Posting) {period : Period} {lines : List GlLine}
    → post_checks db p ≡ ok (period, lines)
    → Passed db p period lines
unfolding post_checks
post_checks-Passed db p {period} {lines} h =
    let (found, found_eq, h1) =
      bind_inversion (resolve_open_period db.periods p.entry_date p.allow_closed_period) _ h in
    let (resolved, resolved_eq, h2) =
      bind_inversion (resolve_denominations db.accounts p.lines) _ h1 in
    let (u, valid, h3) =
      bind_inversion (require_valid (validate_balanced (map normalize_line_decimals resolved))) _
        h2 in
    let (v, fresh, h4) =
      bind_inversion
        (refuse_duplicate_posting db.entries p.source_type p.source_id p.reverses_entry_id) _ h3 in
    let same = ok-injective h4 in
    record {
      period_found = found_eq ∙ ap ok (ap (λ (x : Period × List GlLine). x.0) same);
      resolved = resolved;
      accounts_found = resolved_eq;
      normalized = sym (ap (λ (x : Period × List GlLine). x.1) same);
      valid =
          ap validate_balanced (sym (ap (λ (x : Period × List GlLine). x.1) same))
          ∙ require_valid-eq-ok _ valid;
      unposted = fresh;
    }

module _ (entries : List Entry) (source_type : String) where
  -- A reversal passes only while the entry has none.
  pub unposted-reversal :
      (source_id : Option String) (id : String)
      → refuse_duplicate_posting entries source_type source_id (some id) ≡ ok tt
      → count_if (reverses id) entries ≡ 0
  unfolding refuse_duplicate_posting
  unposted-reversal source_id id h = elim (Option-cases (find (reverses id) entries)) [
    | inl gone ↦ count_if-find (reverses id) entries gone
    | inr (e, found) ↦ cc (rw (found, refuse_duplicate_posting) at h)
  ]

  -- An entry of an auto-post source passes only while the source has no live entry.
  pub unposted-source :
      (id : String)
      → unique_live_source_type source_type ≡ true
      → refuse_duplicate_posting entries source_type (some id) none ≡ ok tt
      → count_if (live_for source_type id) entries ≡ 0
  unfolding refuse_duplicate_posting
  unposted-source id unique h = elim (Option-cases (find (live_for source_type id) entries)) [
    | inl gone ↦ count_if-find (live_for source_type id) entries gone
    | inr (e, found) ↦ cc (rw (unique, found) at h)
  ]

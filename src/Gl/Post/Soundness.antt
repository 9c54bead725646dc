-- ===== src/Gl/Post/Soundness.antt =====
-- `post_entry` keeps the invariant of the general ledger.
use native.Mathlib.Nat.{le_refl, le_trans}
use mathlib.Core.Path.{subst, subst₂}
use jewelry_backend.Common.{
  map, ◌+◌, ◌≤◌, ◌<◌, ◌≡◌, ◌≢◌, refl, ap, sym, ◌∙◌, true, not, ◌&&◌, Option, none, some, List, [],
  ◌∷◌, ◌++◌, String, arith, ok, bind_inversion, ok-injective, All, All-append, All-map, count_if,
  length-append, eq_iff, str_eq,
}
use jewelry_backend.Common.Dates.{DocNo, same_day_key-true, doc_no_eq-eq, and_true}
use jewelry_backend.Audit.{genesis_hash}
use jewelry_backend.Audit.Walk.{IsChain-append, last_hash-append}
use jewelry_backend.Audit.Ledger.{LedgerFields, appended, appended-IsSound}
use jewelry_backend.Gl.Lines.{GlLine}
use jewelry_backend.Gl.Balance.{validate_balanced_iff}
use jewelry_backend.Gl.Store.{
  Period, GlFields, Entry, Db, header_of, entry_rows, reverses, reverses_target, is_text,
  is_present, refuse_duplicate_posting, live_for, unique_live_source_type, next_doc_no,
}
use jewelry_backend.Gl.Store.{lines_of}
use jewelry_backend.Gl.Post.{
  line_to_hash_dict, Posting, Supply, fields_of, posted_event, post_checks, write_entry, post_entry,
}
use jewelry_backend.Gl.Post.Numbers.{
  last_seq, next_doc_no-seq, last_seq-next_doc_no, last_seq-le-next_doc_no,
}
use jewelry_backend.Gl.Post.Checks.{Passed, post_checks-Passed, unposted-reversal, unposted-source}
use jewelry_backend.Gl.Post.Invariant.{
  normalize_stored, IsNormal, stored_lines, normalized-IsNormal, EntryBalanced, IsSound, Numbered,
  above_last, and_false_absurd, and_not_absurd, count_if-add, entry_rows-append, has_number,
  numbers_below, stored_balanced, str_ne,
}

module _ (gl_digest : String → GlFields → String)
    (ledger_digest : String → LedgerFields → String) where
  -- The entry that a posting writes, and the tables after it.
  abbrev pub written_entry : Db → Posting → Supply → Period → List GlLine → Entry
  written_entry db p supply period lines =
      let fields = fields_of p supply (next_doc_no db.sequences "JE" p.entry_date).0 lines in
      record {
        period_id = period.id;
        row = record {
          id = supply.entry_id;
          prev_hash = db.latest_entry_hash;
          entry_hash = gl_digest db.latest_entry_hash fields;
          fields = fields;
        };
      }

  abbrev pub written : Db → Posting → Supply → Period → List GlLine → Db
  written db p supply period lines =
      let entry = written_entry db p supply period lines in
      record db {
        sequences = (next_doc_no db.sequences "JE" p.entry_date).1;
        entries = db.entries ++ entry ∷ [];
        latest_entry_hash = entry.row.entry_hash;
        row_count = db.row_count + 1;
        ledger =
            appended ledger_digest db.ledger supply.event_id
              (posted_event p supply (header_of entry).entry_no lines);
      }

  pub write_entry-eq :
      (db : Db) (p : Posting) (supply : Supply) (period : Period) (lines : List GlLine)
      → IsSound gl_digest ledger_digest db
      → write_entry gl_digest ledger_digest db p supply period lines
        ≡ ok (written_entry db p supply period lines, written db p supply period lines)
  unfolding write_entry
  write_entry-eq db p supply period lines s =
      rw (str_ne _ _ s.hash_present, str_ne _ _ s.audit.nonempty) refl

  module _ (gl_nonempty : (h : String) (f : GlFields) → gl_digest h f ≢ "")
      (ledger_nonempty : (h : String) (f : LedgerFields) → ledger_digest h f ≢ "") (db : Db)
      (p : Posting) (supply : Supply) (period : Period) (lines : List GlLine)
      (s : IsSound gl_digest ledger_digest db) (passed : Passed db p period lines) where
    reversal_first :
        (target : Option String) (id : String)
        → reverses_target id target ≡ true
        → refuse_duplicate_posting db.entries p.source_type p.source_id target ≡ ok tt
        → count_if (reverses id) db.entries ≡ 0
    reversal_first none id this unposted = cc
    reversal_first (some r) id this unposted =
        subst (λ (x : String). count_if (reverses x) db.entries ≡ 0) ((eq_iff r id).0 this)
          (unposted-reversal db.entries p.source_type p.source_id r unposted)

    posted_first :
        (source_id target : Option String) (source_type id : String)
        → (str_eq p.source_type source_type && (is_text id source_id && not (is_present target)))
          ≡ true
        → unique_live_source_type source_type ≡ true
        → refuse_duplicate_posting db.entries p.source_type source_id target ≡ ok tt
        → count_if (live_for source_type id) db.entries ≡ 0
    posted_first none target source_type id this unique unposted =
        absurd (and_false_absurd (str_eq p.source_type source_type) this)
    posted_first (some r) (some t) source_type id this unique unposted =
        absurd (and_not_absurd (str_eq p.source_type source_type) (str_eq r id) this)
    posted_first (some r) none source_type id this unique unposted =
        let parts = and_true (str_eq p.source_type source_type) (str_eq r id && true) this in
        let same_type = (eq_iff p.source_type source_type).0 parts.0 in
        let same_id = (eq_iff r id).0 (and_true (str_eq r id) true parts.1).0 in
        subst₂ (λ (t x : String). count_if (live_for t x) db.entries ≡ 0) same_type same_id
          (unposted-source db.entries p.source_type r
            (subst (λ (t : String). unique_live_source_type t ≡ true) (sym same_type) unique)
            unposted)

    numbers_kept : All (Numbered (written db p supply period lines).sequences) db.entries
    numbers_kept =
        All-map _ _
          (λ (e : Entry) (h : Numbered db.sequences e).
            le_trans h
              (last_seq-le-next_doc_no db.sequences "JE" p.entry_date (header_of e).entry_no))
          db.entries s.numbered

    number_new :
        Numbered
          (written db p supply period lines).sequences
          (written_entry db p supply period lines)
    number_new =
        let new = (next_doc_no db.sequences "JE" p.entry_date).0 in
        rw
          (
            last_seq-next_doc_no "JE" p.entry_date db.sequences new,
            same_day_key-true new new refl refl,
          )
          (le_refl new.seq)

    numbers_differ_after :
        (n : DocNo) → count_if (has_number n) (written db p supply period lines).entries ≤ 1
    numbers_differ_after n = count_if-add (has_number n) db.entries _ (s.numbers_differ n) λ same.
        numbers_below db.sequences n db.entries s.numbered (
          subst (λ (m : DocNo). last_seq db.sequences m < m.seq)
            (doc_no_eq-eq (next_doc_no db.sequences "JE" p.entry_date).0 n same)
            (above_last (next_doc_no-seq "JE" p.entry_date db.sequences)))

    reversed_once_after :
        (id : String) → count_if (reverses id) (written db p supply period lines).entries ≤ 1
    reversed_once_after id =
        count_if-add (reverses id) db.entries _ (s.reversed_once id)
          λ this. reversal_first p.reverses_entry_id id this passed.unposted

    posted_once_after :
        (source_type id : String)
        → unique_live_source_type source_type ≡ true
        → count_if (live_for source_type id) (written db p supply period lines).entries ≤ 1
    posted_once_after source_type id unique =
        count_if-add (live_for source_type id) db.entries _ (s.posted_once source_type id unique)
          λ this.
            posted_first p.source_id p.reverses_entry_id source_type id this unique passed.unposted

    -- What is stored is what was proposed, normalised.
    pub stored_proposed :
        map line_to_hash_dict lines ≡ map normalize_stored (map line_to_hash_dict p.lines)
    stored_proposed =
        ap (map line_to_hash_dict) passed.normalized
        ∙ stored_lines db.accounts p.lines passed.resolved passed.accounts_found

    lines-IsNormal : All IsNormal (lines_of (written_entry db p supply period lines))
    lines-IsNormal = rw stored_proposed (normalized-IsNormal (map line_to_hash_dict p.lines))

    written-IsSound : IsSound gl_digest ledger_digest (written db p supply period lines)
    written-IsSound = record {
      chain = rw (entry_rows-append db.entries (written_entry db p supply period lines)) (
          IsChain-append gl_digest genesis_hash (entry_rows db.entries) _ s.chain (
            s.head,
            ap (λ (h : String). gl_digest h (written_entry db p supply period lines).row.fields)
                s.head,
            tt,
          ));
      head =
          rw (entry_rows-append db.entries (written_entry db p supply period lines))
            (sym (last_hash-append gl_digest genesis_hash (entry_rows db.entries) _));
      count = rw length-append (omega (arith, s.count));
      hash_present = gl_nonempty db.latest_entry_hash _;
      audit = appended-IsSound ledger_digest ledger_nonempty db.ledger supply.event_id _ s.audit;
      balanced =
          All-append EntryBalanced db.entries _ s.balanced
            (stored_balanced lines _ refl ((validate_balanced_iff lines).0 passed.valid), tt);
      reversed_once = reversed_once_after;
      posted_once = posted_once_after;
      normal = All-append _ db.entries _ s.normal (lines-IsNormal, tt);
      numbered = All-append _ db.entries _ numbers_kept (number_new, tt);
      numbers_differ = numbers_differ_after;
    }

  module _ (gl_nonempty : (h : String) (f : GlFields) → gl_digest h f ≢ "")
      (ledger_nonempty : (h : String) (f : LedgerFields) → ledger_digest h f ≢ "") where
    -- A posting that passes the checks is written: the rest of the function does not raise.
    pub post_entry-written :
        (db : Db) (p : Posting) (supply : Supply) {period : Period} {lines : List GlLine}
        → IsSound gl_digest ledger_digest db
        → post_checks db p ≡ ok (period, lines)
        → post_entry gl_digest ledger_digest db p supply
          ≡ ok (written_entry db p supply period lines, written db p supply period lines)
    post_entry-written db p supply {period} {lines} s checked =
        unfold post_entry in rw checked (write_entry-eq db p supply period lines s)

    -- What a posting that succeeds has checked and written.
    pub post_entry-ok :
        (db : Db) (p : Posting) (supply : Supply) {e : Entry} {db' : Db}
        → IsSound gl_digest ledger_digest db
        → post_entry gl_digest ledger_digest db p supply ≡ ok (e, db')
        → (period : Period) × (lines : List GlLine) × Passed db p period lines
          × (e ≡ written_entry db p supply period lines)
          × (db' ≡ written db p supply period lines)
    unfolding post_entry
    post_entry-ok db p supply {e} {db'} s h =
        let (checked, passes, wrote) =
          bind_inversion (post_checks db p)
            (λ (c : Period × List GlLine). write_entry gl_digest ledger_digest db p supply c.0 c.1)
            h in
        let same = ok-injective (sym wrote ∙ write_entry-eq db p supply checked.0 checked.1 s) in
        (
          checked.0,
          checked.1,
          post_checks-Passed db p passes,
          ap (λ (x : Entry × Db). x.0) same,
          ap (λ (x : Entry × Db). x.1) same,
        )

    -- `post_entry` keeps the invariant: the chain, the balances and the uniqueness of numbers,
    -- reversals and live sources hold of the tables after it when they hold before.
    pub post_entry-IsSound :
        (db : Db) (p : Posting) (supply : Supply) {e : Entry} {db' : Db}
        → IsSound gl_digest ledger_digest db
        → post_entry gl_digest ledger_digest db p supply ≡ ok (e, db')
        → IsSound gl_digest ledger_digest db'
    post_entry-IsSound db p supply s h =
        let (period, lines, passed, same_entry, same_db) = post_entry-ok db p supply s h in
        subst (IsSound gl_digest ledger_digest) (sym same_db)
          (written-IsSound gl_nonempty ledger_nonempty db p supply period lines s passed)

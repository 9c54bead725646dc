-- ===== src/Tests/Audit.antt =====
-- The chains with a digest that can be computed: it puts the event before the hash.
use mathlib.Core.Bool.{false≢true}
use Prim.Native.Char.{Char, code}
use Prim.Native.String.{[] as nil, ◌∷◌ as cons}
use jewelry_backend.Common.{ℕ, ◌≡◌, ◌≢◌, refl, inr, List, [], ◌∷◌, String, ok, arith, ap, eq_iff}
use jewelry_backend.Audit.{
  Row, IsChain, last_hash, genesis_hash, verify_chain, clean_report, break_report, break_at,
}
use jewelry_backend.Audit.Walk.{verify_chain_iff, verify_chain-break}
use jewelry_backend.Audit.Tamper.{newest_first, same_head_same_events}
use jewelry_backend.Audit.Ledger.{Log, append_all, empty_log, append_all-verify_chain}
use jewelry_backend.Common.{◌↔◌}

abbrev prepend : String → Char → String
prepend h c = cons "#" (cons c h)

prepend-ne-empty : (h : String) (c : Char) → prepend h c ≢ ""
prepend-ne-empty h c e = cc

abbrev leading : String → ℕ
leading nil = 0
leading (cons c s) = code c

prepend-ne-genesis : (h : String) (c : Char) → prepend h c ≢ genesis_hash
prepend-ne-genesis h c e = let f = ap leading e in absurd (omega (arith, f))

prepend-injective : (h k : String) (c d : Char) → prepend h c ≡ prepend k d → (h ≡ k) × (c ≡ d)
prepend-injective h k c d e = (cc, cc)

abbrev first : Row Char
first = record { id = "1"; prev_hash = genesis_hash; entry_hash = "#aGENESIS"; fields = "a" }

abbrev second : Row Char
second = record { id = "2"; prev_hash = "#aGENESIS"; entry_hash = "#b#aGENESIS"; fields = "b" }

-- The second row with its event changed and its hashes kept.
abbrev edited : Row Char
edited = record second { fields = "x" }

abbrev rows : List (Row Char)
rows = first ∷ second ∷ []

rows-IsChain : IsChain prepend genesis_hash rows
rows-IsChain = (refl, refl, (refl, refl, tt))

verify_chain_iff_example :
    (verify_chain prepend rows ≡ ok (clean_report 2)) ↔ IsChain prepend genesis_hash rows
verify_chain_iff_example = verify_chain_iff prepend prepend-ne-empty rows

verify_chain-break_example :
    verify_chain prepend (first ∷ edited ∷ [])
    ≡ ok (break_report 2 (break_at prepend "#aGENESIS" edited "#x#aGENESIS"))
verify_chain-break_example =
    verify_chain-break prepend (first ∷ []) [] edited prepend-ne-empty (refl, refl, tt)
      (inr (λ e. false≢true ((eq_iff "#b#aGENESIS" "#x#aGENESIS").1 e)))

-- The same events under other keys.
abbrev copied : List (Row Char)
copied = record first { id = "8" } ∷ record second { id = "9" } ∷ []

same_head_same_events_example : newest_first rows ≡ newest_first copied
same_head_same_events_example =
    same_head_same_events prepend prepend-injective prepend-ne-genesis prepend-ne-empty rows copied
      ((verify_chain_iff prepend prepend-ne-empty rows).1 rows-IsChain)
      ((verify_chain_iff prepend prepend-ne-empty copied).1 (refl, refl, (refl, refl, tt))) refl

append_all-verify_chain_example :
    (log : Log Char) × (append_all prepend empty_log (("1", "a") ∷ ("2", "b") ∷ []) ≡ ok log)
    × (verify_chain prepend log.rows ≡ ok (clean_report 2))
    × (log.row_count ≡ 2)
    × (log.latest_entry_hash ≡ last_hash prepend genesis_hash log.rows)
append_all-verify_chain_example =
    append_all-verify_chain prepend prepend-ne-empty (("1", "a") ∷ ("2", "b") ∷ [])

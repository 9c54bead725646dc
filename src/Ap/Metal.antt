-- ===== src/Ap/Metal.antt =====
-- `verify_ap_control` of app/core/ap.py: the cash block of Ap/Control, and the grams of each karat of
-- the metal account beside those of the balances.
use jewelry_backend.Common.{
  Bool, true, ◌&&◌, ◌||◌, Option, none, some, List, [], ◌∷◌, ◌++◌, String, str_eq, if◌then◌else◌,
  find,
}
use jewelry_backend.Common.Int.{◌-ℤ◌, nonzero, eq_ℤ}
use jewelry_backend.Money.{Decimal, quantize}
use jewelry_backend.Gl.Lines.{q_grams, insert_sorted}
use jewelry_backend.Gl.Store.{Account, Db, Entry, JournalLine, lines_of}
use jewelry_backend.Inventory.Supplier.{Balance, cash_unit, gold_unit}
use jewelry_backend.Postings.{has_key as has_system_key}
use jewelry_backend.Postings.Supplier.{Grams, grams_at}
use jewelry_backend.Suppliers.{add_grams}
use jewelry_backend.Ap.Control.{ApBlock, block_of, ap_account}

abbrev pub metal_account : Db → Option Account
metal_account db = find (has_system_key "METAL_AP") db.accounts

unfoldable pub all_lines : List Entry → List JournalLine
all_lines [] = []
all_lines (e ∷ entries) = lines_of e ++ all_lines entries

-- `l.karat or "?"`
abbrev pub karat_or_mark : Option String → String
karat_or_mark none = "?"
karat_or_mark (some k) = if str_eq k "" then "?" else k

-- `gl_metal`: credits less debits of the lines of the account that carry metal.
unfoldable pub gl_metal : String → List JournalLine → List Grams → List Grams
gl_metal id [] so_far = so_far
gl_metal id (l ∷ lines) so_far = gl_metal id lines (
    if str_eq l.account_id id && (nonzero l.metal_credit_grams || nonzero l.metal_debit_grams)
    then add_grams (karat_or_mark l.karat) (l.metal_credit_grams -ℤ l.metal_debit_grams) so_far
    else so_far)

-- `sub_metal`: the balances in gold.
unfoldable pub sub_metal : List Balance → List Grams → List Grams
sub_metal [] so_far = so_far
sub_metal (row ∷ rows) so_far =
    sub_metal rows
      (elim row.unit [ cash_unit ↦ so_far | gold_unit ↦ add_grams row.karat row.balance so_far ])

-- The karats of either, sorted.
unfoldable pub karats_with : List Grams → List String → List String
karats_with [] karats = karats
karats_with (g ∷ gs) karats = karats_with gs (insert_sorted g.karat karats)

pub record KaratBlock : Type 0 where
  pub karat : String
  pub gl : Decimal
  pub subledger : Decimal
  pub matches : Bool

abbrev pub karat_block : List Grams → List Grams → String → KaratBlock
karat_block gl sub k =
    let g = quantize q_grams (grams_at k gl) in
    let s = quantize q_grams (grams_at k sub) in
    record { karat = k; gl = g; subledger = s; matches = eq_ℤ g s }

unfoldable pub karat_blocks : List Grams → List Grams → List String → List KaratBlock
karat_blocks gl sub [] = []
karat_blocks gl sub (k ∷ ks) = karat_block gl sub k ∷ karat_blocks gl sub ks

unfoldable pub all_match : List KaratBlock → Bool
all_match [] = true
all_match (b ∷ blocks) = b.matches && all_match blocks

pub record ApControl : Type 0 where
  pub ap : ApBlock
  pub by_karat : List KaratBlock
  pub metal_matches : Bool

abbrev pub control_of : Db → List Balance → Option ApBlock → Option Account → Option ApControl
control_of db balances none metal = none
control_of db balances (some ap) none = none
control_of db balances (some ap) (some metal) =
    let gl = gl_metal metal.id (all_lines db.entries) [] in
    let sub = sub_metal balances [] in
    let by_karat = karat_blocks gl sub (karats_with gl (karats_with sub [])) in
    some (record { ap = ap; by_karat = by_karat; metal_matches = all_match by_karat })

-- None where an account is not seeded, where `scalar_one` raises.
unfoldable pub verify_ap_control : Db → List Balance → Option ApControl
verify_ap_control db balances =
    control_of db balances (block_of db balances (ap_account db)) (metal_account db)

-- ===== src/Orders/Tracked.antt =====
-- Stock rows that have what others had and what came back: how the handlers change them.
use jewelry_backend.Common.{
  ◌≡◌, refl, sym, ap, ◌∙◌, inl, inr, Bool, true, false, Option, none, some, List, [], ◌∷◌, String,
  if◌then◌else◌, Bool-cases,
}
use jewelry_backend.Common.Int.{ℤ, pos, ◌+ℤ◌, int_laws}
use jewelry_backend.Gl.Lines.{sum_of}
use jewelry_backend.Postings.Sale.{ItemKind, is_product}
use jewelry_backend.Orders.{Order, OrderItem, is_voided}
use jewelry_backend.Orders.Restock.{
  StockRow, is_row, stock_id, takes_back, taken_back, restock_row, restock_rows, return_to,
  return_units,
}
use jewelry_backend.Orders.Handlers.{return_all}

-- The stock of an item is the row of this key.
abbrev pub keyed : StockRow → ItemKind → Option String → Bool
keyed row kind none = false
keyed row kind (some id) = is_row kind id row

abbrev pub goes_to : StockRow → OrderItem → Bool
goes_to row it = keyed row it.sold.item_kind (stock_id it)

-- The units of an item that have come back: all of a voided order, else those refunded.
abbrev pub units_back : Bool → OrderItem → ℤ
units_back is_void it = if is_void then it.sold.quantity else it.refunded_qty

abbrev pub back_of : Bool → StockRow → OrderItem → ℤ
back_of is_void row it = if goes_to row it then units_back is_void it else pos 0

-- The units of an order that have come back to a row of the stock.
abbrev pub returned : Order → StockRow → ℤ
returned o row = sum_of (back_of (is_voided o.status) row) o.items

-- A row that has the units on hand that another had, and `more`; a retired product has no more.
pub record Tracks (more : StockRow → ℤ) (before row : StockRow) : Type 0 where
  pub kind : row.kind ≡ before.kind
  pub id : row.id ≡ before.id
  pub takes : takes_back row ≡ takes_back before
  pub on_hand :
      row.on_hand_qty ≡ before.on_hand_qty +ℤ (if takes_back before then more before else pos 0)

abbrev pub Tracked : (StockRow → ℤ) → List StockRow → List StockRow → Type 0
Tracked more [] [] = Unit
Tracked more [] (row ∷ rows) = ⊥
Tracked more (b ∷ bs) [] = ⊥
Tracked more (b ∷ bs) (row ∷ rows) = Tracks more b row × Tracked more bs rows

abbrev map_rows : (StockRow → StockRow) → List StockRow → List StockRow
map_rows f [] = []
map_rows f (row ∷ rows) = f row ∷ map_rows f rows

Tracked-map :
    (more more' : StockRow → ℤ) (f : StockRow → StockRow)
    → ((b row : StockRow) → Tracks more b row → Tracks more' b (f row))
    → (bs rows : List StockRow) → Tracked more bs rows
    → Tracked more' bs (map_rows f rows)
Tracked-map more more' f step [] [] t = tt
Tracked-map more more' f step [] (row ∷ rows) t = absurd t
Tracked-map more more' f step (b ∷ bs) [] t = absurd t
Tracked-map more more' f step (b ∷ bs) (row ∷ rows) t =
    (step b row t.0, Tracked-map more more' f step bs rows t.1)

pub Tracked-same :
    (more more' : StockRow → ℤ)
    → ((b : StockRow) → more b ≡ more' b)
    → (bs rows : List StockRow) → Tracked more bs rows
    → Tracked more' bs rows
Tracked-same more more' same [] [] t = tt
Tracked-same more more' same [] (row ∷ rows) t = absurd t
Tracked-same more more' same (b ∷ bs) [] t = absurd t
Tracked-same more more' same (b ∷ bs) (row ∷ rows) t = (
  record {
    kind = t.0.kind;
    id = t.0.id;
    takes = t.0.takes;
    on_hand =
        t.0.on_hand ∙ ap (λ (n : ℤ). b.on_hand_qty +ℤ (if takes_back b then n else pos 0)) (same b);
  },
  Tracked-same more more' same bs rows t.1,
)

-- What returning `qty` units to a key does to a row.
abbrev return_row : ItemKind → Option String → ℤ → StockRow → StockRow
return_row kind none qty row = row
return_row kind (some id) qty row = restock_row kind id qty row

restock_rows-map :
    (kind : ItemKind) (id : String) (qty : ℤ) (rows : List StockRow)
    → restock_rows kind id qty rows ≡ map_rows (return_row kind (some id) qty) rows
restock_rows-map kind id qty [] = refl
restock_rows-map kind id qty (row ∷ rows) =
    ap (λ (rs : List StockRow). restock_row kind id qty row ∷ rs)
      (restock_rows-map kind id qty rows)

same_rows : (rows : List StockRow) → rows ≡ map_rows (λ row. row) rows
same_rows [] = refl
same_rows (row ∷ rows) = ap (λ (rs : List StockRow). row ∷ rs) (same_rows rows)

return_to-map :
    (kind : ItemKind) (key : Option String) (qty : ℤ) (rows : List StockRow)
    → (return_to kind qty key rows).0 ≡ map_rows (return_row kind key qty) rows
return_to-map kind none qty rows = same_rows rows
return_to-map kind (some id) qty rows = restock_rows-map kind id qty rows

-- A row that takes units back still does after it.
taken_back-takes :
    (qty : ℤ) (row : StockRow) → takes_back row ≡ true → takes_back (taken_back qty row) ≡ true
taken_back-takes qty row h = elim (Bool-cases (is_product row.kind)) [
  | inl p ↦ rw p refl
  | inr p ↦ rw p refl
]

plus_units : (n more qty : ℤ) → n +ℤ more +ℤ qty ≡ n +ℤ (more +ℤ qty)
plus_units n more qty = omega int_laws

return_row-Tracks :
    (kind : ItemKind) (key : Option String) (qty : ℤ) (more : StockRow → ℤ) (b row : StockRow)
    → Tracks more b row
    → Tracks
        (λ r. more r +ℤ (if keyed r kind key then qty else pos 0))
        b
        (return_row kind key qty row)
return_row-Tracks kind none qty more b row t = record {
  kind = t.kind;
  id = t.id;
  takes = t.takes;
  on_hand =
      t.on_hand
      ∙ ap (λ (n : ℤ). b.on_hand_qty +ℤ (if takes_back b then n else pos 0)) (omega int_laws);
}
return_row-Tracks kind (some id) qty more b row t =
    let same_key : is_row kind id row ≡ is_row kind id b = rw (t.kind, t.id) refl in
    elim (Bool-cases (is_row kind id b)) [
      | inl this ↦ elim (Bool-cases (takes_back b)) [
        | inl takes ↦
            rw (same_key, this, t.takes, takes)
              (record {
                kind = t.kind;
                id = t.id;
                takes = taken_back-takes qty row (t.takes ∙ takes) ∙ sym takes;
                on_hand = rw (t.on_hand, takes, this) (plus_units b.on_hand_qty (more b) qty);
              })
        | inr retired ↦
            rw (same_key, this, t.takes, retired)
              (record {
                kind = t.kind;
                id = t.id;
                takes = t.takes;
                on_hand = rw (t.on_hand, retired) refl;
              })
      ]
      | inr other ↦
          rw (same_key, other)
            (record {
              kind = t.kind;
              id = t.id;
              takes = t.takes;
              on_hand =
                  rw (t.on_hand, other)
                    (ap (λ (n : ℤ). b.on_hand_qty +ℤ (if takes_back b then n else pos 0))
                      (omega int_laws));
            })
    ]

pub return_units-Tracked :
    (it : OrderItem) (qty : ℤ) (more : StockRow → ℤ) (bs rows : List StockRow)
    → Tracked more bs rows
    → Tracked (λ r. more r +ℤ (if goes_to r it then qty else pos 0)) bs (return_units it qty rows).0
unfolding return_units
return_units-Tracked it qty more bs rows t =
    rw (return_to-map it.sold.item_kind (stock_id it) qty rows) (
      Tracked-map more _ (return_row it.sold.item_kind (stock_id it) qty)
        (return_row-Tracks it.sold.item_kind (stock_id it) qty more) bs rows t)

-- The loop of a void returns every line whole.
pub return_all-Tracked :
    (o : Order) (items : List OrderItem) (more : StockRow → ℤ) (bs rows : List StockRow)
    → Tracked more bs rows
    → Tracked (λ r. more r +ℤ sum_of (back_of true r) items) bs (return_all o items rows).0
unfolding return_all
return_all-Tracked o [] more bs rows t = Tracked-same more _ (λ b. omega int_laws) bs rows t
return_all-Tracked o (it ∷ items) more bs rows t =
    Tracked-same _ _ (λ b. plus_units (more b) _ _) bs _
      (return_all-Tracked o items _ bs _ (return_units-Tracked it it.sold.quantity more bs rows t))

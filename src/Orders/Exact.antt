-- ===== src/Orders/Exact.antt =====
-- The stock that voids and refunds return is what was sold and came back, unit for unit.
use jewelry_backend.Common.{
  ℕ, ◌≡◌, refl, sym, ap, inl, inr, Bool, true, false, some, List, [], ◌∷◌, String, if◌then◌else◌,
  Bool-cases, find, All,
}
use jewelry_backend.Common.Int.{ℤ, pos, ◌+ℤ◌, int_laws, eq_of_parts}
use jewelry_backend.Gl.Lines.{sum_of}
use jewelry_backend.Gl.Reverse.Mirror.{some_eq}
use jewelry_backend.Orders.{
  OrderItem, OrderStatus, completed, refunded, partially_refunded, voided, is_voided, is_refundable,
}
use jewelry_backend.Orders.Restock.{StockRow, takes_back}
use jewelry_backend.Orders.Handlers.{has_id, refunded_item, with_item, status_of, all_refunded}
use jewelry_backend.Orders.Kept.{
  State, Step, void_step, refund_step, item_step, Reach, here, then_step, IsKept, Unrefunded,
  reach_IsKept, void_order-ok, refund_order-ok, refund_order_item-ok,
}
use jewelry_backend.Orders.Tracked.{
  goes_to, back_of, returned, Tracked, Tracked-same, return_units-Tracked, return_all-Tracked,
}

-- With one item for another, a sum changes by their difference.
with_item-sum :
    (f : OrderItem → ℤ) (id : String) (y : OrderItem) (xs : List OrderItem) (more : ℤ)
    {it : OrderItem}
    → find (has_id id) xs ≡ some it
    → f y ≡ f it +ℤ more
    → sum_of f (with_item id y xs) ≡ sum_of f xs +ℤ more
with_item-sum f id y [] more h e = cc
with_item-sum f id y (x ∷ xs) more {it} h e =
    split (has_id id x) (λ k. with_item-sum f id y xs more k e) h
  where
    split :
        (b : Bool)
        → (find (has_id id) xs ≡ some it → sum_of f (with_item id y xs) ≡ sum_of f xs +ℤ more)
        → elim b [ true ↦ some x | false ↦ find (has_id id) xs ] ≡ some it
        → sum_of f (elim b [ true ↦ y ∷ xs | false ↦ x ∷ with_item id y xs ])
          ≡ f x +ℤ sum_of f xs +ℤ more
    split true rest same = rw (e, ap f (sym (some_eq same))) (eq_of_parts _ _ (omega int_laws))
    split false rest same = rw (rest same) (eq_of_parts _ _ (omega int_laws))

not_void : (items : List OrderItem) → is_voided (status_of items) ≡ false
not_void items = elim (Bool-cases (all_refunded items)) [
  | inl all ↦ rw all refl
  | inr some_left ↦ rw some_left refl
]

-- Nothing has come back of an order whose lines are whole.
none_back :
    (row : StockRow) (items : List OrderItem)
    → All Unrefunded items
    → sum_of (back_of false row) items ≡ pos 0
none_back row [] u = refl
none_back row (it ∷ items) u = split (goes_to row it) (none_back row items u.1)
  where
    split : (b : Bool) {n : ℤ} → n ≡ pos 0 → (if b then it.refunded_qty else pos 0) +ℤ n ≡ pos 0
    split true same = rw (u.0, same) (omega int_laws)
    split false same = rw same (omega int_laws)

-- The stock `t` has is that of `start` with what came back of the order.
abbrev pub IsExact : List StockRow → State → Type 0
IsExact start s = Tracked (returned s.order) start s.stock

back_more :
    (row : StockRow) (now : ℕ) (it : OrderItem) (qty : ℤ)
    → back_of false row (refunded_item now qty it)
      ≡ back_of false row it +ℤ (if goes_to row it then qty else pos 0)
back_more row now it qty = split (goes_to row it)
  where
    split :
        (b : Bool)
        → (if b then it.refunded_qty +ℤ qty else pos 0)
          ≡ (if b then it.refunded_qty else pos 0) +ℤ (if b then qty else pos 0)
    split true = refl
    split false = omega int_laws

Step-IsExact :
    (start : List StockRow) {s t : State}
    → IsKept s.order
    → IsExact start s
    → Step s t
    → IsExact start t
Step-IsExact start {s} k e (void_step {x} r reason h) =
    let (was, stock, status, items) = void_order-ok r reason s.order s.stock h in
    rw stock (
      Tracked-same _ (returned x.order)
        (λ b. rw (status, items, was, none_back b s.order.items (k.whole was)) (omega int_laws))
        start _ (return_all-Tracked s.order s.order.items (returned s.order) start s.stock e))
Step-IsExact start {s} k e (refund_step {x} h) =
    let (was, stock, status, items) = refund_order-ok s.order s.stock h in
    rw stock (
      Tracked-same (returned s.order) (returned x.order) (λ b. rw (status, items, was) refl) start
        s.stock e)
Step-IsExact start {s} k e (item_step {x} r item_id quantity h) =
    let (it, qty, a, stock, items, status) =
      refund_order_item-ok r item_id quantity s.order s.stock h in
    let after = with_item item_id (refunded_item r.now qty it) s.order.items in
    rw stock (
      Tracked-same _ (returned x.order)
        (λ b.
          rw (status, items, not_void after, refundable_live s.order.status a.status)
            (sym (
              with_item-sum (back_of false b) item_id (refunded_item r.now qty it) s.order.items _
                a.found (back_more b r.now it qty))))
        start _ (return_units-Tracked it qty (returned s.order) start s.stock e))
  where
    refundable_live : (st : OrderStatus) → is_refundable st ≡ true → is_voided st ≡ false
    refundable_live completed q = refl
    refundable_live partially_refunded q = refl
    refundable_live refunded q = cc
    refundable_live voided q = cc

-- Of an order that is completed and whole, whatever voids and refunds are made of it and in whatever
-- order, the stock is at each time that of the start, each row with exactly the units that have come
-- back to it: those of all its lines where the order is voided, else those refunded of its lines one
-- by one. A product that is melted or inactive has its units still, and a full refund returns none.
pub Reach-IsExact :
    {s t : State} → s.order.status ≡ completed → IsKept s.order → Reach s t → IsExact s.stock t
Reach-IsExact {s} was k here = Tracked-start s.stock
  where
    nothing_more : (b : Bool) (n : ℤ) → n ≡ n +ℤ (if b then pos 0 else pos 0)
    nothing_more true n = omega int_laws
    nothing_more false n = omega int_laws

    Tracked-start : (rows : List StockRow) → Tracked (returned s.order) rows rows
    Tracked-start [] = tt
    Tracked-start (row ∷ rows) = (
      record {
        kind = refl;
        id = refl;
        takes = refl;
        on_hand =
            rw (was, none_back row s.order.items (k.whole was))
              (nothing_more (takes_back row) row.on_hand_qty);
      },
      Tracked-start rows,
    )
Reach-IsExact {s} was k (then_step reach step) =
    Step-IsExact s.stock (reach_IsKept k reach) (Reach-IsExact was k reach) step

-- ===== src/Orders/Kept.antt =====
-- The states that an order can reach by voids and refunds, and what holds of its lines in each.
use jewelry_backend.Common.{
  ℕ, ◌≡◌, refl, sym, ap, ◌∙◌, ◌⊎◌, inl, inr, Bool, true, false, not, Option, none, some, List, [],
  ◌∷◌, String, arith, Bool-cases, ok, raise_if, raise_if-eq-ok, bind_inversion, ok-injective, find,
  All, find-All,
}
use mathlib.Core.Path.{subst}
use jewelry_backend.Common.Int.{ℤ, pos, ◌≤ℤ◌, int_laws, leb_ℤ, ltb_ℤ}
use jewelry_backend.Orders.{
  Order, OrderItem, OrderStatus, completed, refunded, partially_refunded, voided, is_voided,
  was_refunded, is_completed, is_refundable, remaining_of, not_refundable, fully_refunded_line,
  quantity_below_one, too_many, recompute_order_totals,
}
use jewelry_backend.Orders.Restock.{StockRow, return_units}
use jewelry_backend.Orders.Handlers.{
  Request, Outcome, return_all, void_order, refund_order, refund_order_item, refundable_units,
  has_id, require_item, asked, refunded_item, with_item, all_refunded, status_of, order_after,
}

-- An order with the stock around it.
pub record State : Type 0 where
  pub order : Order
  pub stock : List StockRow

abbrev pub state_of : Outcome → State
state_of x = record { order = x.order; stock = x.stock }

-- One request that succeeds.
pub data Step : State → State → Type 0 where
  void_step :
      {s : State} {x : Outcome} (r : Request) (reason : String)
      → void_order r reason s.order s.stock ≡ ok x
      → Step s (state_of x)
  refund_step :
      {s : State} {x : Outcome} → refund_order s.order s.stock ≡ ok x → Step s (state_of x)
  item_step :
      {s : State} {x : Outcome} (r : Request) (item_id : String) (quantity : Option ℤ)
      → refund_order_item r item_id quantity s.order s.stock ≡ ok x
      → Step s (state_of x)

pub data Reach : State → State → Type 0 where
  here : {s : State} → Reach s s
  then_step : {s t u : State} → Reach s t → Step t u → Reach s u

-- The units refunded of a line are between none and all.
abbrev pub InLine : OrderItem → Type 0
InLine it = (pos 0 ≤ℤ it.refunded_qty) × (it.refunded_qty ≤ℤ it.sold.quantity)

abbrev pub Unrefunded : OrderItem → Type 0
Unrefunded it = it.refunded_qty ≡ pos 0

pub record IsKept (o : Order) : Type 0 where
  pub lines : All InLine o.items
  pub whole : o.status ≡ completed → All Unrefunded o.items
  pub part : o.status ≡ partially_refunded → all_refunded o.items ≡ false

-- What the guards of a refund of an item let through.
pub record Allowed (o : Order) (item_id : String) (it : OrderItem) (qty : ℤ) : Type 0 where
  pub status : is_refundable o.status ≡ true
  pub found : find (has_id item_id) o.items ≡ some it
  pub least : pos 1 ≤ℤ qty
  pub most : qty ≤ℤ remaining_of it

not-false : (b : Bool) → not b ≡ false → b ≡ true
not-false true h = refl
not-false false h = cc

not_lt : (a b : ℤ) → ltb_ℤ a b ≡ false → b ≤ℤ a
not_lt a b h = ground arith

require_item-ok : (o : Option OrderItem) {it : OrderItem} → require_item o ≡ ok it → o ≡ some it
require_item-ok none h = cc
require_item-ok (some x) h = ap some (ok-injective h)

pub refundable_units-ok :
    (o : Order) (item_id : String) (quantity : Option ℤ) {it : OrderItem} {qty : ℤ}
    → refundable_units o item_id quantity ≡ ok (it, qty)
    → Allowed o item_id it qty
unfolding refundable_units
refundable_units-ok o item_id quantity {it} {qty} h =
    let (_, open_status, h1) =
      bind_inversion (raise_if (not (is_refundable o.status)) not_refundable) _ h in
    let (x, found, h2) = bind_inversion (require_item (find (has_id item_id) o.items)) _ h1 in
    let (_, some_left, h3) =
      bind_inversion (raise_if (leb_ℤ (remaining_of x) (pos 0)) fully_refunded_line) _ h2 in
    let q = asked quantity (remaining_of x) in
    let (_, at_least, h4) = bind_inversion (raise_if (ltb_ℤ q (pos 1)) quantity_below_one) _ h3 in
    let (_, at_most, h5) = bind_inversion (raise_if (ltb_ℤ (remaining_of x) q) too_many) _ h4 in
    let pair = ok-injective h5 in
    let same_item : x ≡ it = ap (λ (y : OrderItem × ℤ). y.0) pair in
    let same_qty : q ≡ qty = ap (λ (y : OrderItem × ℤ). y.1) pair in
    record {
      status = not-false _ (raise_if-eq-ok _ _ open_status);
      found = require_item-ok _ found ∙ ap some same_item;
      least =
          subst (λ (n : ℤ). pos 1 ≤ℤ n) same_qty (not_lt q (pos 1) (raise_if-eq-ok _ _ at_least));
      most =
          subst (λ (n : ℤ). n ≤ℤ remaining_of it) same_qty
            (subst (λ (y : OrderItem). q ≤ℤ remaining_of y) same_item
              (not_lt (remaining_of x) q (raise_if-eq-ok _ _ at_most)));
    }

-- The item that changes keeps its bounds.
refunded_item-InLine :
    (now : ℕ) (qty : ℤ) (it : OrderItem)
    → pos 1 ≤ℤ qty
    → qty ≤ℤ remaining_of it
    → InLine it
    → InLine (refunded_item now qty it)
refunded_item-InLine now qty it least most kept =
    (omega (int_laws, least, kept.0), omega (int_laws, most))

with_item-All :
    (P : OrderItem → Type 0) (id : String) (y : OrderItem) (xs : List OrderItem)
    → P y
    → All P xs
    → All P (with_item id y xs)
with_item-All P id y [] h k = tt
with_item-All P id y (x ∷ xs) h k = split (with_item-All P id y xs h k.1) (has_id id x)
  where
    split :
        All P (with_item id y xs)
        → (b : Bool) → All P (elim b [ true ↦ y ∷ xs | false ↦ x ∷ with_item id y xs ])
    split rest true = (h, k.1)
    split rest false = (k.0, rest)

status_of-not_completed : (items : List OrderItem) → ¬ (status_of items ≡ completed)
status_of-not_completed items h = elim (Bool-cases (all_refunded items)) [
  | inl all ↦ cc (rw all at h)
  | inr some_left ↦ cc (rw some_left at h)
]

status_of-part :
    (items : List OrderItem) → status_of items ≡ partially_refunded → all_refunded items ≡ false
status_of-part items h = elim (Bool-cases (all_refunded items)) [
  | inl all ↦ cc (rw all at h)
  | inr some_left ↦ some_left
]

-- The three handlers, inverted.
pub void_order-ok :
    (r : Request) (reason : String) (o : Order) (stock : List StockRow) {x : Outcome}
    → void_order r reason o stock ≡ ok x
    → (o.status ≡ completed)
      × (x.stock ≡ (return_all o o.items stock).0)
      × (x.order.status ≡ voided)
      × (x.order.items ≡ o.items)
unfolding void_order
void_order-ok r reason o stock {x} h =
    let (_, live, h1) = bind_inversion (raise_if (is_voided o.status) _) _ h in
    let (_, untouched, h2) = bind_inversion (raise_if (was_refunded o.status) _) _ h1 in
    let same = ok-injective h2 in
    (
      only_completed o.status (raise_if-eq-ok _ _ live) (raise_if-eq-ok _ _ untouched),
      sym (ap (λ (y : Outcome). y.stock) same),
      sym (ap (λ (y : Outcome). y.order.status) same),
      sym (ap (λ (y : Outcome). y.order.items) same),
    )
  where
    only_completed :
        (s : OrderStatus) → is_voided s ≡ false → was_refunded s ≡ false → s ≡ completed
    only_completed completed a b = refl
    only_completed refunded a b = cc
    only_completed partially_refunded a b = cc
    only_completed voided a b = cc

pub refund_order-ok :
    (o : Order) (stock : List StockRow) {x : Outcome}
    → refund_order o stock ≡ ok x
    → (o.status ≡ completed)
      × (x.stock ≡ stock)
      × (x.order.status ≡ refunded)
      × (x.order.items ≡ o.items)
unfolding refund_order
refund_order-ok o stock {x} h =
    let (_, guard, h1) = bind_inversion (raise_if (not (is_completed o.status)) _) _ h in
    let same = ok-injective h1 in
    (
      completed_only o.status (not-false _ (raise_if-eq-ok _ _ guard)),
      sym (ap (λ (y : Outcome). y.stock) same),
      sym (ap (λ (y : Outcome). y.order.status) same),
      sym (ap (λ (y : Outcome). y.order.items) same),
    )
  where
    completed_only : (s : OrderStatus) → is_completed s ≡ true → s ≡ completed
    completed_only completed a = refl
    completed_only refunded a = cc
    completed_only partially_refunded a = cc
    completed_only voided a = cc

pub refund_order_item-ok :
    (r : Request) (item_id : String) (quantity : Option ℤ) (o : Order) (stock : List StockRow)
    {x : Outcome}
    → refund_order_item r item_id quantity o stock ≡ ok x
    → (it : OrderItem) × (qty : ℤ) × Allowed o item_id it qty
      × (x.stock ≡ (return_units it qty stock).0)
      × (x.order.items ≡ with_item item_id (refunded_item r.now qty it) o.items)
      × (x.order.status ≡ status_of (with_item item_id (refunded_item r.now qty it) o.items))
unfolding refund_order_item order_after recompute_order_totals
refund_order_item-ok r item_id quantity o stock {x} h =
    let (found, allowed, h1) = bind_inversion (refundable_units o item_id quantity) _ h in
    let same = ok-injective h1 in
    (
      found.0,
      found.1,
      refundable_units-ok o item_id quantity allowed,
      sym (ap (λ (y : Outcome). y.stock) same),
      sym (ap (λ (y : Outcome). y.order.items) same),
      sym (ap (λ (y : Outcome). y.order.status) same),
    )

Step-IsKept : {s t : State} → IsKept s.order → Step s t → IsKept t.order
Step-IsKept {s} k (void_step {x} r reason h) =
    let (was, stock, status, items) = void_order-ok r reason s.order s.stock h in
    record {
      lines = rw items k.lines;
      whole = λ e. cc (sym status ∙ e);
      part = λ e. cc (sym status ∙ e);
    }
Step-IsKept {s} k (refund_step {x} h) =
    let (was, stock, status, items) = refund_order-ok s.order s.stock h in
    record {
      lines = rw items k.lines;
      whole = λ e. cc (sym status ∙ e);
      part = λ e. cc (sym status ∙ e);
    }
Step-IsKept {s} k (item_step {x} r item_id quantity h) =
    let (it, qty, a, stock, items, status) =
      refund_order_item-ok r item_id quantity s.order s.stock h in
    let after = with_item item_id (refunded_item r.now qty it) s.order.items in
    let kept = find-All InLine (has_id item_id) s.order.items k.lines a.found in
    record {
      lines = rw items (
          with_item-All InLine item_id (refunded_item r.now qty it) s.order.items
            (refunded_item-InLine r.now qty it a.least a.most kept) k.lines);
      whole = λ e. absurd (status_of-not_completed after (sym status ∙ e));
      part = λ e. rw items (status_of-part after (sym status ∙ e));
    }

-- What voids and refunds keep.
pub reach_IsKept : {s t : State} → IsKept s.order → Reach s t → IsKept t.order
reach_IsKept k here = k
reach_IsKept k (then_step reach step) = Step-IsKept (reach_IsKept k reach) step

Unrefunded-InLine :
    (items : List OrderItem)
    → All Unrefunded items
    → All (λ it. pos 0 ≤ℤ it.sold.quantity) items
    → All InLine items
Unrefunded-InLine [] h k = tt
Unrefunded-InLine (it ∷ items) h k =
    ((rw h.0 (omega int_laws), rw h.0 k.0), Unrefunded-InLine items h.1 k.1)

-- In every state that voids and refunds reach from a completed order, with no unit refunded and no
-- negative quantity: the units refunded of each line are between none and its quantity, no unit of a
-- completed order is refunded, and a partially refunded order has a line that is not refunded in
-- full.
pub Reach-IsKept :
    {s t : State}
    → s.order.status ≡ completed
    → All Unrefunded s.order.items
    → All (λ it. pos 0 ≤ℤ it.sold.quantity) s.order.items
    → Reach s t
    → IsKept t.order
Reach-IsKept {s} new untouched counted reach =
    reach_IsKept
      (record {
        lines = Unrefunded-InLine s.order.items untouched counted;
        whole = λ e. untouched;
        part = λ e. cc (sym new ∙ e);
      })
      reach

-- A voided order and a refunded order are final: no void and no refund of them succeeds.
pub void_is_final :
    (s t : State) → (s.order.status ≡ voided) ⊎ (s.order.status ≡ refunded) → ¬ Step s t
unfolding void_order refund_order refund_order_item refundable_units
void_is_final s t (inl gone) (void_step r reason h) = cc (rw gone at h)
void_is_final s t (inl gone) (refund_step h) = cc (rw gone at h)
void_is_final s t (inl gone) (item_step r item_id quantity h) = cc (rw gone at h)
void_is_final s t (inr gone) (void_step r reason h) = cc (rw gone at h)
void_is_final s t (inr gone) (refund_step h) = cc (rw gone at h)
void_is_final s t (inr gone) (item_step r item_id quantity h) = cc (rw gone at h)

-- ===== src/Order/Invariant.antt =====
-- The public mutators of `Order` as one type of calls, and what every order satisfies that they
-- lead to from `Order::new`.
use ddd_samples.Prelude.{ℕ, ⊤, ◌≡◌, false, List, [], ◌∷◌, All, is_empty, is_none, arith, ◌∙◌, ap}
use ddd_samples.Prelude.Words.{Profile, debug, IsU32}
use ddd_samples.Prelude.Action.{Action}
use ddd_samples.Error.{DomainError}
use ddd_samples.Value.{OrderId, CustomerId, BookId}
use ddd_samples.Value.Money.{Money}
use ddd_samples.Value.OrderStatus.{OrderStatus, pending, cancelled}
use ddd_samples.Value.ShippingAddress.{ShippingAddress}
use ddd_samples.Order
use ddd_samples.Order.{
  Order, add_book, set_shipping_address, confirm, cancel, mark_as_shipped, mark_as_delivered,
}
use ddd_samples.Order.Lines.{ids, Distinct, IsLine}
use ddd_samples.Order.Lines.Adding.{add_book-lines, add_book-nonempty, add_book-SameHeader}

pub data Op : Type 0 where
  add_book_op : BookId → ℕ → Money → Op
  set_address_op : ShippingAddress → Op
  confirm_op cancel_op ship_op deliver_op : Op

-- One call of a mutator.
unfoldable pub run_op : Profile → Op → Action Order DomainError ⊤
run_op p (add_book_op b q price) = add_book p b q price
run_op p (set_address_op a) = set_shipping_address a
run_op p confirm_op = confirm
run_op p cancel_op = cancel
run_op p ship_op = mark_as_shipped
run_op p deliver_op = mark_as_delivered

-- A sequence of calls, whatever each of them returns.
unfoldable pub run : Profile → List Op → Order → Order
run p [] o = o
run p (op ∷ ops) o = run p ops (run_op p op o).1

-- The statuses of an order that was confirmed and not cancelled.
abbrev pub IsCommitted : OrderStatus → Type 0
IsCommitted pending = ⊥
IsCommitted cancelled = ⊥
IsCommitted _ = ⊤

pub record IsValid (o : Order) : Type 0 where
  pub distinct : Distinct (ids o.order_lines)
  pub lines : All IsLine o.order_lines
  pub filled : IsCommitted o.status → is_empty o.order_lines ≡ false
  pub addressed : IsCommitted o.status → is_none o.shipping_address ≡ false

-- The quantities that a call brings are `u32`.
abbrev pub IsCall : Op → Type 0
IsCall (add_book_op b q price) = IsU32 q
IsCall _ = ⊤

pub new-IsValid : (i : OrderId) (c : CustomerId) → IsValid (Order.new i c)
unfolding Order.new
new-IsValid i c = record {
  distinct = tt;
  lines = tt;
  filled = λ h. absurd h;
  addressed = λ h. absurd h;
}

pub run_op-IsValid : (op : Op) (o : Order) → IsCall op → IsValid o → IsValid (run_op debug op o).1
unfolding run_op set_shipping_address confirm cancel mark_as_shipped mark_as_delivered
run_op-IsValid (add_book_op b q price) o u v =
    let same = add_book-SameHeader o b q price in
    let now = add_book-lines o b q price u (v.distinct, v.lines) in
    record {
      distinct = now.0;
      lines = now.1;
      filled = λ h. add_book-nonempty o b q price (v.filled (rw same.3 at h));
      addressed = λ h. ap is_none same.2 ∙ v.addressed (rw same.3 at h);
    }
run_op-IsValid (set_address_op a) o u v = ground arith
run_op-IsValid confirm_op o u v = ground arith
run_op-IsValid cancel_op o u v = ground arith
run_op-IsValid ship_op o u v = ground arith
run_op-IsValid deliver_op o u v = ground arith

run-IsValid : (ops : List Op) (o : Order) → All IsCall ops → IsValid o → IsValid (run debug ops o)
unfolding run
run-IsValid [] o u v = v
run-IsValid (op ∷ ops) o u v = run-IsValid ops (run_op debug op o).1 u.1 (run_op-IsValid op o u.0 v)

-- With overflow checks, whatever mutators are called on a new order, in any order and whether
-- they succeed or not: no book has two lines, every quantity is a positive `u32`, and an order
-- that is Confirmed, Shipped or Delivered has a line and an address.
pub reachable-IsValid :
    (i : OrderId) (c : CustomerId) (ops : List Op)
    → All IsCall ops
    → IsValid (run debug ops (Order.new i c))
reachable-IsValid i c ops u = run-IsValid ops (Order.new i c) u (new-IsValid i c)

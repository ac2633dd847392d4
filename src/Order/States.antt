-- ===== src/Order/States.antt =====
-- The state machine of an order: which calls change the status, and what a delivered order has
-- been through.
use ddd_samples.Prelude.{
  ⊤, ◌≡◌, refl, ◌↔◌, ◌⊎◌, inl, inr, false, List, [], ◌∷◌, is_empty, is_none, arith, ◌∙◌,
}
use ddd_samples.Prelude.Words.{debug}
use ddd_samples.Prelude.Action.{Outcome, ok, err, panic, Action}
use ddd_samples.Error.{DomainError}
use ddd_samples.Value.{OrderId, CustomerId}
use ddd_samples.Value.OrderStatus.{OrderStatus, pending, confirmed, shipped, delivered, cancelled}
use ddd_samples.Order
use ddd_samples.Order.{
  Order, add_book, set_shipping_address, confirm, cancel, mark_as_shipped, mark_as_delivered,
}
use ddd_samples.Order.Invariant.{
  Op, add_book_op, set_address_op, confirm_op, cancel_op, ship_op, deliver_op, run_op, run,
}
use ddd_samples.Order.Lines.Adding.{add_book-SameHeader}

pub data Transition : Type 0 where
  confirming cancelling shipping delivering : Transition

abbrev pub method : Transition → Action Order DomainError ⊤
method confirming = confirm
method cancelling = cancel
method shipping = mark_as_shipped
method delivering = mark_as_delivered

abbrev pub target : Transition → OrderStatus
target confirming = confirmed
target cancelling = cancelled
target shipping = shipped
target delivering = delivered

-- The diagram, with what `confirm` asks for besides.
abbrev pub Allowed : Transition → Order → Type 0
Allowed confirming o =
    (o.status ≡ pending) × (is_empty o.order_lines ≡ false) × (is_none o.shipping_address ≡ false)
Allowed cancelling o = (o.status ≡ pending) ⊎ (o.status ≡ confirmed)
Allowed shipping o = o.status ≡ confirmed
Allowed delivering o = o.status ≡ shipped

-- A transition's result: it goes through and changes the status alone, or an error and no change.
abbrev pub Moved : Transition → Order → Outcome DomainError ⊤ × Order → Type 0
Moved t o (ok _, o') = o' ≡ record o { status = target t }
Moved t o (err _, o') = o' ≡ o
Moved t o (panic, o') = ⊥

-- Each of the four transitions succeeds exactly when the diagram allows it (and, for `confirm`,
-- the order has a line and an address); then it sets the status and nothing else, and otherwise
-- it returns an error, without a panic, and leaves the order as it was.
pub method_lem :
    (t : Transition) (o : Order) → (((method t o).0 ≡ ok tt) ↔ Allowed t o) × Moved t o (method t o)
unfolding confirm cancel mark_as_shipped mark_as_delivered
method_lem confirming o = ((λ h. ground arith, λ h. ground arith), ground arith)
method_lem cancelling o = ((λ h. ground arith, λ h. ground arith), ground arith)
method_lem shipping o = ((λ h. ground arith, λ h. ground arith), ground arith)
method_lem delivering o = ((λ h. ground arith, λ h. ground arith), ground arith)

abbrev pub IsFinal : OrderStatus → Type 0
IsFinal delivered = ⊤
IsFinal cancelled = ⊤
IsFinal _ = ⊥

run_op-IsFinal : (op : Op) (o : Order) → IsFinal o.status → (run_op debug op o).1.status ≡ o.status
unfolding run_op set_shipping_address confirm cancel mark_as_shipped mark_as_delivered
run_op-IsFinal (add_book_op b q price) o h = (add_book-SameHeader o b q price).3
run_op-IsFinal (set_address_op a) o h = refl
run_op-IsFinal confirm_op o h = ground arith
run_op-IsFinal cancel_op o h = ground arith
run_op-IsFinal ship_op o h = ground arith
run_op-IsFinal deliver_op o h = ground arith

-- With overflow checks, Delivered and Cancelled are final: no sequence of calls changes the status any more.
pub run-IsFinal :
    (ops : List Op) (o : Order) → IsFinal o.status → (run debug ops o).status ≡ o.status
unfolding run
run-IsFinal [] o h = refl
run-IsFinal (op ∷ ops) o h =
    let same = run_op-IsFinal op o h in run-IsFinal ops (run_op debug op o).1 (rw same h) ∙ same

-- `ks` occur in `ops`, in this order.
pub data Within : List Op → List Op → Type 0 where
  done : {ops : List Op} → Within [] ops
  skip : {ks ops : List Op} {op : Op} → Within ks ops → Within ks (op ∷ ops)
  take : {ks ops : List Op} {op : Op} → Within ks ops → Within (op ∷ ks) (op ∷ ops)

-- The calls that are still needed before an order is delivered.
abbrev Needs : OrderStatus → List Op → Type 0
Needs pending ops = Within (confirm_op ∷ ship_op ∷ deliver_op ∷ []) ops
Needs confirmed ops = Within (ship_op ∷ deliver_op ∷ []) ops
Needs shipped ops = Within (deliver_op ∷ []) ops
Needs delivered ops = ⊤
Needs cancelled ops = ⊥

Needs-skip : (s : OrderStatus) (op : Op) (ops : List Op) → Needs s ops → Needs s (op ∷ ops)
Needs-skip pending op ops h = skip h
Needs-skip confirmed op ops h = skip h
Needs-skip shipped op ops h = skip h
Needs-skip delivered op ops h = tt
Needs-skip cancelled op ops h = h

-- The edges of the diagram, with the call that takes each.
data Edge : Op → OrderStatus → OrderStatus → Type 0 where
  to_confirmed : Edge confirm_op pending confirmed
  to_cancelled : {s : OrderStatus} → Edge cancel_op s cancelled
  to_shipped : Edge ship_op confirmed shipped
  to_delivered : Edge deliver_op shipped delivered

Edge-Needs :
    {op : Op} {s t : OrderStatus} → Edge op s t → (ops : List Op) → Needs t ops → Needs s (op ∷ ops)
Edge-Needs to_confirmed ops h = take h
Edge-Needs to_cancelled ops h = absurd h
Edge-Needs to_shipped ops h = take h
Edge-Needs to_delivered ops h = take done

run_op-Edge :
    (op : Op) (o : Order)
    → ((run_op debug op o).1.status ≡ o.status) ⊎ Edge op o.status (run_op debug op o).1.status
unfolding run_op set_shipping_address confirm cancel mark_as_shipped mark_as_delivered
run_op-Edge (add_book_op b q price) o = inl (add_book-SameHeader o b q price).3
run_op-Edge (set_address_op a) o = inl refl
run_op-Edge confirm_op o = grind (arith, to_confirmed)
run_op-Edge cancel_op o = grind (arith, to_cancelled)
run_op-Edge ship_op o = grind (arith, to_shipped)
run_op-Edge deliver_op o = grind (arith, to_delivered)

run-Needs : (ops : List Op) (o : Order) → (run debug ops o).status ≡ delivered → Needs o.status ops
unfolding run
run-Needs [] o h = rw h tt
run-Needs (op ∷ ops) o h =
    let rest = run-Needs ops (run_op debug op o).1 h in
    elim (run_op-Edge op o) [
      | inl same ↦ Needs-skip o.status op ops (rw same at rest)
      | inr edge ↦ Edge-Needs edge ops rest
    ]

-- With overflow checks, a new order is Delivered only after a `confirm`, a `mark_as_shipped` and a `mark_as_delivered`,
-- in this order, whatever else is called in between.
pub delivered-needs :
    (i : OrderId) (c : CustomerId) (ops : List Op)
    → (run debug ops (Order.new i c)).status ≡ delivered
    → Within (confirm_op ∷ ship_op ∷ deliver_op ∷ []) ops
unfolding Order.new
delivered-needs i c ops h = run-Needs ops (Order.new i c) h

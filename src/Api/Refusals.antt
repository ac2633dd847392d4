-- ===== src/Api/Refusals.antt =====
-- What a request that is refused as the client's fault has done to the data: nothing.
use ddd_samples.Prelude.{ℕ, ⊤, String, ◌≡◌, refl, ◌∙◌, Option}
use ddd_samples.Prelude.Action.{Action, ◌>>=◌}
use ddd_samples.Prelude.Refusing.{
  Reads, Guarded, Late, Late-Guarded, bind-Late, then-Guarded, bind-Reads, map_err-Late,
  map_err-Reads, pure-Late, or_panic-Late, or_raise-Reads,
}
use ddd_samples.Error.{DomainError, ApplicationError}
use ddd_samples.Value.{OrderId, BookId, CustomerId}
use ddd_samples.Value.Money.{Money}
use ddd_samples.Order
use ddd_samples.Order.{Order}
use ddd_samples.World.{World, Env, DomainEvent}
use ddd_samples.Event.{
  new_v4, new_order_confirmed, new_order_cancelled, new_order_shipped, new_order_delivered,
  new_metadata,
}
use ddd_samples.Port.{call, find_by_id, save_order, find_by_book_id}
use ddd_samples.Handler.Common.{Publish}
use ddd_samples.Service
use ddd_samples.Service.{load}

-- The data of two worlds agree: all but the counts of calls, draws and clock readings.
pub record Same (w w' : World) : Type 0 where
  pub orders : w'.orders ≡ w.orders
  pub stock : w'.stock ≡ w.stock
  pub processed : w'.processed ≡ w.processed
  pub dead_letters : w'.dead_letters ≡ w.dead_letters
  pub log : w'.log ≡ w.log

pub Same-refl : (w : World) → Same w w
Same-refl w = record {
  orders = refl;
  stock = refl;
  processed = refl;
  dead_letters = refl;
  log = refl;
}

pub Same-trans : (u v w : World) → Same u v → Same v w → Same u w
Same-trans u v w h k = record {
  orders = k.orders ∙ h.orders;
  stock = k.stock ∙ h.stock;
  processed = k.processed ∙ h.processed;
  dead_letters = k.dead_letters ∙ h.dead_letters;
  log = k.log ∙ h.log;
}

-- The errors of the services that are the client's fault.
abbrev pub IsRefused : ApplicationError → Type 0
IsRefused (ApplicationError.domain _) = ⊤
IsRefused (ApplicationError.not_found _) = ⊤
IsRefused _ = ⊥

module _ (env : Env) {E : Type 0} {C : E → Type 0} where
  pub new_v4-Late : Late C (new_v4 env)
  new_v4-Late = record { late = λ w e x c. cc }

  new_metadata-Late : Late C (new_metadata env)
  unfolding new_metadata ◌>>=◌
  new_metadata-Late = record { late = λ w e x c. cc }

-- An action that leaves the data alone whatever it returns.
pub Same-Reads :
    {E A : Type 0} (m : Action World E A) → ((w : World) → Same w (m w).1) → Reads Same m
Same-Reads m h = record { reads = h }

module _ (env : Env) where
  call-Reads : Reads Same (call env)
  call-Reads =
      Same-Reads (call env) λ w. record {
        orders = refl;
        stock = refl;
        processed = refl;
        dead_letters = refl;
        log = refl;
      }

  pub find_by_id-Reads : (i : OrderId) → Reads Same (find_by_id env i)
  unfolding find_by_id
  find_by_id-Reads i = bind-Reads Same-trans call-Reads λ _. Same-Reads _ Same-refl

  pub find_by_book_id-Reads : (b : BookId) → Reads Same (find_by_book_id env b)
  unfolding find_by_book_id
  find_by_book_id-Reads b = bind-Reads Same-trans call-Reads λ _. Same-Reads _ Same-refl

  load-Reads : (i : OrderId) → Reads Same (load env i)
  unfolding load
  load-Reads i =
      bind-Reads Same-trans (map_err-Reads _ _ (find_by_id-Reads i))
        λ found. or_raise-Reads Same-refl found _

  store-Late : (o : Order) → Late IsRefused (Service.store env o)
  store-Late o = map_err-Late _ (save_order env o) λ e x. x

  -- A method of the aggregate that refuses changes nothing.
  call-Guarded :
      {B : Type 0} (m : Action Order DomainError ⊤) (o : Order)
      (f : ⊤ × Order → Action World ApplicationError B)
      → ((o' : Order) → Late IsRefused (f (tt, o')))
      → Guarded Same IsRefused (Service.call env m o >>= f)
  call-Guarded m o f h =
      then-Guarded Same-trans (map_err-Reads _ _ (Same-Reads _ Same-refl)) λ r. Late-Guarded (h r.1)

  pub create_order-Late : (c : CustomerId) → Late IsRefused (Service.create_order env c)
  unfolding Service.create_order
  create_order-Late c = bind-Late (new_v4-Late env) λ i. bind-Late (store-Late _) λ _. pure-Late i

  pub add_book_to_order-Guarded :
      (i : OrderId) (b : BookId) (q : ℕ) (price : Money)
      → Guarded Same IsRefused (Service.add_book_to_order env i b q price)
  unfolding Service.add_book_to_order
  add_book_to_order-Guarded i b q price =
      then-Guarded Same-trans (load-Reads i)
        λ o. call-Guarded (Order.add_book env.profile b q price) o _ λ o'. store-Late o'

  pub set_shipping_address-Guarded :
      (i : OrderId) (pc pr ci l1 : String) (l2 : Option String)
      → Guarded Same IsRefused (Service.set_shipping_address_from_request env i pc pr ci l1 l2)
  unfolding Service.set_shipping_address_from_request
  set_shipping_address-Guarded i pc pr ci l1 l2 = then-Guarded Same-trans (load-Reads i) λ o.
      then-Guarded Same-trans (map_err-Reads _ _ (Same-Reads _ Same-refl))
        λ a. call-Guarded (Order.set_shipping_address a) o _ λ o'. store-Late o'

  module _ (publish : Publish) where
    announce-Late : (e : DomainEvent) → Late IsRefused (Service.announce env publish e)
    announce-Late e = map_err-Late _ (publish e) λ x y. y

    pub confirm_order-Guarded :
        (i : OrderId) → Guarded Same IsRefused (Service.confirm_order env publish i)
    unfolding Service.confirm_order new_order_confirmed
    confirm_order-Guarded i = then-Guarded Same-trans (load-Reads i) λ o.
        call-Guarded Order.confirm o _ λ o'. bind-Late (store-Late o') λ _.
          bind-Late (new_v4-Late env) λ c.
            bind-Late (or_panic-Late (Order.calculate_total env.profile o')) λ t.
              bind-Late (bind-Late (new_metadata-Late env) λ m. pure-Late _) λ e. announce-Late _

    pub cancel_order-Guarded :
        (i : OrderId) → Guarded Same IsRefused (Service.cancel_order env publish i)
    unfolding Service.cancel_order new_order_cancelled
    cancel_order-Guarded i = then-Guarded Same-trans (load-Reads i) λ o.
        call-Guarded Order.cancel o _ λ o'. bind-Late (store-Late o') λ _.
          bind-Late (new_v4-Late env)
            λ c. bind-Late (bind-Late (new_metadata-Late env) λ m. pure-Late _) λ e. announce-Late _

    pub mark_order_as_shipped-Guarded :
        (i : OrderId) → Guarded Same IsRefused (Service.mark_order_as_shipped env publish i)
    unfolding Service.mark_order_as_shipped new_order_shipped
    mark_order_as_shipped-Guarded i = then-Guarded Same-trans (load-Reads i) λ o.
        call-Guarded Order.mark_as_shipped o _ λ o'. bind-Late (store-Late o') λ _.
          bind-Late (new_v4-Late env) λ c.
            bind-Late (or_panic-Late o'.shipping_address) λ a.
              bind-Late (bind-Late (new_metadata-Late env) λ m. pure-Late _) λ e. announce-Late _

    pub mark_order_as_delivered-Guarded :
        (i : OrderId) → Guarded Same IsRefused (Service.mark_order_as_delivered env publish i)
    unfolding Service.mark_order_as_delivered new_order_delivered
    mark_order_as_delivered-Guarded i = then-Guarded Same-trans (load-Reads i) λ o.
        call-Guarded Order.mark_as_delivered o _ λ o'. bind-Late (store-Late o') λ _.
          bind-Late (new_v4-Late env)
            λ c. bind-Late (bind-Late (new_metadata-Late env) λ m. pure-Late _) λ e. announce-Late _

-- ===== src/Soundness/Events.antt =====
-- The events' constructors draw identifiers and read the clock, and keep every invariant.
use ddd_samples.Prelude.{String, List}
use ddd_samples.Prelude.Ensures.{Keeps, bind-Ensures, pure-Ensures}
use ddd_samples.Value.{Uuid, OrderId, CustomerId}
use ddd_samples.Value.Money.{Money}
use ddd_samples.Value.OrderLine.{OrderLine}
use ddd_samples.Value.ShippingAddress.{ShippingAddress}
use ddd_samples.World.{World, Env, CompensationResult}
use ddd_samples.Event.{
  new_order_confirmed, new_order_cancelled, correlated_order_cancelled, new_order_shipped,
  correlated_order_shipped, new_order_delivered, correlated_order_delivered,
  correlated_inventory_reserved, correlated_inventory_released,
  correlated_inventory_reservation_failed, correlated_shipping_failed, correlated_delivery_failed,
  new_saga_compensation_started, new_saga_compensation_completed,
}
use ddd_samples.Soundness.Interface.{Neutral, correlated-Keeps, new_metadata-Keeps}

module _ {P : World → Type 0} (neutral : Neutral P) {E : Type 0} (env : Env) where
  pub new_order_confirmed-Keeps :
      (i : OrderId) (c : CustomerId) (ls : List OrderLine) (total : Money)
      → Keeps {E = E} P (new_order_confirmed env i c ls total)
  unfolding new_order_confirmed
  new_order_confirmed-Keeps i c ls total =
      bind-Ensures (new_metadata-Keeps neutral env) λ _ _. pure-Ensures tt

  pub new_order_cancelled-Keeps :
      (i : OrderId) (c : CustomerId) (ls : List OrderLine)
      → Keeps {E = E} P (new_order_cancelled env i c ls)
  unfolding new_order_cancelled
  new_order_cancelled-Keeps i c ls =
      bind-Ensures (new_metadata-Keeps neutral env) λ _ _. pure-Ensures tt

  pub correlated_order_cancelled-Keeps :
      (i : OrderId) (c : CustomerId) (ls : List OrderLine) (correlation_id : Uuid)
      → Keeps {E = E} P (correlated_order_cancelled env i c ls correlation_id)
  unfolding correlated_order_cancelled
  correlated_order_cancelled-Keeps i c ls correlation_id =
      bind-Ensures (correlated-Keeps neutral env correlation_id) λ _ _. pure-Ensures tt

  pub new_order_shipped-Keeps :
      (i : OrderId) (a : ShippingAddress) → Keeps {E = E} P (new_order_shipped env i a)
  unfolding new_order_shipped
  new_order_shipped-Keeps i a = bind-Ensures (new_metadata-Keeps neutral env) λ _ _. pure-Ensures tt

  pub correlated_order_shipped-Keeps :
      (i : OrderId) (a : ShippingAddress) (correlation_id : Uuid)
      → Keeps {E = E} P (correlated_order_shipped env i a correlation_id)
  unfolding correlated_order_shipped
  correlated_order_shipped-Keeps i a correlation_id =
      bind-Ensures (correlated-Keeps neutral env correlation_id) λ _ _. pure-Ensures tt

  pub new_order_delivered-Keeps : (i : OrderId) → Keeps {E = E} P (new_order_delivered env i)
  unfolding new_order_delivered
  new_order_delivered-Keeps i = bind-Ensures (new_metadata-Keeps neutral env) λ _ _. pure-Ensures tt

  pub correlated_order_delivered-Keeps :
      (i : OrderId) (correlation_id : Uuid)
      → Keeps {E = E} P (correlated_order_delivered env i correlation_id)
  unfolding correlated_order_delivered
  correlated_order_delivered-Keeps i correlation_id =
      bind-Ensures (correlated-Keeps neutral env correlation_id) λ _ _. pure-Ensures tt

  pub correlated_inventory_reserved-Keeps :
      (i : OrderId) (ls : List OrderLine) (correlation_id : Uuid)
      → Keeps {E = E} P (correlated_inventory_reserved env i ls correlation_id)
  unfolding correlated_inventory_reserved
  correlated_inventory_reserved-Keeps i ls correlation_id =
      bind-Ensures (correlated-Keeps neutral env correlation_id) λ _ _. pure-Ensures tt

  pub correlated_inventory_released-Keeps :
      (i : OrderId) (ls : List OrderLine) (correlation_id : Uuid)
      → Keeps {E = E} P (correlated_inventory_released env i ls correlation_id)
  unfolding correlated_inventory_released
  correlated_inventory_released-Keeps i ls correlation_id =
      bind-Ensures (correlated-Keeps neutral env correlation_id) λ _ _. pure-Ensures tt

  pub correlated_inventory_reservation_failed-Keeps :
      (i : OrderId) (ls : List OrderLine) (reason : String) (original : Uuid)
      (correlation_id : Uuid)
      → Keeps {E = E} P
          (correlated_inventory_reservation_failed env i ls reason original correlation_id)
  unfolding correlated_inventory_reservation_failed
  correlated_inventory_reservation_failed-Keeps i ls reason original correlation_id =
      bind-Ensures (correlated-Keeps neutral env correlation_id) λ _ _. pure-Ensures tt

  pub correlated_shipping_failed-Keeps :
      (i : OrderId) (reason : String) (original : Uuid) (correlation_id : Uuid)
      → Keeps {E = E} P (correlated_shipping_failed env i reason original correlation_id)
  unfolding correlated_shipping_failed
  correlated_shipping_failed-Keeps i reason original correlation_id =
      bind-Ensures (correlated-Keeps neutral env correlation_id) λ _ _. pure-Ensures tt

  pub correlated_delivery_failed-Keeps :
      (i : OrderId) (reason : String) (original : Uuid) (correlation_id : Uuid)
      → Keeps {E = E} P (correlated_delivery_failed env i reason original correlation_id)
  unfolding correlated_delivery_failed
  correlated_delivery_failed-Keeps i reason original correlation_id =
      bind-Ensures (correlated-Keeps neutral env correlation_id) λ _ _. pure-Ensures tt

  pub new_saga_compensation_started-Keeps :
      (saga_id : Uuid) (failed_step : String) (reason : String) (steps : List String)
      → Keeps {E = E} P (new_saga_compensation_started env saga_id failed_step reason steps)
  unfolding new_saga_compensation_started
  new_saga_compensation_started-Keeps saga_id failed_step reason steps =
      bind-Ensures (correlated-Keeps neutral env saga_id) λ _ _. pure-Ensures tt

  pub new_saga_compensation_completed-Keeps :
      (saga_id : Uuid) (steps : List String) (result : CompensationResult)
      → Keeps {E = E} P (new_saga_compensation_completed env saga_id steps result)
  unfolding new_saga_compensation_completed
  new_saga_compensation_completed-Keeps saga_id steps result =
      bind-Ensures (correlated-Keeps neutral env saga_id) λ _ _. pure-Ensures tt

-- ===== src/Port.antt =====
-- The repository ports of domain/port.rs, as the in-memory repositories of domain/handler.rs
-- implement them: one table by identifier for the orders, one by book for the stock. A call may
-- fail, as its signature allows; which calls do is a parameter, `Env.fault`, and a call that fails
-- changes no table.
use ddd_samples.Prelude.{suc, ⊤, Option, none, some, ◌==◌, if◌then◌else◌}
use ddd_samples.Prelude.Action.{Action, ok, err, ◌>>◌, gets, modify}
use ddd_samples.Error.{RepositoryError}
use ddd_samples.Value.{Uuid, OrderId, BookId}
use ddd_samples.Order.{Order}
use ddd_samples.Inventory.{Inventory}
use ddd_samples.World.{World, Env}

-- `HashMap::insert`, on the map as a function.
abbrev pub update : {A : Type 0} → (Uuid → Option A) → Uuid → A → Uuid → Option A
update f k v j = if j == k then some v else f j

module _ (env : Env) where
  -- One call of a repository.
  abbrev pub call : Action World RepositoryError ⊤
  call w =
      (elim (env.fault w.calls) [ none ↦ ok tt | some e ↦ err e ], record w { calls = suc w.calls })

  -- `OrderRepository::find_by_id`
  unfoldable pub find_by_id : OrderId → Action World RepositoryError (Option Order)
  find_by_id order_id = do call; gets (λ w. w.orders order_id)

  -- `OrderRepository::save`
  unfoldable pub save_order : Order → Action World RepositoryError ⊤
  save_order order = do call; modify (λ w. record w { orders = update w.orders order.id order })

  -- `InventoryRepository::find_by_book_id`
  unfoldable pub find_by_book_id : BookId → Action World RepositoryError (Option Inventory)
  find_by_book_id book_id = do call; gets (λ w. w.stock book_id)

  -- `InventoryRepository::save`
  unfoldable pub save_inventory : Inventory → Action World RepositoryError ⊤
  save_inventory inventory = do
    call
    modify (λ w. record w { stock = update w.stock inventory.book_id inventory })

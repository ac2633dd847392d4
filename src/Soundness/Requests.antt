-- ===== src/Soundness/Requests.antt =====
-- The requests that the services of application/service.rs take; serving them keeps every
-- invariant that the bus keeps.
use mathlib.Core.Path.{subst}
use ddd_samples.Prelude.{ℕ, ⊤, String, ◌≡◌, Option, none, some, List, [], ◌∷◌, All}
use ddd_samples.Prelude.Words.{debug, IsU32}
use ddd_samples.Prelude.Ensures.{
  Keeps, Ensures, bind-Ensures, pure-Ensures, or_raise-Ensures, or_panic-Ensures, map_err-Ensures,
  on-Ensures, from_state-Keeps, ◌⨟◌,
}
use ddd_samples.Value.{OrderId, BookId, CustomerId}
use ddd_samples.Value.Money.{Money}
use ddd_samples.Order
use ddd_samples.Order.{Order}
use ddd_samples.Order.Invariant.{
  IsValid, Op, IsCall, run_op, new-IsValid, run_op-IsValid, add_book_op, set_address_op, confirm_op,
  cancel_op, ship_op, deliver_op,
}
use ddd_samples.Inventory
use ddd_samples.Inventory.{Inventory}
use ddd_samples.World.{World, Env, DomainEvent}
use ddd_samples.Handler.Common.{Publish}
use ddd_samples.Service
use ddd_samples.Service.{
  load, create_order, add_book_to_order, set_shipping_address_from_request, confirm_order,
  cancel_order, mark_order_as_shipped, mark_order_as_delivered, get_order_by_id, create_inventory,
  get_inventory_by_book_id,
}
use ddd_samples.Soundness.Interface.{
  Invariant, IsFound, find_by_id-Ensures, save_order-Keeps, save_inventory-Keeps,
  find_by_book_id-Ensures, new_v4-Keeps,
}
use ddd_samples.Soundness.Events.{
  new_order_confirmed-Keeps, new_order_cancelled-Keeps, new_order_shipped-Keeps,
  new_order_delivered-Keeps,
}

-- The requests that the services take.
pub data Request : Type 0 where
  creating : CustomerId → Request
  adding : OrderId → BookId → ℕ → Money → Request
  addressing : OrderId → String → String → String → String → Option String → Request
  confirming cancelling shipping delivering reading : OrderId → Request
  stocking : BookId → ℕ → Request
  counting : BookId → Request

-- What one request leaves, as the services serve it over a bus.
unfoldable pub serve : Env → Publish → Request → World → World
serve env publish (creating c) w = (create_order env c w).1
serve env publish (adding i b q price) w = (add_book_to_order env i b q price w).1
serve env publish (addressing i pc pr ci l1 l2) w =
    (set_shipping_address_from_request env i pc pr ci l1 l2 w).1
serve env publish (confirming i) w = (confirm_order env publish i w).1
serve env publish (cancelling i) w = (cancel_order env publish i w).1
serve env publish (shipping i) w = (mark_order_as_shipped env publish i w).1
serve env publish (delivering i) w = (mark_order_as_delivered env publish i w).1
serve env publish (reading i) w = (get_order_by_id env i w).1
serve env publish (stocking b q) w = (create_inventory env b q w).1
serve env publish (counting b) w = (get_inventory_by_book_id env b w).1

unfoldable pub serve_all : Env → Publish → List Request → World → World
serve_all env publish [] w = w
serve_all env publish (r ∷ rs) w = serve_all env publish rs (serve env publish r w)

-- The quantities of a request are `u32`.
abbrev pub IsRequest : Request → Type 0
IsRequest (adding i b q price) = IsU32 q
IsRequest (stocking b q) = IsU32 q
IsRequest _ = ⊤

module _ {P : World → Type 0} (inv : Invariant P) (env : Env) (checked : env.profile ≡ debug)
    (publish : Publish) (keep : (e : DomainEvent) → Keeps P (publish e)) where
  load-Ensures : (i : OrderId) → Ensures P IsValid (load env i)
  unfolding load
  load-Ensures i =
      bind-Ensures (map_err-Ensures _ _ (find_by_id-Ensures inv env i))
        λ f q. or_raise-Ensures f _ (valid f q)
    where
      valid : (f : Option Order) → IsFound f → (o : Order) → f ≡ some o → IsValid o
      valid none q o e = cc
      valid (some o') q o e = let same : o' ≡ o = cc in subst IsValid same q

  creating-Keeps : (c : CustomerId) → Keeps P (create_order env c)
  unfolding create_order
  creating-Keeps c =
      bind-Ensures (new_v4-Keeps inv.neutral env)
        λ i _. map_err-Ensures _ _ (save_order-Keeps inv env _ (new-IsValid i c)) ⨟ pure-Ensures tt

  -- A call of the aggregate, on an order that is valid.
  call-Ensures :
      (op : Op) (o : Order)
      → IsCall op
      → IsValid o
      → Ensures P (λ r. IsValid r.1) (Service.call env (run_op env.profile op) o)
  call-Ensures op o u v =
      map_err-Ensures _ _
        (on-Ensures (run_op env.profile op) o λ a h. rw checked (run_op-IsValid op o u v))

  adding-Keeps :
      (i : OrderId) (b : BookId) (q : ℕ) (price : Money)
      → IsU32 q
      → Keeps P (add_book_to_order env i b q price)
  unfolding add_book_to_order run_op
  adding-Keeps i b q price u = bind-Ensures (load-Ensures i) λ o v.
      bind-Ensures (call-Ensures (add_book_op b q price) o u v)
        λ r v'. map_err-Ensures _ _ (save_order-Keeps inv env r.1 v')

  addressing-Keeps :
      (i : OrderId) (pc pr ci l1 : String) (l2 : Option String)
      → Keeps P (set_shipping_address_from_request env i pc pr ci l1 l2)
  unfolding set_shipping_address_from_request run_op
  addressing-Keeps i pc pr ci l1 l2 = bind-Ensures (load-Ensures i) λ o v.
      bind-Ensures (map_err-Ensures _ _ (from_state-Keeps λ w p. p)) λ a _.
        bind-Ensures (call-Ensures (set_address_op a) o tt v)
          λ r v'. map_err-Ensures _ _ (save_order-Keeps inv env r.1 v')

  confirming-Keeps : (i : OrderId) → Keeps P (confirm_order env publish i)
  unfolding confirm_order run_op
  confirming-Keeps i = bind-Ensures (load-Ensures i) λ o v.
      bind-Ensures (call-Ensures confirm_op o tt v) λ r v'.
        map_err-Ensures _ _ (save_order-Keeps inv env r.1 v')
        ⨟ bind-Ensures (new_v4-Keeps inv.neutral env) λ c _.
          bind-Ensures (or_panic-Ensures (Order.calculate_total env.profile r.1) (λ a h. tt)) λ t _.
            bind-Ensures (new_order_confirmed-Keeps inv.neutral env _ _ _ _)
              λ e _. map_err-Ensures _ _ (keep _)

  cancelling-Keeps : (i : OrderId) → Keeps P (cancel_order env publish i)
  unfolding cancel_order run_op
  cancelling-Keeps i = bind-Ensures (load-Ensures i) λ o v.
      bind-Ensures (call-Ensures cancel_op o tt v) λ r v'.
        map_err-Ensures _ _ (save_order-Keeps inv env r.1 v')
        ⨟ bind-Ensures (new_v4-Keeps inv.neutral env) λ c _.
          bind-Ensures (new_order_cancelled-Keeps inv.neutral env _ _ _)
            λ e _. map_err-Ensures _ _ (keep _)

  shipping-Keeps : (i : OrderId) → Keeps P (mark_order_as_shipped env publish i)
  unfolding mark_order_as_shipped run_op
  shipping-Keeps i = bind-Ensures (load-Ensures i) λ o v.
      bind-Ensures (call-Ensures ship_op o tt v) λ r v'.
        map_err-Ensures _ _ (save_order-Keeps inv env r.1 v')
        ⨟ bind-Ensures (new_v4-Keeps inv.neutral env) λ c _.
          bind-Ensures (or_panic-Ensures r.1.shipping_address (λ a h. tt)) λ a _.
            bind-Ensures (new_order_shipped-Keeps inv.neutral env _ _)
              λ e _. map_err-Ensures _ _ (keep _)

  delivering-Keeps : (i : OrderId) → Keeps P (mark_order_as_delivered env publish i)
  unfolding mark_order_as_delivered run_op
  delivering-Keeps i = bind-Ensures (load-Ensures i) λ o v.
      bind-Ensures (call-Ensures deliver_op o tt v) λ r v'.
        map_err-Ensures _ _ (save_order-Keeps inv env r.1 v')
        ⨟ bind-Ensures (new_v4-Keeps inv.neutral env) λ c _.
          bind-Ensures (new_order_delivered-Keeps inv.neutral env _)
            λ e _. map_err-Ensures _ _ (keep _)

  pub serve-keeps : (r : Request) (w : World) → IsRequest r → P w → P (serve env publish r w)
  unfolding serve get_order_by_id create_inventory get_inventory_by_book_id
  serve-keeps (creating c) w u p = ((creating-Keeps c).keeps w p).0
  serve-keeps (adding i b q price) w u p = ((adding-Keeps i b q price u).keeps w p).0
  serve-keeps (addressing i pc pr ci l1 l2) w u p =
      ((addressing-Keeps i pc pr ci l1 l2).keeps w p).0
  serve-keeps (confirming i) w u p = ((confirming-Keeps i).keeps w p).0
  serve-keeps (cancelling i) w u p = ((cancelling-Keeps i).keeps w p).0
  serve-keeps (shipping i) w u p = ((shipping-Keeps i).keeps w p).0
  serve-keeps (delivering i) w u p = ((delivering-Keeps i).keeps w p).0
  serve-keeps (reading i) w u p = ((find_by_id-Ensures inv env i).keeps w p).0
  serve-keeps (stocking b q) w u p =
      ((save_inventory-Keeps inv env (Inventory.new b q) u).keeps w p).0
  serve-keeps (counting b) w u p = ((find_by_book_id-Ensures inv env b).keeps w p).0

  pub serve_all-keeps :
      (rs : List Request) (w : World) → All IsRequest rs → P w → P (serve_all env publish rs w)
  unfolding serve_all
  serve_all-keeps [] w u p = p
  serve_all-keeps (r ∷ rs) w u p =
      serve_all-keeps rs (serve env publish r w) u.1 (serve-keeps r w u.0 p)

-- ===== src/Soundness/Consistency.antt =====
-- The consistency of the data behind the repositories as an invariant of the whole program.
use mathlib.Core.Path.{subst}
use ddd_samples.Prelude.{
  ℕ, ◌≡◌, refl, Option, some, List, All, ◌==◌, Bool-cases, inl, inr, sym, ==→≡,
}
use ddd_samples.Prelude.Words.{debug, IsU32}
use ddd_samples.Value.{OrderId, BookId}
use ddd_samples.Order.{Order}
use ddd_samples.Order.Invariant.{IsValid}
use ddd_samples.Inventory.{Inventory}
use ddd_samples.World.{World, Env}
use ddd_samples.Port.{update}
use ddd_samples.Wiring.{event_bus}
use ddd_samples.Soundness.Interface.{Invariant}
use ddd_samples.Soundness.Delivery.{TimeoutKeeps, event_bus-Keeps}
use ddd_samples.Soundness.Requests.{Request, serve_all, serve_all-keeps, IsRequest}

-- Every stored order is valid and is filed under its own identifier; so is every row of the
-- stock, which holds a `u32`.
pub record IsConsistent (w : World) : Type 0 where
  pub orders_valid : (i : OrderId) (o : Order) → w.orders i ≡ some o → IsValid o × (o.id ≡ i)
  pub stock_valid :
      (b : BookId) (v : Inventory) → w.stock b ≡ some v → IsU32 v.quantity_on_hand × (v.book_id ≡ b)

update-keeps :
    {A : Type 0} {Q : ℕ → A → Type 0} (f : ℕ → Option A) (k : ℕ) (v : A)
    → ((j : ℕ) (a : A) → f j ≡ some a → Q j a)
    → Q k v
    → (j : ℕ) (a : A) → update f k v j ≡ some a
    → Q j a
update-keeps {Q} f k v h q j a e = elim (Bool-cases (j == k)) [
  | inl t ↦
      let found : some v ≡ some a = rw t at e in
      let same : v ≡ a = cc in subst (λ x. Q x a) (sym (==→≡ j k t)) (subst (λ x. Q k x) same q)
  | inr n ↦ h j a (rw n at e)
]

consistent : Invariant IsConsistent
consistent = record {
  neutral = record {
    by_log = λ w l p. record { orders_valid = p.orders_valid; stock_valid = p.stock_valid };
    by_calls = λ w l p. record { orders_valid = p.orders_valid; stock_valid = p.stock_valid };
    by_draws = λ w l p. record { orders_valid = p.orders_valid; stock_valid = p.stock_valid };
    by_ticks = λ w l p. record { orders_valid = p.orders_valid; stock_valid = p.stock_valid };
    by_processed = λ w l p. record { orders_valid = p.orders_valid; stock_valid = p.stock_valid };
    by_dead_letters =
        λ w l p. record { orders_valid = p.orders_valid; stock_valid = p.stock_valid };
  };
  by_order = λ w o v p. record {
    orders_valid =
        update-keeps {Q = λ i x. IsValid x × (x.id ≡ i)} w.orders o.id o p.orders_valid (v, refl);
    stock_valid = p.stock_valid;
  };
  by_stock = λ w v u p. record {
    orders_valid = p.orders_valid;
    stock_valid =
        update-keeps {Q = λ b x. IsU32 x.quantity_on_hand × (x.book_id ≡ b)} w.stock v.book_id v
          p.stock_valid (u, refl);
  };
  order_valid = λ w i o p e. (p.orders_valid i o e).0;
  stock_valid = λ w b v p e. (p.stock_valid b v e).0;
}

-- With overflow checks, over the bus of main.rs to any depth of nested publications: whatever
-- requests are served with `u32` quantities, in any order, whichever repository calls fail and
-- whichever handlers fail or time out, a consistent world stays consistent, if a timeout leaves a
-- consistent world of a handler that keeps worlds consistent. Every stored order is filed under its own
-- identifier, no book has two of its lines, its quantities are positive `u32`, and it has a line
-- and an address if it is Confirmed, Shipped or Delivered; every row of the stock is filed under
-- its own book and holds a `u32`.
pub serve_all-IsConsistent :
    (env : Env) (depth : ℕ) (rs : List Request) (w : World)
    → env.profile ≡ debug
    → TimeoutKeeps IsConsistent env
    → All IsRequest rs
    → IsConsistent w
    → IsConsistent (serve_all env (λ e. event_bus env depth e) rs w)
serve_all-IsConsistent env depth rs w checked timed u p =
    serve_all-keeps consistent env checked (λ e. event_bus env depth e)
      (event_bus-Keeps consistent env timed depth) rs w u p

-- ===== src/Soundness/Interface.antt =====
-- What a property of the world has to satisfy for the program to keep it, and the actions that
-- keep it then: repository calls, log entries, marks, fresh identifiers and the events' constructors.
use mathlib.Core.Path.{subst}
use ddd_samples.Prelude.{ℕ, suc, ⊤, String, ◌≡◌, refl, Option, none, some, List}
use ddd_samples.Prelude.Words.{IsU32}
use ddd_samples.Prelude.Action.{Outcome, ok, err}
use ddd_samples.Prelude.Ensures.{
  Ensures, Keeps, AnyValue, Good, bind-Ensures, modify-Ensures, pure-Ensures, map_err-Ensures,
  or_raise-Ensures, gets-Ensures,
}
use ddd_samples.Error.{RepositoryError}
use ddd_samples.Value.{Uuid, OrderId, BookId}
use ddd_samples.Order.{Order}
use ddd_samples.Order.Invariant.{IsValid}
use ddd_samples.Inventory.{Inventory}
use ddd_samples.World.{World, Env, DeadLetterEntry, LogEntry, LogLevel, Tracker}
use ddd_samples.Event.{new_v4, read_clock, metadata_with_correlation_id, new_metadata}
use ddd_samples.Port.{update, call, find_by_id, save_order, find_by_book_id, save_inventory}
use ddd_samples.Handler.Common.{log, mark_processed, is_processed, find_order}

-- A property that says nothing about the log, the trackers, the counters and the dead
-- letters.
pub record Neutral (P : World → Type 0) : Type 0 where
  pub by_log : (w : World) (l : List LogEntry) → P w → P (record w { log = l })
  pub by_calls : (w : World) (n : ℕ) → P w → P (record w { calls = n })
  pub by_draws : (w : World) (n : ℕ) → P w → P (record w { draws = n })
  pub by_ticks : (w : World) (n : ℕ) → P w → P (record w { ticks = n })
  pub by_processed : (w : World) (f : Tracker → List Uuid) → P w → P (record w { processed = f })
  pub by_dead_letters :
      (w : World) (l : List DeadLetterEntry) → P w → P (record w { dead_letters = l })

pub record Invariant (P : World → Type 0) : Type 0 where
  pub neutral : Neutral P
  pub by_order :
      (w : World) (o : Order) → IsValid o → P w → P (record w { orders = update w.orders o.id o })
  pub by_stock :
      (w : World) (v : Inventory)
      → IsU32 v.quantity_on_hand
      → P w
      → P (record w { stock = update w.stock v.book_id v })
  pub order_valid : (w : World) (i : OrderId) (o : Order) → P w → w.orders i ≡ some o → IsValid o
  pub stock_valid :
      (w : World) (b : BookId) (v : Inventory) → P w → w.stock b ≡ some v → IsU32 v.quantity_on_hand

-- A book's row, if there is one, holds a `u32`.
abbrev pub IsRow : Option Inventory → Type 0
IsRow none = ⊤
IsRow (some v) = IsU32 v.quantity_on_hand

abbrev pub IsFound : Option Order → Type 0
IsFound none = ⊤
IsFound (some o) = IsValid o

module _ {P : World → Type 0} (neutral : Neutral P) (env : Env) where
  pub call-Keeps : Keeps P (call env)
  call-Keeps = record {
    keeps = λ w p. (neutral.by_calls w (suc w.calls) p, called (env.fault w.calls));
  }
    where
      called :
          (f : Option RepositoryError)
          → Good AnyValue
              (let r : Outcome RepositoryError ⊤ = elim f [ none ↦ ok tt | some e ↦ err e ] in r)
      called none = tt
      called (some e) = tt

  pub log-Keeps :
      {E : Type 0} (l : LogLevel) (c m : String) (i : Option Uuid) → Keeps {E = E} P (log l c m i)
  log-Keeps l c m i = modify-Ensures λ w p. neutral.by_log w _ p

  pub is_processed-Keeps :
      {E : Type 0} (t : Tracker) (i : Uuid) → Keeps {E = E} P (is_processed t i)
  unfolding is_processed
  is_processed-Keeps t i = gets-Ensures λ w p. tt

  pub mark_processed-Keeps :
      {E : Type 0} (t : Tracker) (i : Uuid) → Keeps {E = E} P (mark_processed t i)
  unfolding mark_processed
  mark_processed-Keeps t i = modify-Ensures λ w p. neutral.by_processed w _ p

  pub new_v4-Keeps : {E : Type 0} → Keeps {E = E} P (new_v4 env)
  new_v4-Keeps = record { keeps = λ w p. (neutral.by_draws w (suc w.draws) p, tt) }

  pub read_clock-Keeps : {E : Type 0} → Keeps {E = E} P (read_clock env)
  read_clock-Keeps = record { keeps = λ w p. (neutral.by_ticks w (suc w.ticks) p, tt) }

  pub correlated-Keeps :
      {E : Type 0} (i : Uuid) → Keeps {E = E} P (metadata_with_correlation_id env i)
  unfolding metadata_with_correlation_id
  correlated-Keeps {E} i =
      bind-Ensures new_v4-Keeps λ _ _. bind-Ensures read_clock-Keeps λ _ _. pure-Ensures tt

  pub new_metadata-Keeps : {E : Type 0} → Keeps {E = E} P (new_metadata env)
  unfolding new_metadata
  new_metadata-Keeps {E} =
      bind-Ensures new_v4-Keeps
        λ _ _. bind-Ensures read_clock-Keeps λ _ _. bind-Ensures new_v4-Keeps λ _ _. pure-Ensures tt

module _ {P : World → Type 0} (inv : Invariant P) (env : Env) where
  pub find_by_id-Ensures : (i : OrderId) → Ensures P IsFound (find_by_id env i)
  unfolding find_by_id
  find_by_id-Ensures i =
      bind-Ensures (call-Keeps inv.neutral env)
        (λ _ _. gets-Ensures λ w p. found w p (w.orders i) refl)
    where
      found : (w : World) → P w → (f : Option Order) → w.orders i ≡ f → IsFound f
      found w p none e = tt
      found w p (some o) e = inv.order_valid w i o p e

  pub find_by_book_id-Ensures : (b : BookId) → Ensures P IsRow (find_by_book_id env b)
  unfolding find_by_book_id
  find_by_book_id-Ensures b =
      bind-Ensures (call-Keeps inv.neutral env)
        (λ _ _. gets-Ensures λ w p. found w p (w.stock b) refl)
    where
      found : (w : World) → P w → (f : Option Inventory) → w.stock b ≡ f → IsRow f
      found w p none e = tt
      found w p (some v) e = inv.stock_valid w b v p e

  pub save_order-Keeps : (o : Order) → IsValid o → Keeps P (save_order env o)
  unfolding save_order
  save_order-Keeps o v =
      bind-Ensures (call-Keeps inv.neutral env) (λ _ _. modify-Ensures λ w p. inv.by_order w o v p)

  pub save_inventory-Keeps :
      (v : Inventory) → IsU32 v.quantity_on_hand → Keeps P (save_inventory env v)
  unfolding save_inventory
  save_inventory-Keeps v u =
      bind-Ensures (call-Keeps inv.neutral env) (λ _ _. modify-Ensures λ w p. inv.by_stock w v u p)

  pub find_order-Ensures : (i : OrderId) → Ensures P IsValid (find_order env i)
  unfolding find_order
  find_order-Ensures i =
      bind-Ensures (map_err-Ensures _ _ (find_by_id-Ensures i))
        λ f q. or_raise-Ensures f _ (valid f q)
    where
      valid : (f : Option Order) → IsFound f → (o : Order) → f ≡ some o → IsValid o
      valid none q o e = cc
      valid (some o') q o e = let same : o' ≡ o = cc in subst IsValid same q

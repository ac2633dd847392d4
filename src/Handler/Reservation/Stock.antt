-- ===== src/Handler/Reservation/Stock.antt =====
-- What the reservation of an order's lines does to the stock.
use ddd_samples.Prelude.{
  ℕ, suc, ◌+◌, ⊤, ◌≡◌, ◌∙◌, ap, sym, ==→≡, ==_refl, refl, Option, none, some, arith, ◌==◌,
  if◌then◌else◌, Bool-cases, Option-cases, inl, inr,
}
use ddd_samples.Prelude.Action.{Outcome, ok, err, panic, Action, ◌>>=◌, map_err}
use ddd_samples.Prelude.Runs.{bind-ok, bind-err}
use ddd_samples.Prelude.Ensures.{
  Ensures, Keeps, from_state-Keeps, Good, bind-Ensures, raise-Ensures, map_err-Ensures, ◌⨟◌,
}
use ddd_samples.Error.{DomainError, HandlerError, RepositoryError}
use ddd_samples.Value.{BookId}
use ddd_samples.Value.OrderLine.{OrderLine}
use ddd_samples.Inventory.{Inventory}
use ddd_samples.Inventory.Stock.{Reserved, reserve-Reserved}
use ddd_samples.World.{
  World, Env, DomainEvent, OrderConfirmed, InventoryReservationFailed, inventory_reservation_failed,
}
use ddd_samples.Port.{update, find_by_book_id, save_inventory}
use ddd_samples.Handler.Common.{Publish, repository_failed}
use ddd_samples.Handler.Reservation.{or_empty, reservation_failure, settle, reserve_line}
use ddd_samples.Soundness.Interface.{Neutral, log-Keeps, mark_processed-Keeps}
use ddd_samples.Soundness.Events.{correlated_inventory_reservation_failed-Keeps}

-- The copies of a book that the stock holds; no row is a stock of 0.
abbrev pub copies : Option Inventory → ℕ
copies none = 0
copies (some v) = v.quantity_on_hand

abbrev pub on_hand : World → BookId → ℕ
on_hand w b = copies (w.stock b)

-- Each row of the stock is filed under its own book.
abbrev pub Keyed : World → Type 0
Keyed w = (b : BookId) (v : Inventory) → w.stock b ≡ some v → v.book_id ≡ b

-- `publish` leaves the stock alone on the events of one kind.
abbrev pub Quiet : {A : Type 0} → (A → DomainEvent) → Publish → Type 0
Quiet {A} kind publish = (x : A) (w : World) → (publish (kind x) w).1.stock ≡ w.stock

-- One round of the loop: the line's copies are taken off its book if the round succeeds, and
-- nothing is taken otherwise.
abbrev pub Step : OrderLine → World → Outcome HandlerError ⊤ × World → Type 0
Step l w (ok _, w') =
    ((b : BookId) → on_hand w' b + (if l.book_id == b then l.quantity else 0) ≡ on_hand w b)
    × Keyed w'
Step l w (err _, w') = w'.stock ≡ w.stock
Step l w (panic, w') = w'.stock ≡ w.stock

pub same_stock : (s : BookId → Option Inventory) → Neutral (λ w. w.stock ≡ s)
same_stock s = record {
  by_log = λ w l p. p;
  by_calls = λ w n p. p;
  by_draws = λ w n p. p;
  by_ticks = λ w n p. p;
  by_processed = λ w f p. p;
  by_dead_letters = λ w l p. p;
}

module _ (f : BookId → Option Inventory) (v : Inventory) where
  update-copies :
      (l : OrderLine)
      → v.book_id ≡ l.book_id
      → v.quantity_on_hand + l.quantity ≡ copies (f l.book_id)
      → (c : BookId)
      → copies (update f v.book_id v c) + (if l.book_id == c then l.quantity else 0) ≡ copies (f c)
  update-copies l b n c = elim (Bool-cases (c == v.book_id)) [
    | inl t ↦ let here : c ≡ l.book_id = ==→≡ c v.book_id t ∙ b in rw (t, here, ==_refl l.book_id) n
    | inr h ↦ rw h (ground arith)
  ]

  update-keyed :
      ((c : BookId) (x : Inventory) → f c ≡ some x → x.book_id ≡ c)
      → (c : BookId) (x : Inventory) → update f v.book_id v c ≡ some x
      → x.book_id ≡ c
  update-keyed keyed c x e = elim (Bool-cases (c == v.book_id)) [
    | inl t ↦
        let found : some v ≡ some x = rw t at e in
        let same : v ≡ x = cc in ap (λ y. y.book_id) (sym same) ∙ sym (==→≡ c v.book_id t)
    | inr n ↦ keyed c x (rw n at e)
  ]

-- The reading of a line's row.
abbrev pub lookup : Env → OrderLine → Action World HandlerError (Option Inventory)
lookup env l = map_err (repository_failed "在庫取得エラー: ") (find_by_book_id env l.book_id)

pub found :
    (env : Env) (l : OrderLine) (w : World)
    → env.fault w.calls ≡ none
    → lookup env l w ≡ (ok (w.stock l.book_id), record w { calls = suc w.calls })
unfolding find_by_book_id ◌>>=◌
found env l w h = rw h refl

failed :
    (env : Env) (l : OrderLine) (w : World) (x : RepositoryError)
    → env.fault w.calls ≡ some x
    → lookup env l w ≡ (err (repository_failed "在庫取得エラー: " x), record w { calls = suc w.calls })
unfolding find_by_book_id ◌>>=◌
failed env l w x h = rw h refl

module _ (env : Env) (publish : Publish) (quiet : Quiet inventory_reservation_failed publish)
    (e : OrderConfirmed) where
  failure-Ensures :
      (s : BookId → Option Inventory) (d : DomainError)
      → Ensures (λ w. w.stock ≡ s) (λ x. ⊥) (reservation_failure env publish e d)
  unfolding reservation_failure
  failure-Ensures s d =
      let neutral = same_stock s in
      bind-Ensures (correlated_inventory_reservation_failed-Keeps neutral env _ _ _ _ _) λ f _.
        map_err-Ensures _ _ (published _)
        ⨟ log-Keeps neutral env _ _ _ _
        ⨟ mark_processed-Keeps neutral env _ _
        ⨟ raise-Ensures
    where
      published :
          (x : InventoryReservationFailed)
          → Keeps (λ w. w.stock ≡ s) (publish (inventory_reservation_failed x))
      published x = from_state-Keeps λ w p. quiet x w ∙ p

  -- The arm of a refused reservation returns an error or panics, and takes nothing.
  failure-Step :
      (l : OrderLine) (d : DomainError) (w w0 : World)
      → w.stock ≡ w0.stock
      → Step l w0 (reservation_failure env publish e d w)
  failure-Step l d w w0 h =
      go (reservation_failure env publish e d w) ((failure-Ensures w0.stock d).keeps w h)
    where
      go :
          (r : Outcome HandlerError ⊤ × World)
          → (r.1.stock ≡ w0.stock) × Good (λ x. ⊥) r.0
          → Step l w0 r
      go (ok x, w') g = absurd g.1
      go (err x, w') g = g.0
      go (panic, w') g = g.0

  -- Saving what is left of a row.
  save-Step :
      (l : OrderLine) (v : Inventory) (w w0 : World)
      → w.stock ≡ w0.stock
      → Keyed w0
      → v.book_id ≡ l.book_id
      → v.quantity_on_hand + l.quantity ≡ on_hand w0 l.book_id
      → Step l w0 (settle env publish e (ok tt, v) w)
  unfolding save_inventory ◌>>=◌
  save-Step l v w w0 same keyed b n = elim (Option-cases (env.fault w.calls)) [
    | inl h ↦ rw h (rw same (update-copies w0.stock v l b n, update-keyed w0.stock v keyed))
    | inr (x, h) ↦ rw h same
  ]

  settle-Step :
      (l : OrderLine) (v : Inventory) (r : Outcome DomainError ⊤ × Inventory) (w w0 : World)
      → w.stock ≡ w0.stock
      → Keyed w0
      → v.book_id ≡ l.book_id
      → v.quantity_on_hand ≡ on_hand w0 l.book_id
      → Reserved v l.quantity r
      → Step l w0 (settle env publish e r w)
  settle-Step l v (ok _, v') w w0 same keyed b n h =
      save-Step l v' w w0 same keyed (h.0 ∙ b) (h.1 ∙ n)
  settle-Step l v (err d, v') w w0 same keyed b n h = failure-Step l d w w0 same
  settle-Step l v (panic, v') w w0 same keyed b n h = absurd h

  or_empty-book_id : (b : BookId) (w : World) → Keyed w → (or_empty b (w.stock b)).book_id ≡ b
  or_empty-book_id b w keyed = go (w.stock b) (keyed b)
    where
      go :
          (f : Option Inventory)
          → ((v : Inventory) → f ≡ some v → v.book_id ≡ b)
          → (or_empty b f).book_id ≡ b
      go none k = refl
      go (some v) k = k v refl

  pub or_empty-copies :
      (b : BookId) (f : Option Inventory) → (or_empty b f).quantity_on_hand ≡ copies f
  or_empty-copies b none = refl
  or_empty-copies b (some v) = refl

  pub reserve_line-Step :
      (l : OrderLine) (w : World) → Keyed w → Step l w (reserve_line env publish e l w)
  unfolding reserve_line
  reserve_line-Step l w keyed = elim (Option-cases (env.fault w.calls)) [
    | inl h ↦
        let row = or_empty l.book_id (w.stock l.book_id) in
        rw (bind-ok _ _ (found env l w h)) (
          settle-Step l row _ (record w { calls = suc w.calls }) w refl keyed
            (or_empty-book_id l.book_id w keyed) (or_empty-copies l.book_id (w.stock l.book_id))
            (reserve-Reserved env.profile l.quantity row))
    | inr (x, h) ↦ rw (bind-err _ _ (failed env l w x h)) refl
  ]

-- ===== src/Handler/Reservation/Loop.antt =====
-- The loop over the lines of an order: what it has taken when it ends, and when it succeeds.
use ddd_samples.Prelude.{
  ℕ, suc, ◌+◌, ◌≤◌, ◌-◌, ⊤, ◌≡◌, ◌∙◌, ap, ==_refl, refl, Option, none, List, [], ◌∷◌, ◌++◌, arith,
  ◌==◌, if◌then◌else◌,
}
use ddd_samples.Prelude.Action.{Outcome, ok, err, panic, ◌>>=◌}
use ddd_samples.Prelude.Runs.{bind-ok, bind-err, bind-panic}
use ddd_samples.Error.{HandlerError}
use ddd_samples.Value.{BookId}
use ddd_samples.Value.OrderLine.{OrderLine}
use ddd_samples.Order.Lines.{quantity_of}
use ddd_samples.Inventory
use ddd_samples.Inventory.{Inventory}
use ddd_samples.World.{World, Env, OrderConfirmed, inventory_reservation_failed}
use ddd_samples.Port.{update, save_inventory}
use ddd_samples.Handler.Common.{Publish}
use ddd_samples.Handler.Reservation.{or_empty, settle, reserve_line, reserve_lines}
use ddd_samples.Handler.Reservation.Stock.{
  on_hand, Keyed, Quiet, Step, lookup, found, reserve_line-Step, or_empty-copies,
}
use ddd_samples.Inventory.Stock.{reserve-ok}

-- What a run of the loop over `ls` has taken off the stock: the copies of the lines `done`, a
-- beginning of `ls`, and of all of `ls` if it succeeded.
abbrev pub Taken : List OrderLine → World → Outcome HandlerError ⊤ × World → Type 0
Taken ls w r =
    (done : List OrderLine) × (rest : List OrderLine) × (done ++ rest ≡ ls)
    × ((b : BookId) → on_hand r.1 b + quantity_of b done ≡ on_hand w b)
    × (r.0 ≡ ok tt → rest ≡ [])
    × Keyed r.1

module _ (env : Env) (publish : Publish) (quiet : Quiet inventory_reservation_failed publish)
    (e : OrderConfirmed) where
  Taken-none :
      (ls : List OrderLine) (w : World) (r : Outcome HandlerError ⊤ × World)
      → r.1.stock ≡ w.stock
      → Keyed w
      → (r.0 ≡ ok tt → ls ≡ [])
      → Taken ls w r
  Taken-none ls w r same keyed fin =
      ([], ls, refl, (λ b. rw same (ground arith)), fin, (λ b v h. keyed b v (rw same at h)))

  Taken-cons :
      (l : OrderLine) (ls : List OrderLine) (w w1 : World) (r : Outcome HandlerError ⊤ × World)
      → ((b : BookId) → on_hand w1 b + (if l.book_id == b then l.quantity else 0) ≡ on_hand w b)
      → Taken ls w1 r
      → Taken (l ∷ ls) w r
  Taken-cons l ls w w1 r step (done, rest, split, took, fin, keyed) =
      (l ∷ done, rest, ap (λ xs. l ∷ xs) split, (λ b. omega (arith, step b, took b)), fin, keyed)

  -- However the loop over the lines ends (in success, at a line that lacks stock, or at a
  -- repository call that fails): if each row of the stock is filed under its own book and the bus
  -- leaves the stock alone on an `InventoryReservationFailed` event, then the copies that are gone
  -- are, book by book, those of a beginning of the lines, and of all lines if it succeeds. Each
  -- row is then still filed under its own book.
  pub reserve_lines-Taken :
      (ls : List OrderLine) (w : World) → Keyed w → Taken ls w (reserve_lines env publish e ls w)
  unfolding reserve_lines
  reserve_lines-Taken [] w keyed = Taken-none [] w (ok tt, w) refl keyed (λ h. refl)
  reserve_lines-Taken (l ∷ ls) w keyed =
      go (reserve_line env publish e l w) refl (reserve_line-Step env publish quiet e l w keyed)
        (reserve_lines-Taken ls)
    where
      go :
          (r : Outcome HandlerError ⊤ × World)
          → reserve_line env publish e l w ≡ r
          → Step l w r
          → ((v : World) → Keyed v → Taken ls v (reserve_lines env publish e ls v))
          → Taken (l ∷ ls) w (reserve_lines env publish e (l ∷ ls) w)
      go (ok _, w1) h step more =
          rw (bind-ok (reserve_line env publish e l) (λ _. reserve_lines env publish e ls) h)
            (Taken-cons l ls w w1 (reserve_lines env publish e ls w1) step.0 (more w1 step.1))
      go (err x, w1) h step more =
          rw (bind-err (reserve_line env publish e l) (λ _. reserve_lines env publish e ls) h)
            (Taken-none (l ∷ ls) w (err x, w1) step keyed (λ q. cc))
      go (panic, w1) h step more =
          rw (bind-panic (reserve_line env publish e l) (λ _. reserve_lines env publish e ls) h)
            (Taken-none (l ∷ ls) w (panic, w1) step keyed (λ q. cc))

  -- The world after a round that succeeds.
  abbrev after : OrderLine → World → World
  after l w =
      let row = or_empty l.book_id (w.stock l.book_id) in
      record w {
        calls = suc (suc w.calls);
        stock =
            update w.stock row.book_id
              (record row { quantity_on_hand = row.quantity_on_hand - l.quantity });
      }

  reserve_line-ok :
      (l : OrderLine) (w : World)
      → ((n : ℕ) → env.fault n ≡ none)
      → l.quantity ≤ on_hand w l.book_id
      → reserve_line env publish e l w ≡ (ok tt, after l w)
  unfolding reserve_line save_inventory ◌>>=◌
  reserve_line-ok l w sound enough =
      let row = or_empty l.book_id (w.stock l.book_id) in
      let here : row.quantity_on_hand ≡ on_hand w l.book_id =
        or_empty-copies env publish quiet e l.book_id (w.stock l.book_id) in
      let next = λ (f : Option Inventory).
        settle env publish e (Inventory.reserve env.profile l.quantity (or_empty l.book_id f)) in
      bind-ok (lookup env l) next (found env l w (sound w.calls))
      ∙ rw (reserve-ok env.profile l.quantity row (rw here enough), sound (suc w.calls)) refl

  -- If no repository call fails, each row is filed under its own book, the bus leaves the stock
  -- alone on an `InventoryReservationFailed` event, and of every book there are as many copies as the lines ask for together, then the loop
  -- succeeds and takes exactly these copies off every book.
  pub reserve_lines-ok :
      (ls : List OrderLine) (w : World)
      → Keyed w
      → ((n : ℕ) → env.fault n ≡ none)
      → ((b : BookId) → quantity_of b ls ≤ on_hand w b)
      → let r = reserve_lines env publish e ls w in
        (r.0 ≡ ok tt) × ((b : BookId) → on_hand r.1 b + quantity_of b ls ≡ on_hand w b)
  unfolding reserve_lines
  reserve_lines-ok [] w keyed sound enough = (refl, λ b. omega arith)
  reserve_lines-ok (l ∷ ls) w keyed sound enough =
      let first = reserve_line-ok l w sound (need l ls w enough) in
      let any = reserve_line-Step env publish quiet e l w keyed in
      let step : Step l w (ok tt, after l w) = rw first at any in
      let (done, took) =
        reserve_lines-ok ls (after l w) step.1 sound (λ b. omega (arith, step.0 b, enough b)) in
      rw (bind-ok (reserve_line env publish e l) (λ _. reserve_lines env publish e ls) first)
        (done, λ b. omega (arith, step.0 b, took b))
    where
      need :
          (l : OrderLine) (ls : List OrderLine) (w : World)
          → ((b : BookId) → quantity_of b (l ∷ ls) ≤ on_hand w b)
          → l.quantity ≤ on_hand w l.book_id
      need l ls w h =
          let whole : quantity_of l.book_id (l ∷ ls) ≤ on_hand w l.book_id = h l.book_id in
          let le : l.quantity + quantity_of l.book_id ls ≤ on_hand w l.book_id =
            rw (==_refl l.book_id) at whole in
          omega (arith, le)

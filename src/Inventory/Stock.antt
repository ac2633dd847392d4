-- ===== src/Inventory/Stock.antt =====
-- Reserving and releasing stock.
use ddd_samples.Prelude.{ℕ, ◌+◌, ◌≤◌, ◌<◌, ⊤, ◌≡◌, arith, ◌-◌}
use ddd_samples.Prelude.Words.{Profile, IsU32}
use ddd_samples.Prelude.Action.{Outcome, ok, err, panic}
use ddd_samples.Error.{DomainError}
use ddd_samples.Inventory.{Inventory, reserve, release}

-- What `reserve` of `q` has done to `i`.
abbrev pub Reserved : Inventory → ℕ → Outcome DomainError ⊤ × Inventory → Type 0
Reserved i q (ok _, j) = (j.book_id ≡ i.book_id) × (j.quantity_on_hand + q ≡ i.quantity_on_hand)
Reserved i q (err e, j) =
    (i.quantity_on_hand < q) × (e ≡ DomainError.insufficient_inventory) × (j ≡ i)
Reserved i q (panic, j) = ⊥

-- In either build `reserve` takes exactly the quantity off the stock and leaves the book alone; or
-- it refuses with `InsufficientInventory`, only when there is less than the quantity, and changes
-- nothing. It never panics.
pub reserve-Reserved : (p : Profile) (q : ℕ) (i : Inventory) → Reserved i q (reserve p q i)
unfolding reserve
reserve-Reserved p q i = ground arith

pub reserve-ok :
    (p : Profile) (q : ℕ) (i : Inventory)
    → q ≤ i.quantity_on_hand
    → reserve p q i ≡ (ok tt, record i { quantity_on_hand = i.quantity_on_hand - q })
unfolding reserve
reserve-ok p q i h = ground arith

-- For a stock that is a `u32` and has at least the quantity, releasing what was reserved succeeds
-- and puts the stock back as it was, in either build.
pub release-reserve :
    (p : Profile) (q : ℕ) (i : Inventory)
    → IsU32 i.quantity_on_hand
    → q ≤ i.quantity_on_hand
    → release p q (reserve p q i).1 ≡ (ok tt, i)
unfolding reserve release
release-reserve p q i u h = ground arith

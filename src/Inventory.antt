-- ===== src/Inventory.antt =====
-- The aggregate of domain/model/inventory.rs.
pub mod Stock
use ddd_samples.Prelude.{ℕ, ⊤, Bool, not, leb}
use ddd_samples.Prelude.Words.{Profile, add_u32, sub_u32}
use ddd_samples.Prelude.Action.{Action, ◌>>=◌, ◌>>◌, raise_if, or_panic, gets, modify}
use ddd_samples.Error.{DomainError}
use ddd_samples.Value.{BookId}

pub record Inventory : Type 0 where
  pub book_id : BookId
  pub quantity_on_hand : ℕ  -- u32

-- `Inventory::new`
abbrev pub new : BookId → ℕ → Inventory
new book_id quantity_on_hand = record { book_id = book_id; quantity_on_hand = quantity_on_hand }

-- `Inventory::has_available_stock`
unfoldable pub has_available_stock : Inventory → ℕ → Bool
has_available_stock self quantity = leb quantity self.quantity_on_hand

-- `Inventory::reserve`
unfoldable pub reserve : Profile → ℕ → Action Inventory DomainError ⊤
unfolding has_available_stock ◌>>=◌
reserve p quantity = do
  available ← gets (λ self. has_available_stock self quantity)
  raise_if (not available) DomainError.insufficient_inventory
  on_hand ← gets (λ self. self.quantity_on_hand)
  rest ← or_panic (sub_u32 p on_hand quantity)
  modify (λ self. record self { quantity_on_hand = rest })

-- `Inventory::release`
unfoldable pub release : Profile → ℕ → Action Inventory DomainError ⊤
unfolding ◌>>=◌
release p quantity = do
  on_hand ← gets (λ self. self.quantity_on_hand)
  sum ← or_panic (add_u32 p on_hand quantity)
  modify (λ self. record self { quantity_on_hand = sum })

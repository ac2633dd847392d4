-- ===== src/Value/OrderStatus/RoundTrip.antt =====
-- The text of a status and `OrderStatus::from_string`.
use text.Mathlib.TextEquality.{eq_iff}
use ddd_samples.Prelude.{str_eq, String, ◌≡◌, refl, ◌↔◌, arith}
use ddd_samples.Prelude.Action.{ok}
use ddd_samples.Value.OrderStatus.{
  OrderStatus, eq_status, pending, confirmed, shipped, delivered, cancelled, show, from_string,
}

from_string_sound : (s : String) (t : OrderStatus) → from_string s ≡ ok t → s ≡ show t
unfolding from_string show
from_string_sound s t h = ground (
  arith,
  eq_iff s "Pending",
  eq_iff s "Confirmed",
  eq_iff s "Shipped",
  eq_iff s "Delivered",
  eq_iff s "Cancelled",
)

from_string-show : (t : OrderStatus) → from_string (show t) ≡ ok t
unfolding from_string show
from_string-show pending = refl
from_string-show confirmed = refl
from_string-show shipped = refl
from_string-show delivered = refl
from_string-show cancelled = refl

-- A text is read as a status exactly when it is the text by which that status is displayed.
pub from_string-eq-ok_iff : (s : String) (t : OrderStatus) → (from_string s ≡ ok t) ↔ (s ≡ show t)
from_string-eq-ok_iff s t = (from_string_sound s t, λ e. rw e (from_string-show t))

each_status :
    (P : OrderStatus → Type 0)
    → P pending
    → P confirmed
    → P shipped
    → P delivered
    → P cancelled
    → (s : OrderStatus) → P s
each_status P p c s d x pending = p
each_status P p c s d x confirmed = c
each_status P p c s d x shipped = s
each_status P p c s d x delivered = d
each_status P p c s d x cancelled = x

-- Statuses are displayed as the same text only when they are the same.
pub str_eq-show : (s t : OrderStatus) → str_eq (show s) (show t) ≡ eq_status s t
unfolding show
str_eq-show pending = each_status _ refl refl refl refl refl
str_eq-show confirmed = each_status _ refl refl refl refl refl
str_eq-show shipped = each_status _ refl refl refl refl refl
str_eq-show delivered = each_status _ refl refl refl refl refl
str_eq-show cancelled = each_status _ refl refl refl refl refl

-- ===== src/Order/Lines/Adding.antt =====
-- The outcomes of `Order::add_book`.
use ddd_samples.Prelude.{
  ℕ, ◌+◌, ◌<◌, ⊤, ◌≡◌, refl, Option, none, some, List, [], ◌∷◌, All, All-append, is_empty, false,
  ◌∙◌, ◌++◌, arith, ◌==◌, if◌then◌else◌, Bool-cases, inl, inr, ==→≡,
}
use ddd_samples.Prelude.Words.{debug, IsU32}
use ddd_samples.Prelude.Action.{Outcome, ok, err, panic}
use ddd_samples.Error.{DomainError}
use ddd_samples.Value.{BookId}
use ddd_samples.Value.Money.{Money}
use ddd_samples.Value.OrderLine.{OrderLine, increase_quantity}
use ddd_samples.Value.OrderLine
use ddd_samples.Order.{Order, place_line, add_book}
use ddd_samples.Order.Lines.{
  quantity_of, ids, Distinct, Distinct-snoc, ids-append, quantity_of-append, IsLine, Grown, grow,
  grow-Grown,
}

-- Two orders that agree on all but their lines.
abbrev pub SameHeader : Order → Order → Type 0
SameHeader o o' =
    (o'.id ≡ o.id)
    × (o'.customer_id ≡ o.customer_id)
    × (o'.shipping_address ≡ o.shipping_address)
    × (o'.status ≡ o.status)

-- What `add_book` of `q` copies of `b` has done to the order `o`, as seen at a book `c`.
abbrev pub Added : Order → BookId → ℕ → BookId → Outcome DomainError ⊤ × Order → Type 0
Added o b q c (ok _, o') =
    (0 < q)
    × (quantity_of c o'.order_lines ≡ quantity_of c o.order_lines + (if b == c then q else 0))
    × SameHeader o o'
Added o b q c (err e, o') = (q ≡ 0) × (e ≡ DomainError.invalid_quantity) × (o' ≡ o)
Added o b q c (panic, o') = (0 < q) × (o' ≡ o)

module _ (o : Order) (b : BookId) (q : ℕ) (price : Money) (positive : 0 < q) where
  abbrev fresh : OrderLine
  fresh = record { book_id = b; quantity = q; unit_price = price }

  new-positive : OrderLine.new b q price ≡ ok fresh
  unfolding OrderLine.new
  new-positive = ground arith

  place_line-Added :
      (c : BookId) (r : Option (Outcome DomainError ⊤ × List OrderLine))
      → Grown b q o.order_lines c r
      → Added o b q c (place_line r (OrderLine.new b q price) o)
  unfolding OrderLine.new
  place_line-Added c none h = ground (arith, quantity_of-append c o.order_lines fresh)
  place_line-Added c (some (ok _, ls')) h = (positive, h.2, (refl, refl, refl, refl))
  place_line-Added c (some (err _, ls')) h = absurd h
  place_line-Added c (some (panic, ls')) h = (positive, rw h)

  place_line-Distinct :
      (r : Option (Outcome DomainError ⊤ × List OrderLine))
      → Grown b q o.order_lines b r
      → Distinct (ids o.order_lines)
      → Distinct (ids (place_line r (OrderLine.new b q price) o).1.order_lines)
  place_line-Distinct none h d =
      rw new-positive
        (rw (ids-append o.order_lines fresh) (Distinct-snoc b (ids o.order_lines) d h.0))
  place_line-Distinct (some (ok _, ls')) h d = rw h.0 d
  place_line-Distinct (some (err _, ls')) h d = absurd h
  place_line-Distinct (some (panic, ls')) h d = rw h d

  place_line-lines :
      (r : Option (Outcome DomainError ⊤ × List OrderLine))
      → IsU32 q
      → Grown b q o.order_lines b r
      → All IsLine o.order_lines
      → All IsLine (place_line r (OrderLine.new b q price) o).1.order_lines
  place_line-lines none u h g =
      rw new-positive (All-append IsLine o.order_lines (fresh ∷ []) g ((positive, u), tt))
  place_line-lines (some (ok _, ls')) u h g = h.1 g
  place_line-lines (some (err _, ls')) u h g = absurd h
  place_line-lines (some (panic, ls')) u h g = rw h g

-- In a build with overflow checks, `add_book` either adds exactly `quantity` copies of the book
-- and leaves every other book, the identifiers, the address and the status alone; or refuses
-- with `InvalidQuantity`, just when the quantity is 0; or panics on an overflow. The last two
-- leave the order as it was.
pub add_book-Added :
    (o : Order) (b : BookId) (q : ℕ) (price : Money) (c : BookId)
    → Added o b q c (add_book debug b q price o)
unfolding add_book
add_book-Added o b q price c = elim (Bool-cases (q == 0)) [
  | inl z ↦ rw z (==→≡ q 0 z, refl, refl)
  | inr n ↦ rw n (
      place_line-Added o b q price (ground arith) c (grow b q o.order_lines)
        (grow-Grown b q o.order_lines c (ground arith)))
]

-- With overflow checks, `add_book` keeps the lines of an order on distinct books, and each line's
-- quantity a positive `u32`.
pub add_book-lines :
    (o : Order) (b : BookId) (q : ℕ) (price : Money)
    → IsU32 q
    → Distinct (ids o.order_lines) × All IsLine o.order_lines
    → let o' = (add_book debug b q price o).1 in
      Distinct (ids o'.order_lines) × All IsLine o'.order_lines
unfolding add_book
add_book-lines o b q price u h = elim (Bool-cases (q == 0)) [
  | inl z ↦ rw z h
  | inr n ↦
      let positive : 0 < q = ground arith in
      let grown = grow-Grown b q o.order_lines b positive in
      rw n (
        place_line-Distinct o b q price positive (grow b q o.order_lines) grown h.0,
        place_line-lines o b q price positive (grow b q o.order_lines) u grown h.1,
      )
]

is_empty-ids : (ls ks : List OrderLine) → ids ls ≡ ids ks → is_empty ls ≡ is_empty ks
is_empty-ids [] [] h = refl
is_empty-ids [] (k ∷ ks) h = cc
is_empty-ids (l ∷ ls) [] h = cc
is_empty-ids (l ∷ ls) (k ∷ ks) h = refl

is_empty-append : (ls : List OrderLine) (l : OrderLine) → is_empty (ls ++ l ∷ []) ≡ false
is_empty-append [] l = refl
is_empty-append (k ∷ ls) l = refl

place_line-nonempty :
    (o : Order) (b : BookId) (q : ℕ) (price : Money)
    → 0 < q
    → (r : Option (Outcome DomainError ⊤ × List OrderLine)) → Grown b q o.order_lines b r
    → is_empty o.order_lines ≡ false
    → is_empty (place_line r (OrderLine.new b q price) o).1.order_lines ≡ false
place_line-nonempty o b q price pos none h e =
    rw (new-positive o b q price pos) (is_empty-append o.order_lines (fresh o b q price pos))
place_line-nonempty o b q price pos (some (ok _, ls')) h e = is_empty-ids ls' o.order_lines h.0 ∙ e
place_line-nonempty o b q price pos (some (err _, ls')) h e = absurd h
place_line-nonempty o b q price pos (some (panic, ls')) h e = rw h e

pub add_book-nonempty :
    (o : Order) (b : BookId) (q : ℕ) (price : Money)
    → is_empty o.order_lines ≡ false
    → is_empty (add_book debug b q price o).1.order_lines ≡ false
unfolding add_book
add_book-nonempty o b q price e = elim (Bool-cases (q == 0)) [
  | inl z ↦ rw z e
  | inr n ↦
      let positive : 0 < q = ground arith in
      rw n (
        place_line-nonempty o b q price positive (grow b q o.order_lines)
          (grow-Grown b q o.order_lines b positive) e)
]

-- `add_book` touches nothing but the lines.
pub add_book-SameHeader :
    (o : Order) (b : BookId) (q : ℕ) (price : Money) → SameHeader o (add_book debug b q price o).1
add_book-SameHeader o b q price = go (add_book debug b q price o) (add_book-Added o b q price b)
  where
    go : (r : Outcome DomainError ⊤ × Order) → Added o b q b r → SameHeader o r.1
    go (ok _, o') h = h.2
    go (err _, o') h = ground arith
    go (panic, o') h = ground arith

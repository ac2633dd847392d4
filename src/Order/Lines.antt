-- ===== src/Order/Lines.antt =====
-- What `Order::add_book` does to the lines of an order.
pub mod Adding
use ddd_samples.Prelude.{
  ℕ, ◌+◌, ◌<◌, ⊤, ◌≡◌, ◌≢◌, refl, false, Option, none, some, List, [], ◌∷◌, ◌++◌, map, All,
  All-append, arith, ◌==◌, if◌then◌else◌, ap, sym, Bool-cases, ◌⊎◌, ==→≡, inl, inr,
}
use ddd_samples.Prelude.Words.{debug, u32_mod, IsU32}
use ddd_samples.Prelude.Action.{Outcome, ok, err, panic}
use ddd_samples.Error.{DomainError}
use ddd_samples.Value.{BookId}
use ddd_samples.Value.OrderLine.{OrderLine, increase_quantity}
use ddd_samples.Order.{on_line}

-- The copies of a book over all lines.
abbrev pub quantity_of : BookId → List OrderLine → ℕ
quantity_of b [] = 0
quantity_of b (l ∷ ls) = (if l.book_id == b then l.quantity else 0) + quantity_of b ls

abbrev pub ids : List OrderLine → List BookId
ids = map λ l. l.book_id

-- No book has two lines.
abbrev pub Distinct : List BookId → Type 0
Distinct [] = ⊤
Distinct (b ∷ bs) = All (λ c. c ≢ b) bs × Distinct bs

pub Distinct-snoc :
    (b : BookId) (bs : List BookId) → Distinct bs → All (λ c. c ≢ b) bs → Distinct (bs ++ b ∷ [])
Distinct-snoc b [] d h = (tt, tt)
Distinct-snoc b (c ∷ bs) d h =
    (All-append (λ x. x ≢ c) bs (b ∷ []) d.0 ((λ e. h.0 (sym e)), tt), Distinct-snoc b bs d.1 h.1)

pub ids-append :
    (ls : List OrderLine) (l : OrderLine) → ids (ls ++ l ∷ []) ≡ ids ls ++ l.book_id ∷ []
ids-append [] l = refl
ids-append (k ∷ ls) l = ap (λ bs. k.book_id ∷ bs) (ids-append ls l)

pub quantity_of-append :
    (b : BookId) (ls : List OrderLine) (l : OrderLine)
    → quantity_of b (ls ++ l ∷ []) ≡ quantity_of b ls + (if l.book_id == b then l.quantity else 0)
quantity_of-append b [] l = omega arith
quantity_of-append b (k ∷ ls) l = omega (arith, quantity_of-append b ls l)

-- A line as the order keeps it.
abbrev pub IsLine : OrderLine → Type 0
IsLine l = (0 < l.quantity) × IsU32 l.quantity

module _ (b : BookId) (q : ℕ) where
  -- What a walk over the lines came to: no line for the book, or one line grown in place.
  abbrev pub Grown : List OrderLine → ℕ → Option (Outcome DomainError ⊤ × List OrderLine) → Type 0
  Grown ls c none = All (λ d. d ≢ b) (ids ls) × (quantity_of b ls ≡ 0)
  Grown ls c (some (ok _, ls')) =
      (ids ls' ≡ ids ls)
      × (All IsLine ls → All IsLine ls')
      × (quantity_of c ls' ≡ quantity_of c ls + (if b == c then q else 0))
  Grown ls c (some (err _, ls')) = ⊥
  Grown ls c (some (panic, ls')) = ls' ≡ ls

  abbrev pub grow : List OrderLine → Option (Outcome DomainError ⊤ × List OrderLine)
  grow = on_line b (increase_quantity debug q)

  Grown-cons :
      (l : OrderLine) (ls : List OrderLine) (c : ℕ)
      (r : Option (Outcome DomainError ⊤ × List OrderLine))
      → (l.book_id == b) ≡ false
      → Grown ls c r
      → Grown (l ∷ ls) c (elim r [ none ↦ none | some (o, ls') ↦ some (o, l ∷ ls') ])
  Grown-cons l ls c none n h = ground arith
  Grown-cons l ls c (some (ok _, ls')) n h =
      (ap (λ bs. l.book_id ∷ bs) h.0, λ g. (g.0, h.1 g.1), omega (arith, h.2))
  Grown-cons l ls c (some (err _, ls')) n h = h
  Grown-cons l ls c (some (panic, ls')) n h = ap (λ ks. l ∷ ks) h

  increase_quantity-cases :
      (l : OrderLine)
      → 0 < q
      → ((l.quantity + q < u32_mod)
          × (increase_quantity debug q l ≡ (ok tt, record l { quantity = l.quantity + q })))
        ⊎ (increase_quantity debug q l ≡ (panic, l))
  unfolding increase_quantity
  increase_quantity-cases l h = ground arith

  Grown-here :
      (l : OrderLine) (ls : List OrderLine) (c : ℕ)
      → l.book_id ≡ b
      → 0 < q
      → Grown
          (l ∷ ls)
          c
          (some ((increase_quantity debug q l).0, (increase_quantity debug q l).1 ∷ ls))
  Grown-here l ls c e pos = elim (increase_quantity-cases l pos) [
    | inl (fits, now) ↦ rw now (refl, λ g. ((omega arith, fits), g.1), ground arith)
    | inr over ↦ rw over refl
  ]

  pub grow-Grown : (ls : List OrderLine) (c : ℕ) → 0 < q → Grown ls c (grow ls)
  grow-Grown [] c h = (tt, refl)
  grow-Grown (l ∷ ls) c h = elim (Bool-cases (l.book_id == b)) [
    | inl e ↦ rw e (Grown-here l ls c (==→≡ l.book_id b e) h)
    | inr n ↦ rw n (Grown-cons l ls c (grow ls) n (grow-Grown ls c h))
  ]

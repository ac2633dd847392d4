-- ===== src/Order/Total.antt =====
-- The price of an order: `Order::calculate_total` against the sum of its lines over ℤ.
use native.Mathlib.Nat.{zero-add}
use ddd_samples.Prelude.{
  and_then-eq-some, ℕ, ◌+◌, ◌*◌, ◌<◌, ◌≡◌, refl, some, List, [], ◌∷◌, All, arith, leb,
  if◌then◌else◌, sym, lt→ltb, ◌∙◌, ap,
}
use ddd_samples.Prelude.Int.{
  ℤ, pos, negsuc, pos_part, neg_part, ◌+ℤ◌, ◌*ℤ◌, leb_ℤ, +ℤ_assoc, zero-+ℤ, +ℤ-zero, pos-*ℤ,
}
use ddd_samples.Prelude.Words.{Profile, debug, i64_half, to_i64_fits, mul_i64}
use ddd_samples.Value.Money.{Money}
use ddd_samples.Value.Money
use ddd_samples.Value.OrderLine.{OrderLine}
use ddd_samples.Value.OrderLine
use ddd_samples.Order.{Order, unwrap_or, fold_subtotals, shipping_fee, calculate_total}

-- Σ unit price × quantity, over ℤ.
abbrev pub exact_sum : List OrderLine → ℤ
exact_sum [] = pos 0
exact_sum (l ∷ ls) = l.unit_price.amount *ℤ pos l.quantity +ℤ exact_sum ls

-- Orders from 10,000 yen on are shipped free, others for 500 yen.
abbrev pub fee : ℤ → ℤ
fee s = if leb_ℤ (pos 10000) s then pos 0 else pos 500

pub subtotal_exact :
    (l : OrderLine) {m : Money}
    → OrderLine.subtotal debug l ≡ some m
    → m.amount ≡ l.unit_price.amount *ℤ pos l.quantity
unfolding OrderLine.subtotal
subtotal_exact l h = ground arith

pub add_exact :
    (a b : Money) {m : Money}
    → unwrap_or (Money.add debug a b) a ≡ some m
    → m.amount ≡ a.amount +ℤ b.amount
unfolding Money.add
add_exact a b h = ground arith

pub fold_exact :
    (ls : List OrderLine) (acc : Money) {m : Money}
    → fold_subtotals debug acc ls ≡ some m
    → m.amount ≡ acc.amount +ℤ exact_sum ls
unfolding fold_subtotals
fold_exact [] acc {m} h =
    let e : m.amount ≡ acc.amount = ground arith in e ∙ sym (+ℤ-zero acc.amount)
fold_exact (l ∷ ls) acc {m} h =
    let (amount, line, rest) = and_then-eq-some (OrderLine.subtotal debug l) _ h in
    let (acc', sum, more) = and_then-eq-some (unwrap_or (Money.add debug acc amount) acc) _ rest in
    rw (fold_exact ls acc' more, add_exact acc amount sum, subtotal_exact l line)
      (+ℤ_assoc acc.amount (l.unit_price.amount *ℤ pos l.quantity) (exact_sum ls))

pub shipping_fee-amount : (s : Money) → (shipping_fee s).amount ≡ fee s.amount
unfolding shipping_fee
shipping_fee-amount s = ground arith

-- With overflow checks, a total that `calculate_total` returns is the sum of unit price times
-- quantity over the lines plus the shipping fee, computed without any rounding, for prices of
-- either sign.
pub total_exact :
    (o : Order) {m : Money}
    → calculate_total debug o ≡ some m
    → m.amount ≡ exact_sum o.order_lines +ℤ fee (exact_sum o.order_lines)
unfolding calculate_total
total_exact o {m} h =
    let (s, folded, rest) =
      and_then-eq-some (fold_subtotals debug (Money.jpy (pos 0)) o.order_lines) _ h in
    let e : s.amount ≡ exact_sum o.order_lines =
      fold_exact o.order_lines (Money.jpy (pos 0)) folded ∙ zero-+ℤ (exact_sum o.order_lines) in
    rw (add_exact s (shipping_fee s) rest, shipping_fee-amount s, e) refl

-- The sum over lines whose prices are not negative.
abbrev pub gross : List OrderLine → ℕ
gross [] = 0
gross (l ∷ ls) = pos_part l.unit_price.amount * l.quantity + gross ls

abbrev pub IsPriced : OrderLine → Type 0
IsPriced l = neg_part l.unit_price.amount ≡ 0

mul_fits :
    (p : Profile) (a : ℤ) (q : ℕ)
    → neg_part a ≡ 0
    → pos_part a * q < i64_half
    → mul_i64 p a (pos q) ≡ some (pos (pos_part a * q))
mul_fits p (pos n) q h b = rw (pos-*ℤ n q) (to_i64_fits p (pos (n * q)) (lt→ltb (n * q) i64_half b))
mul_fits p (negsuc n) q h b = absurd (omega arith)

subtotal_fits :
    (p : Profile) (l : OrderLine)
    → IsPriced l
    → pos_part l.unit_price.amount * l.quantity < i64_half
    → OrderLine.subtotal p l ≡ some (Money.jpy (pos (pos_part l.unit_price.amount * l.quantity)))
unfolding OrderLine.subtotal
subtotal_fits p l h b = ground (arith, mul_fits p l.unit_price.amount l.quantity h b)

add_fits :
    (p : Profile) (a b : ℕ)
    → a + b < i64_half
    → unwrap_or (Money.add p (Money.jpy (pos a)) (Money.jpy (pos b))) (Money.jpy (pos a))
      ≡ some (Money.jpy (pos (a + b)))
unfolding Money.add ◌+ℤ◌
add_fits p a b h = ground arith

fold_fits :
    (p : Profile) (ls : List OrderLine) (acc : ℕ)
    → All IsPriced ls
    → acc + gross ls < i64_half
    → fold_subtotals p (Money.jpy (pos acc)) ls ≡ some (Money.jpy (pos (acc + gross ls)))
unfolding fold_subtotals
fold_fits p [] acc g h = ground arith
fold_fits p (l ∷ ls) acc g h =
    let x = pos_part l.unit_price.amount * l.quantity in
    rw
      (
        subtotal_fits p l g.0 (omega arith),
        add_fits p acc x (omega arith),
        fold_fits p ls (acc + x) g.1 (omega arith),
      )
      (ap (λ n. some (Money.jpy (pos n))) (omega arith))

shipping_fee-jpy :
    (s : ℕ) → shipping_fee (Money.jpy (pos s)) ≡ Money.jpy (pos (if leb 10000 s then 0 else 500))
unfolding shipping_fee
shipping_fee-jpy s = ground arith

-- If no price is negative and the sum of the lines, with the fee of 500, is below 2^63, then in
-- either build `calculate_total` returns that sum, plus 500 if it is less than 10,000.
pub total_fits :
    (p : Profile) (o : Order)
    → All IsPriced o.order_lines
    → gross o.order_lines + 500 < i64_half
    → calculate_total p o
      ≡ some (
          Money.jpy
            (pos (gross o.order_lines + (if leb 10000 (gross o.order_lines) then 0 else 500))))
unfolding calculate_total
total_fits p o g h =
    let s = gross o.order_lines in
    rw (fold_fits p o.order_lines 0 g (omega arith), zero-add s, shipping_fee-jpy s)
      (add_fits p s (if leb 10000 s then 0 else 500) (ground arith))

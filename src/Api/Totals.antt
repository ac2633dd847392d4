-- ===== src/Api/Totals.antt =====
-- The amounts in the answer to a request for an order.
use mathlib.Core.Path.{subst}
use mathlib.Core.Option.{some-injective}
use ddd_samples.Prelude.{arith, and_then-eq-some, ◌≡◌, refl, sym, ap, ◌∙◌, some, List, [], ◌∷◌}
use ddd_samples.Prelude.Int.{ℤ, pos, ◌+ℤ◌, ◌*ℤ◌, zero-+ℤ, +ℤ_assoc, +ℤ-zero}
use ddd_samples.Prelude.Words.{debug}
use ddd_samples.Value.Money.{Money}
use ddd_samples.Value.Money
use ddd_samples.Value.OrderLine.{OrderLine}
use ddd_samples.Value.OrderLine
use ddd_samples.Order.{Order, unwrap_or, calculate_total}
use ddd_samples.Order.Total.{exact_sum, fee, subtotal_exact, add_exact, total_exact}
use ddd_samples.World.{Env}
use ddd_samples.Api.Responses.{
  OrderLineResponse, OrderDetailResponse, collect, from_order_line, fold_amounts, fee_for,
  detail_from_order,
}

-- A line of the answer is that of the order: its book, its quantity, its price, and their product.
pub record Shows (env : Env) (l : OrderLine) (r : OrderLineResponse) : Type 0 where
  pub book : r.book_id ≡ env.show_uuid l.book_id
  pub quantity : r.quantity ≡ l.quantity
  pub price : r.unit_price_amount ≡ l.unit_price.amount
  pub product : r.subtotal_amount ≡ l.unit_price.amount *ℤ pos l.quantity

abbrev pub Shown : Env → List OrderLine → List OrderLineResponse → Type 0
Shown env [] [] = Unit
Shown env (l ∷ ls) (r ∷ rs) = Shows env l r × Shown env ls rs
Shown env _ _ = ⊥

-- The sum of the line subtotals of an answer.
abbrev pub shown_sum : List OrderLineResponse → ℤ
shown_sum [] = pos 0
shown_sum (r ∷ rs) = r.subtotal_amount +ℤ shown_sum rs

pub record AddsUp (env : Env) (o : Order) (r : OrderDetailResponse) : Type 0 where
  pub lines : Shown env o.order_lines r.order_lines
  pub sum : r.subtotal_amount ≡ shown_sum r.order_lines
  pub shipping : r.shipping_fee_amount ≡ fee r.subtotal_amount
  pub total : r.total_amount ≡ r.subtotal_amount +ℤ r.shipping_fee_amount

module _ (env : Env) (checked : env.profile ≡ debug) where
  line-Shows :
      (l : OrderLine) {r : OrderLineResponse} → from_order_line env l ≡ some r → Shows env l r
  unfolding from_order_line
  line-Shows l {r} h =
      let (m, there, rest) = and_then-eq-some (OrderLine.subtotal env.profile l) _ h in
      let exact = subtotal_exact l (ap (λ p. OrderLine.subtotal p l) (sym checked) ∙ there) in
      subst (Shows env l) (some-injective _ _ rest)
        (record { book = refl; quantity = refl; price = refl; product = exact })

  lines-Shown :
      (ls : List OrderLine) {rs : List OrderLineResponse}
      → collect (from_order_line env) ls ≡ some rs
      → Shown env ls rs
  lines-Shown [] h = subst (Shown env []) (some-injective _ _ h) tt
  lines-Shown (l ∷ ls) h =
      let (r, first, rest) = and_then-eq-some (from_order_line env l) _ h in
      let (rs', others, done) = and_then-eq-some (collect (from_order_line env) ls) _ rest in
      subst (Shown env (l ∷ ls)) (some-injective _ _ done)
        (line-Shows l first, lines-Shown ls others)

  shown_sum_exact :
      (ls : List OrderLine) (rs : List OrderLineResponse)
      → Shown env ls rs
      → shown_sum rs ≡ exact_sum ls
  shown_sum_exact [] [] h = refl
  shown_sum_exact [] (r ∷ rs) h = absurd h
  shown_sum_exact (l ∷ ls) [] h = absurd h
  shown_sum_exact (l ∷ ls) (r ∷ rs) h = rw (h.0.product, shown_sum_exact ls rs h.1) refl

  fold_amounts_exact :
      (ls : List OrderLine) (acc : Money) {s : Money}
      → fold_amounts env acc ls ≡ some s
      → s.amount ≡ acc.amount +ℤ exact_sum ls
  unfolding fold_amounts
  fold_amounts_exact [] acc h =
      sym (ap (λ m. m.amount) (some-injective _ _ h)) ∙ sym (+ℤ-zero acc.amount)
  fold_amounts_exact (l ∷ ls) acc h =
      let (amount, line, rest) = and_then-eq-some (OrderLine.subtotal env.profile l) _ h in
      let (acc', sum, more) =
        and_then-eq-some (unwrap_or (Money.add env.profile acc amount) acc) _ rest in
      let product = subtotal_exact l (ap (λ p. OrderLine.subtotal p l) (sym checked) ∙ line) in
      let next =
        add_exact acc amount
          (ap (λ p. unwrap_or (Money.add p acc amount) acc) (sym checked) ∙ sum) in
      rw (fold_amounts_exact ls acc' more, next, product)
        (+ℤ_assoc acc.amount (l.unit_price.amount *ℤ pos l.quantity) (exact_sum ls))

  fee_for-amount : (s : Money) → (fee_for env s).amount ≡ fee s.amount
  unfolding fee_for
  fee_for-amount s = ground arith

  -- With overflow checks, the answer to a request for an order, if its amounts can be computed,
  -- shows each line of the order with its book, quantity and price and their product; its subtotal is the
  -- sum of the subtotals of its lines, its fee is nothing from 10,000 on and 500 below, and its
  -- total is its subtotal plus its fee.
  pub detail-AddsUp :
      (o : Order) (r : OrderDetailResponse) → detail_from_order env o ≡ some r → AddsUp env o r
  unfolding detail_from_order
  detail-AddsUp o r h =
      let (rs, lines, h1) = and_then-eq-some (collect (from_order_line env) o.order_lines) _ h in
      let (s, sum, h2) =
        and_then-eq-some (fold_amounts env (Money.jpy (pos 0)) o.order_lines) _ h1 in
      let (t, total, h3) = and_then-eq-some (calculate_total env.profile o) _ h2 in
      let shown = lines-Shown o.order_lines lines in
      let exact =
        fold_amounts_exact o.order_lines (Money.jpy (pos 0)) sum
        ∙ zero-+ℤ (exact_sum o.order_lines) in
      subst (AddsUp env o) (some-injective _ _ h3) (record {
        lines = shown;
        sum = exact ∙ sym (shown_sum_exact o.order_lines rs shown);
        shipping = fee_for-amount s;
        total =
            total_exact o (ap (λ p. calculate_total p o) (sym checked) ∙ total)
            ∙ rw (fee_for-amount s, exact) refl;
      })

-- ===== src/Mysql/Refinement/HeldKeys.antt =====
-- The keys of the rows of a list of orders: those of the orders, each once.
use mathlib.Core.Path.{subst, fun_ext}
use mathlib.Core.Logic.{◌⊎◌, ∥∥₁_elim}
use mathlib.Core.Logic.Or
use mathlib.Core.List.{
  Permᴰ, Mem, Mem-prop, mem-cons, mem-cons_self, not-mem-nil, Nodup, Nodup-nil, Nodup-cons,
  perm_ext_iff_of_Nodup,
}
use mathlib.Core.List.Perm
use ddd_samples.Prelude.{
  String, str_eq, str_eq_refl, str_eq→≡, ◌≡◌, ◌≢◌, refl, sym, ◌∙◌, true, false, Bool-cases, inl,
  inr, List, [], ◌∷◌, map, All, Perm,
}
use ddd_samples.Prelude.Bags.{All_reordered, filter_by-Perm}
use ddd_samples.Order.{Order}
use ddd_samples.Mysql.Tables.{LineRow, JoinedRow, join_lines, lines_of}
use ddd_samples.Mysql.Driver.{Driver}
use ddd_samples.Mysql.Orders.{order_row}
use ddd_samples.Mysql.Refinement.Grouping.{
  rows_for, keys, IsDistinct, keys-IsDistinct, keys-Covers, keys-All,
}
use ddd_samples.Mysql.Refinement.HeldRows.{
  key, rows_held, rows_of_order, IsAmong, rows_for-held, keys_held,
}

-- Distinct keys as a list of the library without duplicates.
module _ (k : String) where
  All-not_mem : (ks : List String) → All (λ j. str_eq j k ≡ false) ks → ¬ Mem k ks
  All-not_mem [] h m = not-mem-nil m
  All-not_mem (j ∷ js) h m = Or.elim (λ a b. absurd a) (mem-cons.0 m) here (All-not_mem js h.1)
    where
      here : k ≢ j
      here e = let t = subst (λ x. str_eq j x ≡ true) (sym e) (str_eq_refl j) in let f = h.0 in cc

  mem-or_other : (ks : List String) → Mem k ks ⊎ All (λ j. str_eq j k ≡ false) ks
  mem-or_other [] = inr tt
  mem-or_other (j ∷ js) = elim (Bool-cases (str_eq j k)) [
    | inl t ↦ inl (mem-cons.1 ∣ inl (sym (str_eq→≡ j k t)) ∣₁)
    | inr n ↦ elim (mem-or_other js) [ inl m ↦ inl (mem-cons.1 ∣ inr m ∣₁) | inr h ↦ inr (n, h) ]
  ]

IsDistinct-Nodup : (ks : List String) → IsDistinct ks → Nodup ks
IsDistinct-Nodup [] d = Nodup-nil
IsDistinct-Nodup (k ∷ ks) d = Nodup-cons.1 (All-not_mem k ks d.0, IsDistinct-Nodup ks d.1)

All-mem :
    (P : String → Type 0) (ks : List String) {k : String}
    → ((x : String) → IsProp (P x))
    → All P ks
    → Mem k ks
    → P k
All-mem P [] prop h m = absurd (not-mem-nil m)
All-mem P (j ∷ js) {k} prop h m =
    Or.elim (prop k) (mem-cons.0 m) (λ e. subst P (sym e) h.0) (All-mem P js prop h.1)

all_mem : (ks js : List String) → ((k : String) → Mem k js → Mem k ks) → All (λ k. Mem k ks) js
all_mem ks [] h = tt
all_mem ks (j ∷ js) h = (h j mem-cons_self, all_mem ks js (λ k m. h k (mem-cons.1 ∣ inr m ∣₁)))

module _ (driver : Driver) (ls : List LineRow) where
  rows_of_order-filled : (o : Order) → rows_of_order driver ls o ≢ []
  rows_of_order-filled o = go (lines_of (key driver ls o) ls)
    where
      go : (xs : List LineRow) → join_lines (order_row driver o) xs ≢ []
      go [] h = cc
      go (x ∷ xs) h = cc

  keys_filled :
      (all os : List Order)
      → All (IsAmong driver ls all) os
      → All (λ k. rows_for k (rows_held driver ls all) ≢ []) (map (key driver ls) os)
  keys_filled all [] h = tt
  keys_filled all (o ∷ os) h = (λ e. rows_of_order-filled o (sym h.0 ∙ e), keys_filled all os h.1)

  -- The groups are those of the orders.
  pub keys-Perm :
      (os : List Order) (rows : List JoinedRow)
      → IsDistinct (map (key driver ls) os)
      → Perm rows (rows_held driver ls os)
      → Perm (keys [] rows) (map (key driver ls) os)
  keys-Perm os rows d p =
      let ids = map (key driver ls) os in
      (perm_ext_iff_of_Nodup (IsDistinct-Nodup _ (keys-IsDistinct rows)) (IsDistinct-Nodup ids d)).1
        λ k. (λ m. ∥∥₁_elim p Mem-prop λ q. only q m, there)
    where
      only :
          {k : String}
          → Permᴰ rows (rows_held driver ls os)
          → Mem k (keys [] rows)
          → Mem k (map (key driver ls) os)
      only q m =
          let ids = map (key driver ls) os in
          let all = keys_held driver ls (λ k. Mem k ids) os (all_mem ids ids (λ k m. m)) in
          All-mem (λ k. Mem k ids) (keys [] rows) (λ k. Mem-prop)
            (keys-All (λ k. Mem k ids) rows [] tt (All_reordered (λ r. Mem r.order.id ids) q all)) m

      there : {k : String} → Mem k (map (key driver ls) os) → Mem k (keys [] rows)
      there {k} m = elim (mem-or_other k (keys [] rows)) [
        | inl m' ↦ m'
        | inr h ↦
            let none_there = keys-Covers rows [] [] (λ k h. refl) k h in
            let q = filter_by-Perm (λ r. str_eq k r.order.id) p in
            let filled =
              All-mem (λ k. rows_for k (rows_held driver ls os) ≢ []) (map (key driver ls) os)
                (λ x a b. fun_ext λ e. absurd (a e))
                (keys_filled os os (rows_for-held driver ls os d)) m in
            absurd (
              filled (
                Perm.eq-nil (
                  Perm.symm
                    (subst (λ g. Perm g (rows_for k (rows_held driver ls os))) none_there q))))
      ]

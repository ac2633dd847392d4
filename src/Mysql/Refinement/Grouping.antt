-- ===== src/Mysql/Refinement/Grouping.antt =====
-- The grouping of rows by `push_row` against a filter for each key.
use mathlib.Core.Path.{subst}
use ddd_samples.Prelude.{
  String, str_eq, str_eq_refl, str_eq_ne, str_eq→≡, ◌≡◌, refl, sym, ap, ◌∙◌, true, false,
  Bool-cases, inl, inr, List, [], ◌∷◌, ◌++◌, All, filter_by, filter_by-append, append-nil,
  append_assoc, if◌then◌else◌,
}
use ddd_samples.Mysql.Tables.{JoinedRow}
use ddd_samples.Mysql.Driver.{Driver}
use ddd_samples.Mysql.Orders.{push_row, group_rows}

abbrev pub rows_for : String → List JoinedRow → List JoinedRow
rows_for k = filter_by (λ r. str_eq k r.order.id)

-- The keys, with the rows that have them.
abbrev pub grouped : List String → List JoinedRow → List (String × List JoinedRow)
grouped [] rows = []
grouped (k ∷ ks) rows = (k, rows_for k rows) ∷ grouped ks rows

-- One more key, if it is not there.
abbrev pub add_key : String → List String → List String
add_key k [] = k ∷ []
add_key k (j ∷ js) = if str_eq j k then j ∷ js else j ∷ add_key k js

-- The keys of the rows, in the order in which they come first, after those that are there.
abbrev pub keys : List String → List JoinedRow → List String
keys ks [] = ks
keys ks (r ∷ rs) = keys (add_key r.order.id ks) rs

-- No key twice.
abbrev pub IsDistinct : List String → Type 0
IsDistinct [] = Unit
IsDistinct (k ∷ ks) = All (λ j. str_eq j k ≡ false) ks × IsDistinct ks

module _ (r : JoinedRow) where
  rows_for-same :
      (k : String) (rows : List JoinedRow)
      → str_eq k r.order.id ≡ true
      → rows_for k (rows ++ r ∷ []) ≡ rows_for k rows ++ r ∷ []
  rows_for-same k rows h = filter_by-append (λ r. str_eq k r.order.id) rows (r ∷ []) ∙ rw h refl

  rows_for-other :
      (k : String) (rows : List JoinedRow)
      → str_eq k r.order.id ≡ false
      → rows_for k (rows ++ r ∷ []) ≡ rows_for k rows
  rows_for-other k rows h =
      filter_by-append (λ r. str_eq k r.order.id) rows (r ∷ []) ∙ rw (h, append-nil) refl

  grouped-other :
      (ks : List String) (rows : List JoinedRow)
      → All (λ k. str_eq k r.order.id ≡ false) ks
      → grouped ks (rows ++ r ∷ []) ≡ grouped ks rows
  grouped-other [] rows h = refl
  grouped-other (k ∷ ks) rows h = rw (rows_for-other k rows h.0, grouped-other ks rows h.1) refl

  -- A row goes to the group of its key, or makes a new one.
  push_row-grouped :
      (driver : Driver) (ks : List String) (rows : List JoinedRow)
      → IsDistinct ks
      → (All (λ k. str_eq k r.order.id ≡ false) ks → rows_for r.order.id rows ≡ [])
      → push_row driver r (grouped ks rows) ≡ grouped (add_key r.order.id ks) (rows ++ r ∷ [])
  push_row-grouped driver [] rows d new =
      rw (rows_for-same r.order.id rows (str_eq_refl r.order.id), new tt) refl
  push_row-grouped driver (k ∷ ks) rows d new = elim (Bool-cases (str_eq k r.order.id)) [
    | inl t ↦
        let others = subst (λ i. All (λ j. str_eq j i ≡ false) ks) (str_eq→≡ k r.order.id t) d.0 in
        rw (t, rows_for-same k rows t, grouped-other ks rows others) refl
    | inr f ↦
        rw (f, rows_for-other k rows f)
          (ap (◌∷◌ (k, rows_for k rows)) (push_row-grouped driver ks rows d.1 (λ h. new (f, h))))
  ]

pub str_eq-false_sym : (s t : String) → str_eq s t ≡ false → str_eq t s ≡ false
str_eq-false_sym s t h =
    str_eq_ne t s
      (λ p. let e : true ≡ false = sym (str_eq_refl s) ∙ subst (λ u. str_eq s u ≡ false) p h in cc)

module _ (P : String → Type 0) (k : String) where
  All-add_key : (ks : List String) → P k → All P ks → All P (add_key k ks)
  All-add_key [] p h = (p, tt)
  All-add_key (j ∷ js) p h = elim (Bool-cases (str_eq j k)) [
    | inl t ↦ rw t h
    | inr f ↦ rw f (h.0, All-add_key js p h.1)
  ]

  add_key-All : (ks : List String) → All P (add_key k ks) → P k × All P ks
  add_key-All [] h = h
  add_key-All (j ∷ js) h = elim (Bool-cases (str_eq j k)) [
    | inl t ↦
        let here = subst (λ b. All P (if b then j ∷ js else j ∷ add_key k js)) t h in
        (subst P (str_eq→≡ j k t) here.0, here)
    | inr f ↦
        let there = subst (λ b. All P (if b then j ∷ js else j ∷ add_key k js)) f h in
        let rest = add_key-All js there.1 in (rest.0, (there.0, rest.1))
  ]

-- A key that is added is new, so none is there twice.
add_key-IsDistinct : (k : String) (ks : List String) → IsDistinct ks → IsDistinct (add_key k ks)
add_key-IsDistinct k [] d = (tt, tt)
add_key-IsDistinct k (j ∷ js) d = elim (Bool-cases (str_eq j k)) [
  | inl t ↦ rw t d
  | inr f ↦ rw f (
    All-add_key (λ i. str_eq i j ≡ false) k js (str_eq-false_sym j k f) d.0,
    add_key-IsDistinct k js d.1,
  )
]

-- Every row has its key among those.
abbrev pub Covers : List String → List JoinedRow → Type 0
Covers ks rows = (k : String) → All (λ j. str_eq j k ≡ false) ks → rows_for k rows ≡ []

add_key-Covers :
    (r : JoinedRow) (ks : List String) (before : List JoinedRow)
    → Covers ks before
    → Covers (add_key r.order.id ks) (before ++ r ∷ [])
add_key-Covers r ks before c k h =
    let new = add_key-All (λ j. str_eq j k ≡ false) r.order.id ks h in
    rows_for-other r k before (str_eq-false_sym r.order.id k new.0) ∙ c k new.1

grouped_onto :
    (driver : Driver) (rows before : List JoinedRow) (ks : List String)
    → IsDistinct ks
    → Covers ks before
    → group_rows driver rows (grouped ks before) ≡ grouped (keys ks rows) (before ++ rows)
unfolding group_rows
grouped_onto driver [] before ks d c = rw append-nil refl
grouped_onto driver (r ∷ rs) before ks d c =
    ap (group_rows driver rs) (push_row-grouped r driver ks before d (c r.order.id))
    ∙ grouped_onto driver rs (before ++ r ∷ []) (add_key r.order.id ks)
        (add_key-IsDistinct r.order.id ks d) (add_key-Covers r ks before c)
    ∙ ap (grouped (keys (add_key r.order.id ks) rs)) (append_assoc before (r ∷ []) rs)

keys_onto-IsDistinct :
    (ks : List String) (rows : List JoinedRow) → IsDistinct ks → IsDistinct (keys ks rows)
keys_onto-IsDistinct ks [] d = d
keys_onto-IsDistinct ks (r ∷ rs) d =
    keys_onto-IsDistinct (add_key r.order.id ks) rs (add_key-IsDistinct r.order.id ks d)

-- A key has the rows with it, in their order.
pub group_rows-grouped :
    (driver : Driver) (rows : List JoinedRow)
    → group_rows driver rows [] ≡ grouped (keys [] rows) rows
group_rows-grouped driver rows = grouped_onto driver rows [] [] tt (λ k h. refl)

pub keys-IsDistinct : (rows : List JoinedRow) → IsDistinct (keys [] rows)
keys-IsDistinct rows = keys_onto-IsDistinct [] rows tt

-- A row whose key is not there is in no group.
pub keys-Covers :
    (rows before : List JoinedRow) (ks : List String)
    → Covers ks before
    → Covers (keys ks rows) (before ++ rows)
keys-Covers [] before ks c = rw append-nil c
keys-Covers (r ∷ rs) before ks c =
    subst (Covers (keys (add_key r.order.id ks) rs)) (append_assoc before (r ∷ []) rs)
      (keys-Covers rs (before ++ r ∷ []) (add_key r.order.id ks) (add_key-Covers r ks before c))

-- What holds of the keys of the rows.
pub keys-All :
    (P : String → Type 0) (rows : List JoinedRow) (ks : List String)
    → All P ks
    → All (λ r. P r.order.id) rows
    → All P (keys ks rows)
keys-All P [] ks h g = h
keys-All P (r ∷ rs) ks h g =
    keys-All P rs (add_key r.order.id ks) (All-add_key P r.order.id ks g.0 h) g.1

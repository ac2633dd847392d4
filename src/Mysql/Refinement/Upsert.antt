-- ===== src/Mysql/Refinement/Upsert.antt =====
-- `INSERT … ON DUPLICATE KEY UPDATE` and the rows with one key.
use ddd_samples.Prelude.{
  String, str_eq, str_eq_refl, str_eq→≡, ◌≡◌, refl, false, Bool-cases, inl, inr, List, [], ◌∷◌,
  filter_by, arith,
}
use ddd_samples.Mysql.Tables.{upsert}

module _ {A : Type 0} (key : A → String) (merge : A → A → A)
    (keeps : (old new : A) → key (merge old new) ≡ key new) (new : A) where
  -- Rows with another key are not touched.
  pub upsert_other :
      (k : String) (rows : List A)
      → str_eq (key new) k ≡ false
      → filter_by (λ r. str_eq (key r) k) (upsert key merge new rows)
        ≡ filter_by (λ r. str_eq (key r) k) rows
  upsert_other k [] h = rw h refl
  upsert_other k (old ∷ rows) h = elim (Bool-cases (str_eq (key old) (key new))) [
    | inl t ↦ rw (t, keeps old new, h, str_eq→≡ (key old) (key new) t, h) refl
    | inr f ↦ rw (f, upsert_other k rows h) refl
  ]

  pub upsert_absent :
      (rows : List A)
      → filter_by (λ r. str_eq (key r) (key new)) rows ≡ []
      → filter_by (λ r. str_eq (key r) (key new)) (upsert key merge new rows) ≡ new ∷ []
  upsert_absent [] h = rw (str_eq_refl (key new)) refl
  upsert_absent (old ∷ rows) h = ground (arith, str_eq_refl (key new), upsert_absent rows)

  pub upsert_present :
      (old : A) (rows : List A)
      → filter_by (λ r. str_eq (key r) (key new)) rows ≡ old ∷ []
      → filter_by (λ r. str_eq (key r) (key new)) (upsert key merge new rows) ≡ merge old new ∷ []
  upsert_present old [] h = cc
  upsert_present old (x ∷ rows) h =
      ground (arith, str_eq_refl (key new), keeps x new, upsert_present old rows)

-- ===== src/Prelude/Bags.antt =====
-- Lists up to their order: what filters, maps and predicates on elements have to do with it.
use mathlib.Core.Path.{◌≡◌, refl, sym, subst}
use mathlib.Core.Logic.{inl, inr, ∥∥₁_map}
use mathlib.Core.Bool.{Bool}
use mathlib.Core.List.{List, [], ◌∷◌, map, Perm}
use mathlib.Core.List.{Permᴰ}
use mathlib.Core.List.Permᴰ as PermD
use mathlib.Core.List.Permᴰ.{nil, cons, swap, trans}
use ddd_samples.Prelude.Tests.{Bool-cases}
use ddd_samples.Prelude.Lists.{All, filter_by}

module _ {A : Type 0} where
  filter_by_swap :
      (p : A → Bool) (a b : A) (l : List A)
      → Permᴰ (filter_by p (a ∷ b ∷ l)) (filter_by p (b ∷ a ∷ l))
  filter_by_swap p a b l = elim (Bool-cases (p a)) [
    | inl t ↦ elim (Bool-cases (p b)) [
      | inl u ↦ rw (t, u) (swap refl refl)
      | inr n ↦ rw (t, n) (PermD.refl _)
    ]
    | inr m ↦ elim (Bool-cases (p b)) [
      | inl u ↦ rw (m, u) (PermD.refl _)
      | inr n ↦ rw (m, n) (PermD.refl _)
    ]
  ]

  filter_by_reordered :
      (p : A → Bool) {xs ys : List A} → Permᴰ xs ys → Permᴰ (filter_by p xs) (filter_by p ys)
  filter_by_reordered p nil = nil
  filter_by_reordered p (cons {a} {b} e d) = rw e (elim (Bool-cases (p b)) [
    | inl t ↦ rw t (cons refl (filter_by_reordered p d))
    | inr n ↦ rw n (filter_by_reordered p d)
  ])
  filter_by_reordered p (swap {a} {b} {a'} {b'} {l} e₁ e₂) = rw (e₁, e₂) (filter_by_swap p b' a' l)
  filter_by_reordered p (trans d₁ d₂) = trans (filter_by_reordered p d₁) (filter_by_reordered p d₂)

  pub filter_by-Perm :
      (p : A → Bool) {xs ys : List A} → Perm xs ys → Perm (filter_by p xs) (filter_by p ys)
  filter_by-Perm p {xs} {ys} h =
      ∥∥₁_map {B = Permᴰ (filter_by p xs) (filter_by p ys)} h (filter_by_reordered p)

  pub All_reordered : (P : A → Type 0) {xs ys : List A} → Permᴰ xs ys → All P ys → All P xs
  All_reordered P nil h = tt
  All_reordered P (cons e d) h = (subst P (sym e) h.0, All_reordered P d h.1)
  All_reordered P (swap e₁ e₂) h = (subst P (sym e₁) h.1.0, (subst P (sym e₂) h.0, h.1.1))
  All_reordered P (trans d₁ d₂) h = All_reordered P d₁ (All_reordered P d₂ h)

module _ {A B : Type 0} (f : A → B) where
  -- What a permuted list of images is the list of images of.
  pub map_reordered :
      {xs ws : List B} (ys : List A)
      → Permᴰ xs ws
      → ws ≡ map f ys
      → (zs : List A) × (xs ≡ map f zs) × Permᴰ zs ys
  map_reordered [] nil e = ([], refl, nil)
  map_reordered (y ∷ ys) nil e = cc
  map_reordered [] (cons _ d) e = cc
  map_reordered (y ∷ ys) (cons {a} {b} h d) e =
      let (zs, same, d') = map_reordered ys d cc in (y ∷ zs, cc, cons refl d')
  map_reordered [] (swap _ _) e = cc
  map_reordered (y ∷ []) (swap _ _) e = cc
  map_reordered (y ∷ y' ∷ ys) (swap h₁ h₂) e = (y' ∷ y ∷ ys, cc, swap refl refl)
  map_reordered ys (trans d₁ d₂) e =
      let (zs, same, d) = map_reordered ys d₂ e in
      let (zs', same', d') = map_reordered zs d₁ same in (zs', same', trans d' d)

module _ {A : Type 0} where
  pub empty_reordered : {xs ws : List A} → Permᴰ xs ws → ws ≡ [] → xs ≡ []
  empty_reordered nil e = refl
  empty_reordered (cons h d) e = cc
  empty_reordered (swap h₁ h₂) e = cc
  empty_reordered (trans d₁ d₂) e = empty_reordered d₁ (empty_reordered d₂ e)

  pub single_reordered : {xs ws : List A} {y : A} → Permᴰ xs ws → ws ≡ y ∷ [] → xs ≡ y ∷ []
  single_reordered nil e = cc
  single_reordered (cons h d) e = let rest = empty_reordered d cc in cc
  single_reordered (swap h₁ h₂) e = cc
  single_reordered (trans d₁ d₂) e = single_reordered d₁ (single_reordered d₂ e)

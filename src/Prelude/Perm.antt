-- ===== src/Prelude/Perm.antt =====
-- Two lists with the same members, each as often.
use context.Prelude.{◌≡◌, refl, List, [], ◌∷◌}

pub data Perm {ℓ} {A : Type ℓ} : List A → List A → Type ℓ where
  done : Perm [] []
  cons : {x : A} {xs ys : List A} → Perm xs ys → Perm (x ∷ xs) (x ∷ ys)
  swap : {x y : A} {xs : List A} → Perm (x ∷ y ∷ xs) (y ∷ x ∷ xs)
  trans : {xs ys zs : List A} → Perm xs ys → Perm ys zs → Perm xs zs

module _ {ℓ} {A : Type ℓ} where
  pub perm_refl : (xs : List A) → Perm xs xs
  perm_refl [] = done
  perm_refl (x ∷ xs) = cons (perm_refl xs)

  Perm-nil : {xs ys : List A} → Perm xs ys → xs ≡ [] → ys ≡ []
  Perm-nil done e = refl
  Perm-nil (cons p) e = cc
  Perm-nil swap e = cc
  Perm-nil (trans p q) e = Perm-nil q (Perm-nil p e)

  pub Perm-one : {xs ys : List A} (a : A) → Perm xs ys → xs ≡ a ∷ [] → ys ≡ a ∷ []
  Perm-one a done e = cc
  Perm-one a (cons {x} {xs} {ys} p) e =
      let rest : xs ≡ [] = cc in let none_left = Perm-nil p rest in cc
  Perm-one a swap e = cc
  Perm-one a (trans p q) e = Perm-one a q (Perm-one a p e)

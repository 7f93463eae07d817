-- ===== src/Prelude/Lists.antt =====
-- Lists measured by native numbers, and predicates on their members, under the library's names.
use Prim.Native.Nat.{ℕ, zero, suc, ◌+◌, ◌-◌, min}
use mathlib.Core.Path.{◌≡◌, refl, sym, subst}
use mathlib.Core.List.{List, [], ◌∷◌, ◌++◌, map}
use native.Mathlib.Omega.{arith}

module _ {ℓ} {A : Type ℓ} where
  abbrev pub length : List A → ℕ
  length [] = 0
  length (x ∷ xs) = suc (length xs)

  abbrev pub take : ℕ → List A → List A
  take zero xs = []
  take (suc n) [] = []
  take (suc n) (x ∷ xs) = x ∷ take n xs

  abbrev pub drop : ℕ → List A → List A
  drop zero xs = xs
  drop (suc n) [] = []
  drop (suc n) (x ∷ xs) = drop n xs

  pub length-append : (xs ys : List A) → length (xs ++ ys) ≡ length xs + length ys
  length-append [] ys = omega arith
  length-append (x ∷ xs) ys = omega (arith, length-append xs ys)

module _ {ℓ} {A : Type ℓ} where
  pub take-append-drop : (n : ℕ) (xs : List A) → take n xs ++ drop n xs ≡ xs
  take-append-drop zero xs = refl
  take-append-drop (suc n) [] = refl
  take-append-drop (suc n) (x ∷ xs) = rw (take-append-drop n xs)

  pub length-take : (n : ℕ) (xs : List A) → length (take n xs) ≡ min n (length xs)
  length-take zero xs = omega arith
  length-take (suc n) [] = omega arith
  length-take (suc n) (x ∷ xs) = omega (arith, length-take n xs)

  pub length-drop : (n : ℕ) (xs : List A) → length (drop n xs) ≡ length xs - n
  length-drop zero xs = omega arith
  length-drop (suc n) [] = omega arith
  length-drop (suc n) (x ∷ xs) = omega (arith, length-drop n xs)

-- Every member of a list satisfies a predicate.
abbrev pub All {ℓ κ} : {A : Type ℓ} → (A → Type κ) → List A → Type κ
All P [] = Unit
All P (x ∷ xs) = P x × All P xs

module _ {ℓ κ} {A : Type ℓ} (P : A → Type κ) where
  pub All-append : (xs ys : List A) → All P xs → All P ys → All P (xs ++ ys)
  All-append [] ys h k = k
  All-append (x ∷ xs) ys h k = (h.0, All-append xs ys h.1 k)

  pub All-take : (n : ℕ) (xs : List A) → All P xs → All P (take n xs)
  All-take zero xs h = tt
  All-take (suc n) [] h = tt
  All-take (suc n) (x ∷ xs) h = (h.0, All-take n xs h.1)

  pub All-map {ι} :
      {B : Type ι} (f : B → A) (xs : List B) → All (λ x. P (f x)) xs → All P (map f xs)
  All-map f [] h = tt
  All-map f (x ∷ xs) h = (h.0, All-map f xs h.1)

module _ {ℓ κ ι} {A : Type ℓ} (P : A → Type κ) (Q : A → Type ι) where
  pub All-imp : ((x : A) → P x → Q x) → (xs : List A) → All P xs → All Q xs
  All-imp f [] h = tt
  All-imp f (x ∷ xs) h = (f x h.0, All-imp f xs h.1)

-- Two lists of one length, of which the members at each place are related.
abbrev pub All2 {ℓ κ} : {A : Type ℓ} {B : Type κ} → (A → B → Type 0) → List A → List B → Type 0
All2 R [] [] = Unit
All2 R [] (y ∷ ys) = ⊥
All2 R (x ∷ xs) [] = ⊥
All2 R (x ∷ xs) (y ∷ ys) = R x y × All2 R xs ys

-- A member of a list, with its position kept.
pub data Member {ℓ} {A : Type ℓ} (x : A) : List A → Type ℓ where
  here : {y : A} {xs : List A} → x ≡ y → Member x (y ∷ xs)
  there : {y : A} {xs : List A} → Member x xs → Member x (y ∷ xs)

module _ {ℓ} {A : Type ℓ} where
  pub Member-append_left : {x : A} (xs ys : List A) → Member x xs → Member x (xs ++ ys)
  Member-append_left [] ys m = elim m [ ]
  Member-append_left (y ∷ xs) ys (here e) = here e
  Member-append_left (y ∷ xs) ys (there m) = there (Member-append_left xs ys m)

  pub Member-append_right : {x : A} (xs ys : List A) → Member x ys → Member x (xs ++ ys)
  Member-append_right [] ys m = m
  Member-append_right (y ∷ xs) ys m = there (Member-append_right xs ys m)

module _ {ℓ κ} {A : Type ℓ} (P : A → Type κ) where
  pub All-get : (x : A) (xs : List A) → All P xs → Member x xs → P x
  All-get x [] h m = elim m [ ]
  All-get x (y ∷ xs) h (here e) = subst P (sym e) h.0
  All-get x (y ∷ xs) h (there m) = All-get x xs h.1 m

  pub All-of_members : (xs : List A) → ((x : A) → Member x xs → P x) → All P xs
  All-of_members [] f = tt
  All-of_members (x ∷ xs) f = (f x (here refl), All-of_members xs (λ y m. f y (there m)))

module _ {ℓ κ} {A : Type ℓ} {B : Type κ} (R : A → B → Type 0) where
  pub All2-get :
      (x : A) (xs : List A) (ys : List B)
      → All2 R xs ys
      → Member x xs
      → (y : B) × Member y ys × R x y
  All2-get x [] ys h m = elim m [ ]
  All2-get x (z ∷ xs) [] h m = elim h [ ]
  All2-get x (z ∷ xs) (y ∷ ys) h (here e) = (y, here refl, subst (λ (a : A). R a y) (sym e) h.0)
  All2-get x (z ∷ xs) (y ∷ ys) h (there m) =
      let (w, k, r) = All2-get x xs ys h.1 m in (w, there k, r)

  pub length-All2 : (xs : List A) (ys : List B) → All2 R xs ys → length ys ≡ length xs
  length-All2 [] [] h = refl
  length-All2 [] (y ∷ ys) h = elim h [ ]
  length-All2 (x ∷ xs) [] h = elim h [ ]
  length-All2 (x ∷ xs) (y ∷ ys) h = omega (arith, length-All2 xs ys h.1)

-- A subsequence: members may be left out, and the order stays.
pub data Subseq {ℓ} {A : Type ℓ} : List A → List A → Type ℓ where
  done : {ys : List A} → Subseq [] ys
  keep : {x y : A} {xs ys : List A} → x ≡ y → Subseq xs ys → Subseq (x ∷ xs) (y ∷ ys)
  skip : {y : A} {xs ys : List A} → Subseq xs ys → Subseq xs (y ∷ ys)

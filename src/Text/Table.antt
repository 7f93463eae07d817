-- ===== src/Text/Table.antt =====
-- Go maps with text keys, as association lists in the order of iteration.
use context.Prelude.{
  suc, ◌≤◌, ◌≡◌, refl, sym, ap₂, List, [], ◌∷◌, true, if◌then◌else◌, Option, none, some, arith,
  length, Bool-cases, inl, inr, All,
}
use mathlib.Core.Path.{subst}
use context.Text.{Text, text_eq}
use context.Text.Words.{text_eq_iff}

abbrev pub Table {ℓ} : Type ℓ → Type ℓ
Table V = List (Text × V)

module _ {ℓ} {V : Type ℓ} where
  unfoldable pub get : Text → Table V → Option V
  get k [] = none
  get k ((j, v) ∷ t) = if text_eq j k then some v else get k t

  unfoldable pub put : Text → V → Table V → Table V
  put k v [] = (k, v) ∷ []
  put k v ((j, w) ∷ t) = if text_eq j k then (j, v) ∷ t else (j, w) ∷ put k v t

  unfoldable pub remove : Text → Table V → Table V
  remove k [] = []
  remove k ((j, w) ∷ t) = let rest = remove k t in if text_eq j k then rest else (j, w) ∷ rest

  -- No key comes twice.
  abbrev pub IsTable : Table V → Type ℓ
  IsTable [] = Unit
  IsTable ((k, v) ∷ t) = (get k t ≡ none) × IsTable t

  pub get-put :
      (k j : Text) (v : V) (t : Table V)
      → get j (put k v t) ≡ (if text_eq k j then some v else get j t)
  unfolding get put
  get-put k j v [] = refl
  get-put k j v ((i, w) ∷ t) =
      ground (arith, text_eq_iff i k, text_eq_iff i j, text_eq_iff k j, get-put k j v t)

  pub get-remove :
      (k j : Text) (t : Table V) → get j (remove k t) ≡ (if text_eq k j then none else get j t)
  unfolding get remove
  get-remove k j [] = ground arith
  get-remove k j ((i, w) ∷ t) =
      ground (arith, text_eq_iff i k, text_eq_iff i j, text_eq_iff k j, get-remove k j t)

  pub put-IsTable : (k : Text) (v : V) (t : Table V) → IsTable t → IsTable (put k v t)
  unfolding put get
  put-IsTable k v [] h = (refl, tt)
  put-IsTable k v ((j, w) ∷ t) h = elim (Bool-cases (text_eq j k)) [
    | inl e ↦ rw e (h.0, h.1)
    | inr e ↦ rw e (
      ground (arith, get-put k j v t, text_eq_iff j k, text_eq_iff k j, h.0),
      put-IsTable k v t h.1,
    )
  ]

  pub remove-IsTable : (k : Text) (t : Table V) → IsTable t → IsTable (remove k t)
  unfolding remove
  remove-IsTable k [] h = tt
  remove-IsTable k ((j, w) ∷ t) h = elim (Bool-cases (text_eq j k)) [
    | inl e ↦ rw e (remove-IsTable k t h.1)
    | inr e ↦ rw e (ground (arith, get-remove k j t, h.0), remove-IsTable k t h.1)
  ]

  pub length-put_new :
      (k : Text) (v : V) (t : Table V) → get k t ≡ none → length (put k v t) ≡ suc (length t)
  unfolding get put
  length-put_new k v [] h = refl
  length-put_new k v ((j, w) ∷ t) h = ground (arith, length-put_new k v t)

  pub length-put_old :
      (k : Text) (v w : V) (t : Table V) → get k t ≡ some w → length (put k v t) ≡ length t
  unfolding get put
  length-put_old k v w [] h = cc
  length-put_old k v w ((j, x) ∷ t) h = ground (arith, length-put_old k v w t)

  pub length-remove-le : (k : Text) (t : Table V) → length (remove k t) ≤ length t
  unfolding remove
  length-remove-le k [] = omega arith
  length-remove-le k ((j, w) ∷ t) = ground (arith, length-remove-le k t)

  pub length-remove :
      (k : Text) (v : V) (t : Table V) → get k t ≡ some v → suc (length (remove k t)) ≤ length t
  unfolding get remove
  length-remove k v [] h = cc
  length-remove k v ((j, w) ∷ t) h = ground (arith, length-remove k v t, length-remove-le k t)

  pub get_head : (k j : Text) (v : V) (t : Table V) → k ≡ j → get k ((j, v) ∷ t) ≡ some v
  unfolding get
  get_head k j v t e = rw ((text_eq_iff j k).1 (sym e))

  pub get_tail :
      (k j : Text) (v w : V) (t : Table V)
      → get j t ≡ none
      → get k t ≡ some w
      → get k ((j, v) ∷ t) ≡ some w
  unfolding get
  get_tail k j v w t h e = ground (arith, text_eq_iff j k)

  -- What holds of every entry is kept by an insertion of such an entry, and by a removal.
  module _ {κ} (P : Text × V → Type κ) where
    pub put-All :
        (k : Text) (v : V) (t : Table V)
        → ((j : Text) → text_eq j k ≡ true → P (j, v))
        → P (k, v)
        → All P t
        → All P (put k v t)
    unfolding put
    put-All k v [] f p h = (p, tt)
    put-All k v ((j, w) ∷ t) f p h = elim (Bool-cases (text_eq j k)) [
      | inl e ↦ rw e (f j e, h.1)
      | inr e ↦ rw e (h.0, put-All k v t f p h.1)
    ]

    pub remove-All : (k : Text) (t : Table V) → All P t → All P (remove k t)
    unfolding remove
    remove-All k [] h = tt
    remove-All k ((j, w) ∷ t) h = elim (Bool-cases (text_eq j k)) [
      | inl e ↦ rw e (remove-All k t h.1)
      | inr e ↦ rw e (h.0, remove-All k t h.1)
    ]

    pub get-All : (k : Text) (v : V) (t : Table V) → All P t → get k t ≡ some v → P (k, v)
    unfolding get
    get-All k v [] h e = cc
    get-All k v ((j, w) ∷ t) h e = elim (Bool-cases (text_eq j k)) [
      | inl x ↦ subst P (ap₂ (λ a b. (a, b)) ((text_eq_iff j k).0 x) (some_eq (rw x at e))) h.0
      | inr x ↦ get-All k v t h.1 (rw x at e)
    ]
      where
        some_eq : some w ≡ some v → w ≡ v
        some_eq q = cc

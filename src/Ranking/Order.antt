-- ===== src/Ranking/Order.antt =====
-- The page of results: in order, no longer than asked for, and the same however the candidates
-- arrive.
use context.Prelude.{
  ℕ, zero, suc, ◌≤◌, ◌≡◌, ◌≢◌, All-imp, All-take, refl, sym, ap, ◌∙◌, List, [], ◌∷◌, true, false,
  not, ltb, ◌==◌, ◌&&◌, length, take, map, arith, All, Bool-cases, inl, inr, length-take,
  if◌then◌else◌,
}
use context.Prelude.Perm.{Perm, done, cons, swap, trans, perm_refl}
use context.Ranking.{Floats, Candidate, before, insert, sort, scored, rank_results_at}

-- float64 without NaN is a linear order: a number says where a value stands in it.
pub record IsOrdered (F : Floats) : Type 0 where
  pub place : F.Float → ℕ
  pub gt_place : (a b : F.Float) → F.gt a b ≡ ltb (place b) (place a)
  pub differ_place : (a b : F.Float) → F.differ a b ≡ not (place a == place b)

module _ (F : Floats) (o : IsOrdered F) where
  before_flip : (a b : Candidate F) → a.id ≢ b.id → before F b a ≡ not (before F a b)
  unfolding before
  before_flip a b h = ground (
    arith,
    o.gt_place a.score b.score,
    o.gt_place b.score a.score,
    o.differ_place a.score b.score,
    o.differ_place b.score a.score,
    h,
  )

  before_trans :
      (a b c : Candidate F) → before F a b ≡ true → before F b c ≡ true → before F a c ≡ true
  unfolding before
  before_trans a b c h k = ground (
    arith,
    o.gt_place a.score b.score,
    o.gt_place b.score c.score,
    o.gt_place a.score c.score,
    o.differ_place a.score b.score,
    o.differ_place b.score c.score,
    o.differ_place a.score c.score,
  )

  -- What comes before `y` but not before `x` leaves `x` before `y`.
  before_split :
      (x y z : Candidate F) → before F z y ≡ true → before F z x ≡ false → before F x y ≡ true
  unfolding before
  before_split x y z h k = ground (
    arith,
    o.gt_place z.score y.score,
    o.gt_place z.score x.score,
    o.gt_place x.score y.score,
    o.differ_place z.score y.score,
    o.differ_place z.score x.score,
    o.differ_place x.score y.score,
  )

  insert_comm :
      (x y : Candidate F) (l : List (Candidate F))
      → x.id ≢ y.id
      → insert F x (insert F y l) ≡ insert F y (insert F x l)
  unfolding insert
  insert_comm x y [] h = ground (arith, before_flip x y h)
  insert_comm x y (z ∷ l) h = elim (Bool-cases (before F z y)) [
    | inl zy ↦ (elim (Bool-cases (before F z x)) [
      | inl zx ↦ let ih = insert_comm x y l h in ground (arith, zy, zx, ih)
      | inr zx ↦ let xy = before_split x y z zy zx in ground (arith, zy, zx, xy)
    ])
    | inr zy ↦ (elim (Bool-cases (before F z x)) [
      | inl zx ↦ let yx = before_split y x z zx zy in ground (arith, zy, zx, yx)
      | inr zx ↦ ground (arith, zy, zx, before_flip x y h)
    ])
  ]

  abbrev Apart : List (Candidate F) → Type 0
  Apart [] = Unit
  Apart (x ∷ xs) = All (λ y. x.id ≢ y.id) xs × Apart xs

  Perm-All :
      (P : Candidate F → Type 0) {xs ys : List (Candidate F)} → Perm xs ys → All P xs → All P ys
  Perm-All P done h = h
  Perm-All P (cons p) h = (h.0, Perm-All P p h.1)
  Perm-All P swap h = (h.1.0, (h.0, h.1.1))
  Perm-All P (trans p q) h = Perm-All P q (Perm-All P p h)

  Perm-Apart : {xs ys : List (Candidate F)} → Perm xs ys → Apart xs → Apart ys
  Perm-Apart done h = h
  Perm-Apart (cons p) h = (Perm-All _ p h.0, Perm-Apart p h.1)
  Perm-Apart swap h = (((λ e. h.0.0 (sym e)), h.1.0), (h.0.1, h.1.1))
  Perm-Apart (trans p q) h = Perm-Apart q (Perm-Apart p h)

  sort-Perm :
      (now : ℕ) {xs ys : List (Candidate F)}
      → Perm xs ys
      → Apart xs
      → sort F (map (scored F now) xs) ≡ sort F (map (scored F now) ys)
  unfolding sort scored
  sort-Perm now done h = refl
  sort-Perm now (cons p) h = ap (insert F _) (sort-Perm now p h.1)
  sort-Perm now swap h = insert_comm _ _ _ h.0.0
  sort-Perm now (trans p q) h = sort-Perm now p h ∙ sort-Perm now q (Perm-Apart p h)

  -- The page does not depend on the order in which the candidates arrive, if float64 without NaN is
  -- a linear order and no two candidates have one id.
  pub rank_results_at-Perm :
      (xs ys : List (Candidate F)) (top_k now : ℕ)
      → Perm xs ys
      → Apart xs
      → rank_results_at F xs top_k now ≡ rank_results_at F ys top_k now
  unfolding rank_results_at
  rank_results_at-Perm xs ys top_k now p h = rw (sort-Perm now p h) refl

  -- None of the rest comes before the first.
  abbrev pub Sorted : List (Candidate F) → Type 0
  Sorted [] = Unit
  Sorted (x ∷ xs) = All (λ y. before F y x ≡ false) xs × Sorted xs

  before_asym : (x y : Candidate F) → before F y x ≡ true → before F x y ≡ false
  unfolding before
  before_asym x y h = ground (
    arith,
    o.gt_place x.score y.score,
    o.gt_place y.score x.score,
    o.differ_place x.score y.score,
    o.differ_place y.score x.score,
  )

  before_chain :
      (x y z : Candidate F) → before F z y ≡ false → before F y x ≡ false → before F z x ≡ false
  unfolding before
  before_chain x y z h k = ground (
    arith,
    o.gt_place z.score y.score,
    o.gt_place y.score x.score,
    o.gt_place z.score x.score,
    o.differ_place z.score y.score,
    o.differ_place y.score x.score,
    o.differ_place z.score x.score,
  )

  insert-All :
      (P : Candidate F → Type 0) (x : Candidate F) (l : List (Candidate F))
      → P x
      → All P l
      → All P (insert F x l)
  unfolding insert
  insert-All P x [] p h = (p, tt)
  insert-All P x (y ∷ l) p h = elim (Bool-cases (before F y x)) [
    | inl e ↦ rw e (h.0, insert-All P x l p h.1)
    | inr e ↦ rw e (p, h)
  ]

  insert-Sorted : (x : Candidate F) (l : List (Candidate F)) → Sorted l → Sorted (insert F x l)
  unfolding insert
  insert-Sorted x [] h = (tt, tt)
  insert-Sorted x (y ∷ l) h = elim (Bool-cases (before F y x)) [
    | inl e ↦ rw e (insert-All _ x l (before_asym x y e) h.0, insert-Sorted x l h.1)
    | inr e ↦ rw e ((e, All-imp _ _ (λ z k. before_chain x y z k e) l h.0), h)
  ]

  sort-Sorted : (l : List (Candidate F)) → Sorted (sort F l)
  unfolding sort
  sort-Sorted [] = tt
  sort-Sorted (x ∷ l) = insert-Sorted x (sort F l) (sort-Sorted l)

  take-Sorted : (n : ℕ) (l : List (Candidate F)) → Sorted l → Sorted (take n l)
  take-Sorted zero l h = tt
  take-Sorted (suc n) [] h = tt
  take-Sorted (suc n) (x ∷ l) h = (All-take _ n l h.0, take-Sorted n l h.1)

  insert-Perm : (x : Candidate F) (l : List (Candidate F)) → Perm (x ∷ l) (insert F x l)
  unfolding insert
  insert-Perm x [] = perm_refl (x ∷ [])
  insert-Perm x (y ∷ l) =
      let rest = trans swap (cons (insert-Perm x l)) in
      elim (Bool-cases (before F y x)) [ inl e ↦ rw e rest | inr e ↦ rw e (perm_refl (x ∷ y ∷ l)) ]

  sort_lem : (l : List (Candidate F)) → Perm l (sort F l)
  unfolding sort
  sort_lem [] = done
  sort_lem (x ∷ l) = trans (cons (sort_lem l)) (insert-Perm x (sort F l))

  Perm-length : {xs ys : List (Candidate F)} → Perm xs ys → length ys ≡ length xs
  Perm-length done = refl
  Perm-length (cons p) = ap suc (Perm-length p)
  Perm-length swap = refl
  Perm-length (trans p q) = Perm-length q ∙ Perm-length p

  length-scored : (now : ℕ) (xs : List (Candidate F)) → length (map (scored F now) xs) ≡ length xs
  length-scored now [] = refl
  length-scored now (x ∷ xs) = ap suc (length-scored now xs)

  -- A page is the beginning of an ordering of all the candidates, each with its score: all of it, or
  -- as many as asked for if that is a positive number below theirs.
  pub record IsPage (xs : List (Candidate F)) (top_k now : ℕ) (page : List (Candidate F))
      : Type 0 where
    pub ordering : List (Candidate F)
    pub members : Perm (map (scored F now) xs) ordering
    pub ordered : Sorted ordering
    pub beginning :
        page ≡ (if ltb 0 top_k && ltb top_k (length xs) then take top_k ordering else ordering)

  -- If float64 without NaN is a linear order, the page is the beginning of the candidates with their
  -- scores, by falling score and then by rising id: all of them, or as many as asked for if that is a
  -- positive number below theirs.
  pub rank_results_at-IsPage :
      (xs : List (Candidate F)) (top_k now : ℕ)
      → IsPage xs top_k now (rank_results_at F xs top_k now)
  unfolding rank_results_at
  rank_results_at-IsPage xs top_k now =
      let p = sort_lem (map (scored F now) xs) in
      record {
        ordering = sort F (map (scored F now) xs);
        members = p;
        ordered = sort-Sorted (map (scored F now) xs);
        beginning = rw (Perm-length p ∙ length-scored now xs) refl;
      }

  pub IsPage-Sorted :
      (xs : List (Candidate F)) (top_k now : ℕ) (page : List (Candidate F))
      → IsPage xs top_k now page
      → Sorted page × (1 ≤ top_k → length page ≤ top_k)
  IsPage-Sorted xs top_k now page h =
      let long = Perm-length h.members ∙ length-scored now xs in
      elim (Bool-cases (ltb 0 top_k && ltb top_k (length xs))) [
        | inl e ↦
            rw (h.beginning, e)
              (
                take-Sorted top_k h.ordering h.ordered,
                λ p. omega (arith, length-take top_k h.ordering),
              )
        | inr e ↦ rw (h.beginning, e) (h.ordered, λ p. ground (arith, e, p, long))
      ]

-- ===== src/Extraction/Contradiction/Overlap.antt =====
-- The overlap of two texts is a share, and it is the same from either side.
use context.Prelude.{
  ◌+◌, ◌≤◌, ◌<◌, ◌≡◌, refl, List, [], ◌∷◌, Bool, true, false, if◌then◌else◌, length, arith,
  Bool-cases, inl, inr,
}
use context.Text.{Text, Unicode, text_mem, fields}
use context.Text.Words.{text_eq_iff}
use context.Extraction.Contradiction.Words.{
  insert, significant_from, significant_words, count_in, keyword_overlap, jaccard,
}

-- No text comes twice.
abbrev IsWordSet : List Text → Type 0
IsWordSet [] = Unit
IsWordSet (t ∷ ts) = (text_mem t ts ≡ false) × IsWordSet ts

insert-IsWordSet : (t : Text) (ts : List Text) → IsWordSet ts → IsWordSet (insert t ts)
insert-IsWordSet t ts h = elim (Bool-cases (text_mem t ts)) [ inl e ↦ rw e h | inr e ↦ rw e (e, h) ]

if_IsWordSet :
    (b : Bool) (x y : List Text) → IsWordSet x → IsWordSet y → IsWordSet (if b then x else y)
if_IsWordSet true x y h k = h
if_IsWordSet false x y h k = k

significant_from-IsWordSet : (ws : List Text) → IsWordSet (significant_from ws)
unfolding significant_from
significant_from-IsWordSet [] = tt
significant_from-IsWordSet (w ∷ ws) =
    let later = significant_from-IsWordSet ws in
    if_IsWordSet _ _ _ (insert-IsWordSet _ _ later) later

count_in-le : (xs bs : List Text) → count_in xs bs ≤ length xs
unfolding count_in
count_in-le [] bs = omega arith
count_in-le (t ∷ xs) bs = ground (arith, count_in-le xs bs)

-- A text more on the right is counted if it stands on the left.
count_in-cons :
    (xs : List Text) (t : Text) (bs : List Text)
    → IsWordSet xs
    → text_mem t bs ≡ false
    → count_in xs (t ∷ bs) ≡ count_in xs bs + count_in (t ∷ []) xs
unfolding count_in text_mem
count_in-cons [] t bs h n = omega arith
count_in-cons (a ∷ xs) t bs h n =
    ground (arith, count_in-cons xs t bs h.1 n, text_eq_iff a t, text_eq_iff t a)

count_in_comm : (xs bs : List Text) → IsWordSet xs → IsWordSet bs → count_in xs bs ≡ count_in bs xs
unfolding count_in text_mem
count_in_comm xs [] h k = count_in_nil xs
  where
    count_in_nil : (ys : List Text) → count_in ys [] ≡ 0
    count_in_nil [] = refl
    count_in_nil (y ∷ ys) = omega (arith, count_in_nil ys)
count_in_comm xs (b ∷ bs) h k =
    omega (arith, count_in-cons xs b bs h k.0, count_in_comm xs bs h k.1)

jaccard_comm : (xs ys : List Text) → IsWordSet xs → IsWordSet ys → jaccard xs ys ≡ jaccard ys xs
unfolding jaccard
jaccard_comm [] [] h k = refl
jaccard_comm [] (y ∷ ys) h k = refl
jaccard_comm (x ∷ xs) [] h k = refl
jaccard_comm (x ∷ xs) (y ∷ ys) h k =
    let counts = count_in_comm (x ∷ xs) (y ∷ ys) h k in
    let lengths : length (x ∷ xs) + length (y ∷ ys) ≡ length (y ∷ ys) + length (x ∷ xs) =
      omega arith in
    cc

jaccard_bound :
    (xs ys : List Text)
    → IsWordSet xs
    → IsWordSet ys
    → ((jaccard xs ys).0 ≤ (jaccard xs ys).1) × (0 < (jaccard xs ys).1)
unfolding jaccard
jaccard_bound xs ys h k =
    ground (arith, count_in-le xs ys, count_in-le ys xs, count_in_comm xs ys h k)

significant_words-IsWordSet : (u : Unicode) (t : Text) → IsWordSet (significant_words u t)
unfolding significant_words
significant_words-IsWordSet u t = significant_from-IsWordSet (fields u.is_space t)

-- The overlap of two texts is a share between 0 and 1, its denominator is not 0, and it is the same
-- from either side.
keyword_overlap_comm :
    (u : Unicode) (a b : Text)
    → (keyword_overlap u a b ≡ keyword_overlap u b a)
      × ((keyword_overlap u a b).0 ≤ (keyword_overlap u a b).1)
      × (0 < (keyword_overlap u a b).1)
unfolding keyword_overlap
keyword_overlap_comm u a b =
    let as_set = significant_words-IsWordSet u a in
    let bs_set = significant_words-IsWordSet u b in
    let (le, pos) = jaccard_bound _ _ as_set bs_set in (jaccard_comm _ _ as_set bs_set, le, pos)

-- ===== src/Text/Words.antt =====
-- Equality of texts, and the words that `fields` and `trim` make.
use context.Prelude.{
  ℕ, ◌≡◌, refl, ◌↔◌, inl, inr, List, [], ◌∷◌, Bool, true, false, arith, All, Bool-cases,
}
use context.Text.{
  Text, text_eq, is_empty, trim, trim_left, trim_right, cons_unless, starts_word, glue, fields,
}

text_eq→eq : (s t : Text) → text_eq s t ≡ true → s ≡ t
unfolding text_eq
text_eq→eq [] [] h = refl
text_eq→eq (c ∷ s) (d ∷ t) h = ground (arith, text_eq→eq s t)
text_eq→eq [] (d ∷ t) h = cc
text_eq→eq (c ∷ s) [] h = cc

pub text_eq_refl : (s : Text) → text_eq s s ≡ true
unfolding text_eq
text_eq_refl [] = refl
text_eq_refl (c ∷ s) = ground (arith, text_eq_refl s)

pub text_eq_iff : (s t : Text) → (text_eq s t ≡ true) ↔ (s ≡ t)
text_eq_iff s t = (text_eq→eq s t, λ e. rw e (text_eq_refl t))

-- No character of the text passes the test.
abbrev pub Free : (ℕ → Bool) → Text → Type 0
Free p = All (λ c. p c ≡ false)

-- A word: not empty, and no space in it.
pub record IsWord (space : ℕ → Bool) (w : Text) : Type 0 where
  pub filled : is_empty w ≡ false
  pub free : Free space w

glue-IsWord :
    (space : ℕ → Bool) (b : Bool) (c : ℕ) (ws : List Text)
    → space c ≡ false
    → All (IsWord space) ws
    → All (IsWord space) (glue b c ws)
unfolding is_empty
glue-IsWord space true c (w ∷ ws) h k = (record { filled = refl; free = (h, k.0.free) }, k.1)
glue-IsWord space true c [] h k = (record { filled = refl; free = (h, tt) }, tt)
glue-IsWord space false c ws h k = (record { filled = refl; free = (h, tt) }, k)

pub fields-IsWord : (space : ℕ → Bool) (s : Text) → All (IsWord space) (fields space s)
unfolding fields
fields-IsWord space [] = tt
fields-IsWord space (c ∷ s) = elim (Bool-cases (space c)) [
  | inl e ↦ rw e (fields-IsWord space s)
  | inr e ↦
      rw e (glue-IsWord space (starts_word space s) c (fields space s) e (fields-IsWord space s))
]

-- Whatever holds of each character of a text holds of each character of its trimming.
module _ {ℓ} (P : ℕ → Type ℓ) (cut : ℕ → Bool) where
  trim_left-All : (s : Text) → All P s → All P (trim_left cut s)
  unfolding trim_left
  trim_left-All [] h = tt
  trim_left-All (c ∷ s) h = elim (Bool-cases (cut c)) [
    | inl e ↦ rw e (trim_left-All s h.1)
    | inr e ↦ rw e h
  ]

  cons_unless-All : (b : Bool) (c : ℕ) (s : Text) → P c → All P s → All P (cons_unless b c s)
  cons_unless-All b c (d ∷ s) h k = (h, k)
  cons_unless-All true c [] h k = tt
  cons_unless-All false c [] h k = (h, tt)

  trim_right-All : (s : Text) → All P s → All P (trim_right cut s)
  unfolding trim_right
  trim_right-All [] h = tt
  trim_right-All (c ∷ s) h = cons_unless-All (cut c) c (trim_right cut s) h.0 (trim_right-All s h.1)

  pub trim-All : (s : Text) → All P s → All P (trim cut s)
  unfolding trim
  trim-All s h = trim_left-All (trim_right cut s) (trim_right-All s h)

module _ (cut : ℕ → Bool) where
  trim_left_idem : (s : Text) → trim_left cut (trim_left cut s) ≡ trim_left cut s
  unfolding trim_left
  trim_left_idem [] = refl
  trim_left_idem (c ∷ s) = elim (Bool-cases (cut c)) [
    | inl e ↦ rw e (trim_left_idem s)
    | inr e ↦ rw e (rw e refl)
  ]

  cons_unless_idem :
      (c : ℕ) (s : Text)
      → trim_right cut s ≡ s
      → trim_right cut (cons_unless (cut c) c s) ≡ cons_unless (cut c) c s
  unfolding trim_right
  cons_unless_idem c [] h = elim (Bool-cases (cut c)) [ inl e ↦ rw e | inr e ↦ rw e (rw e refl) ]
  cons_unless_idem c (d ∷ s) h = rw h

  trim_right_idem : (s : Text) → trim_right cut (trim_right cut s) ≡ trim_right cut s
  unfolding trim_right
  trim_right_idem [] = refl
  trim_right_idem (c ∷ s) = cons_unless_idem c (trim_right cut s) (trim_right_idem s)

  -- A text that keeps its right end keeps it when its left end goes.
  tail_fixed : (c : ℕ) (s : Text) → trim_right cut (c ∷ s) ≡ c ∷ s → trim_right cut s ≡ s
  unfolding trim_right
  tail_fixed c s h = go (cut c) (trim_right cut s) h
    where
      go : (b : Bool) (r : Text) → cons_unless b c r ≡ c ∷ s → r ≡ s
      go b (d ∷ r) e = cc
      go true [] e = cc
      go false [] e = cc

  trim_left_fixed :
      (s : Text) → trim_right cut s ≡ s → trim_right cut (trim_left cut s) ≡ trim_left cut s
  unfolding trim_left
  trim_left_fixed [] h = h
  trim_left_fixed (c ∷ s) h = elim (Bool-cases (cut c)) [
    | inl e ↦ rw e (trim_left_fixed s (tail_fixed c s h))
    | inr e ↦ rw e h
  ]

  pub trim_idem : (s : Text) → trim cut (trim cut s) ≡ trim cut s
  unfolding trim
  trim_idem s =
      rw (trim_left_fixed (trim_right cut s) (trim_right_idem s))
        (trim_left_idem (trim_right cut s))

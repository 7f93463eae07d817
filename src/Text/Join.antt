-- ===== src/Text/Join.antt =====
-- `fields` undoes `join` on words, also where the characters are mapped on the way.
use context.Prelude.{
  ℕ, ◌≡◌, refl, ap, List, [], ◌∷◌, ◌++◌, Bool, true, false, map, ◌∙◌, All, inl, inr, sym,
  Bool-cases,
}
use mathlib.Core.Path.{subst}
use mathlib.Core.List.{append-nil}
use context.Text.{Text, is_empty, starts_word, glue, fields, join}
use context.Text.Words.{Free, IsWord}

module _ (space : ℕ → Bool) where
  fields_space : (c : ℕ) (s : Text) → space c ≡ true → fields space (c ∷ s) ≡ fields space s
  unfolding fields
  fields_space c s h = rw h

  fields_step :
      (c : ℕ) (s : Text)
      → space c ≡ false
      → fields space (c ∷ s) ≡ glue (starts_word space s) c (fields space s)
  unfolding fields
  fields_step c s h = rw h

  -- A word before a text that starts no word.
  fields_word :
      (c : ℕ) (w r : Text)
      → Free space (c ∷ w)
      → starts_word space r ≡ false
      → fields space ((c ∷ w) ++ r) ≡ (c ∷ w) ∷ fields space r
  fields_word c [] r h k = rw (fields_step c r h.0) (rw k)
  fields_word c (d ∷ w) r h k =
      rw (fields_step c ((d ∷ w) ++ r) h.0) (rw (fields_word d w r h.1 k) (rw h.1.0))

  fields_words :
      (w r : Text)
      → IsWord space w
      → starts_word space r ≡ false
      → fields space (w ++ r) ≡ w ∷ fields space r
  unfolding is_empty
  fields_words [] r h k = cc (h.filled)
  fields_words (c ∷ w) r h k = fields_word c w r h.free k

  -- The words of a joined text are those that were joined.
  pub fields-join :
      (sep : ℕ) (ws : List Text)
      → space sep ≡ true
      → All (IsWord space) ws
      → fields space (join (sep ∷ []) ws) ≡ ws
  unfolding join
  fields-join sep [] h k = unfold fields in refl
  fields-join sep (w ∷ []) h k =
      subst (λ t. fields space t ≡ w ∷ []) (append-nil w)
        (fields_words w [] k.0 refl ∙ (unfold fields in refl))
  fields-join sep (w ∷ v ∷ ws) h k =
      rw (fields_words w (sep ∷ join (sep ∷ []) (v ∷ ws)) k.0 (rw h)) (
        ap (◌∷◌ w) (fields_space sep (join (sep ∷ []) (v ∷ ws)) h ∙ fields-join sep (v ∷ ws) h k.1))

-- Mapping the characters commutes with `fields` where it keeps the spaces.
module _ (space : ℕ → Bool) (f : ℕ → ℕ) (keeps : (c : ℕ) → space (f c) ≡ space c) where
  map-glue :
      (b : Bool) (c : ℕ) (ws : List Text)
      → map (map f) (glue b c ws) ≡ glue b (f c) (map (map f) ws)
  map-glue true c (w ∷ ws) = refl
  map-glue true c [] = refl
  map-glue false c ws = refl

  starts_word-map : (s : Text) → starts_word space (map f s) ≡ starts_word space s
  starts_word-map [] = refl
  starts_word-map (c ∷ s) = rw keeps

  pub fields-map : (s : Text) → fields space (map f s) ≡ map (map f) (fields space s)
  unfolding fields
  fields-map [] = refl
  fields-map (c ∷ s) = elim (Bool-cases (space c)) [
    | inl e ↦ rw (keeps, e) (fields-map s)
    | inr e ↦
        rw (keeps, e, starts_word-map, fields-map s)
          (sym (map-glue (starts_word space s) c (fields space s)))
  ]

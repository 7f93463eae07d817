-- ===== src/Model/Content/Tokens.antt =====
-- The tokens are a normal form: words with nothing to trim, which tokenize to themselves.
use context.Prelude.{
  ℕ, ◌≡◌, refl, ap, ap₂, List, [], ◌∷◌, Bool, map, inl, inr, All, All-imp, Bool-cases,
}
use context.Text.{Text, Unicode, IsUnicode, is_empty, to_lower, trim, fields, join, in_cutset}
use context.Text.Words.{IsWord, fields-IsWord, trim-All, trim_idem}
use context.Text.Join.{fields-join, fields-map}
use context.Model.Content.{content_tokens, trim_tokens, edge_punctuation}

abbrev pub cut : ℕ → Bool
cut = in_cutset edge_punctuation

-- A token: a word that is trimmed.
pub record IsToken (space : ℕ → Bool) (t : Text) : Type 0 where
  pub word : IsWord space t
  pub trimmed : trim cut t ≡ t

pub trim_tokens-IsToken :
    (space : ℕ → Bool) (ws : List Text)
    → All (IsWord space) ws
    → All (IsToken space) (trim_tokens ws)
unfolding trim_tokens
trim_tokens-IsToken space [] h = tt
trim_tokens-IsToken space (w ∷ ws) h = elim (Bool-cases (is_empty (trim cut w))) [
  | inl e ↦ rw e (trim_tokens-IsToken space ws h.1)
  | inr e ↦ rw e (
    record {
      word = record { filled = e; free = trim-All _ cut w h.0.free };
      trimmed = trim_idem cut w;
    },
    trim_tokens-IsToken space ws h.1,
  )
]

-- What holds of each character of the words holds of each character of their tokens.
trim_tokens-All : (P : ℕ → Type 0) (ws : List Text) → All (All P) ws → All (All P) (trim_tokens ws)
unfolding trim_tokens
trim_tokens-All P [] h = tt
trim_tokens-All P (w ∷ ws) h = elim (Bool-cases (is_empty (trim cut w))) [
  | inl e ↦ rw e (trim_tokens-All P ws h.1)
  | inr e ↦ rw e (trim-All P cut w h.0, trim_tokens-All P ws h.1)
]

-- Tokens stay as they are.
trim_tokens_fixed :
    (space : ℕ → Bool) (ts : List Text) → All (IsToken space) ts → trim_tokens ts ≡ ts
unfolding trim_tokens
trim_tokens_fixed space [] h = refl
trim_tokens_fixed space (t ∷ ts) h =
    rw (h.0.trimmed, h.0.word.filled) (ap (◌∷◌ t) (trim_tokens_fixed space ts h.1))

map_fixed : (f : ℕ → ℕ) (s : Text) → All (λ c. f c ≡ c) s → map f s ≡ s
map_fixed f [] h = refl
map_fixed f (c ∷ s) h = ap₂ ◌∷◌ h.0 (map_fixed f s h.1)

map-map_fixed : (f : ℕ → ℕ) (ws : List Text) → All (All (λ c. f c ≡ c)) ws → map (map f) ws ≡ ws
map-map_fixed f [] h = refl
map-map_fixed f (w ∷ ws) h = ap₂ ◌∷◌ (map_fixed f w h.0) (map-map_fixed f ws h.1)

lowered : (f : ℕ → ℕ) → ((c : ℕ) → f (f c) ≡ f c) → (s : Text) → All (λ c. f c ≡ c) (map f s)
lowered f h [] = tt
lowered f h (c ∷ s) = (h c, lowered f h s)

lowered_words :
    (f : ℕ → ℕ)
    → ((c : ℕ) → f (f c) ≡ f c)
    → (ws : List Text) → All (All (λ c. f c ≡ c)) (map (map f) ws)
lowered_words f h [] = tt
lowered_words f h (w ∷ ws) = (lowered f h w, lowered_words f h ws)

module _ (u : Unicode) where
  pub content_tokens-IsToken : (text : Text) → All (IsToken u.is_space) (content_tokens u text)
  unfolding content_tokens
  content_tokens-IsToken text = trim_tokens-IsToken u.is_space _ (fields-IsWord u.is_space _)

  -- In every token each character is in lower case.
  content_tokens_lowered :
      (h : IsUnicode u) (text : Text) → All (All (λ c. u.to_lower c ≡ c)) (content_tokens u text)
  unfolding content_tokens to_lower
  content_tokens_lowered h text = trim_tokens-All _ _ (
      rw (fields-map u.is_space u.to_lower h.lower_space text)
        (lowered_words u.to_lower h.lower_idem (fields u.is_space text)))

  tokens-join :
      (h : IsUnicode u) (ts : List Text)
      → All (IsToken u.is_space) ts
      → All (All (λ c. u.to_lower c ≡ c)) ts
      → content_tokens u (join (32 ∷ []) ts) ≡ ts
  unfolding content_tokens to_lower
  tokens-join h ts k l =
      rw
        (
          fields-map u.is_space u.to_lower h.lower_space (join (32 ∷ []) ts),
          fields-join u.is_space 32 ts h.space_is_space
              (All-imp _ _ (λ t (x : IsToken u.is_space t). x.word) ts k),
          map-map_fixed u.to_lower ts l,
        )
        (trim_tokens_fixed u.is_space ts k)

  -- Joined by single spaces, the tokens of a text tokenize to themselves.
  pub content_tokens-join :
      (h : IsUnicode u) (text : Text)
      → content_tokens u (join (32 ∷ []) (content_tokens u text)) ≡ content_tokens u text
  content_tokens-join h text =
      tokens-join h (content_tokens u text) (content_tokens-IsToken text)
        (content_tokens_lowered h text)

-- ===== src/Model/Content/Hash.antt =====
-- The fingerprint has the shape that the Cypher guard admits, and stands for the tokens.
use context.Prelude.{
  ℕ, ◌*◌, ◌/◌, ◌%◌, ◌<◌, ◌≡◌, ◌≢◌, ◌↔◌, refl, sym, ap, ap₂, ◌∙◌, List, [], ◌∷◌, Bool, true, inl,
  inr, All, All-imp, All-take, Bool-cases, arith, length, length-take, take,
}
use context.Text.{Text, Unicode, is_empty, fields, join}
use context.Text.Join.{fields-join}
use context.Model.Content.{
  content_tokens, content_hash, hex_digit, hex_encode, is_hash_char, all_hash_chars,
  is_content_hash,
}
use context.Model.Content.Tokens.{IsToken, content_tokens-IsToken}

-- What the program relies on of SHA-256: 32 bytes.
pub record IsDigest (digest : Text → List ℕ) : Type 0 where
  pub bytes : (t : Text) → All (λ b. b < 256) (digest t)
  pub width : (t : Text) → length (digest t) ≡ 32

hex_digit-is_hash_char : (n : ℕ) → n < 16 → is_hash_char (hex_digit n) ≡ true
unfolding is_hash_char hex_digit
hex_digit-is_hash_char n h = ground arith

hex_encode-all_hash_chars :
    (bs : List ℕ) → All (λ b. b < 256) bs → all_hash_chars (hex_encode bs) ≡ true
unfolding all_hash_chars hex_encode
hex_encode-all_hash_chars [] h = refl
hex_encode-all_hash_chars (b ∷ bs) h =
    rw
      (hex_digit-is_hash_char (b / 16) (omega arith), hex_digit-is_hash_char (b % 16) (omega arith))
      (hex_encode-all_hash_chars bs h.1)

length-hex_encode : (bs : List ℕ) → length (hex_encode bs) ≡ 2 * length bs
unfolding hex_encode
length-hex_encode [] = omega arith
length-hex_encode (b ∷ bs) = omega (arith, length-hex_encode bs)

hex_digit-injective : (m n : ℕ) → m < 16 → n < 16 → hex_digit m ≡ hex_digit n → m ≡ n
unfolding hex_digit
hex_digit-injective m n h k e = ground arith

hex_encode-injective :
    (bs cs : List ℕ)
    → All (λ b. b < 256) bs
    → All (λ b. b < 256) cs
    → hex_encode bs ≡ hex_encode cs
    → bs ≡ cs
unfolding hex_encode
hex_encode-injective [] [] h k e = refl
hex_encode-injective [] (c ∷ cs) h k e = cc
hex_encode-injective (b ∷ bs) [] h k e = cc
hex_encode-injective (b ∷ bs) (c ∷ cs) h k e =
    let high : b / 16 ≡ c / 16 = hex_digit-injective _ _ (omega arith) (omega arith) (cc) in
    let low : b % 16 ≡ c % 16 = hex_digit-injective _ _ (omega arith) (omega arith) (cc) in
    ap₂ ◌∷◌ (omega arith) (hex_encode-injective bs cs h.1 k.1 (cc))

-- The text that is hashed.
abbrev pub normal : Unicode → Text → Text
normal u text = join (32 ∷ []) (content_tokens u text)

normal-injective :
    (u : Unicode) (a b : Text)
    → u.is_space 32 ≡ true
    → normal u a ≡ normal u b
    → content_tokens u a ≡ content_tokens u b
normal-injective u a b h e = sym (words a) ∙ ap (fields u.is_space) e ∙ words b
  where
    words : (t : Text) → fields u.is_space (normal u t) ≡ content_tokens u t
    words t =
        fields-join u.is_space 32 (content_tokens u t) h
          (All-imp _ _ (λ w (x : IsToken u.is_space w). x.word) _ (content_tokens-IsToken u t))

-- A joined list of tokens is empty only if there are none.
tokens_of_empty :
    (space : ℕ → Bool) (ts : List Text)
    → All (IsToken space) ts
    → is_empty (join (32 ∷ []) ts) ≡ true
    → ts ≡ []
unfolding is_empty join
tokens_of_empty space [] k e = refl
tokens_of_empty space ([] ∷ ts) k e = cc (k.0.word.filled)
tokens_of_empty space ((c ∷ t) ∷ []) k e = cc
tokens_of_empty space ((c ∷ t) ∷ (w ∷ ts)) k e = cc

empty-eq : (s t : Text) → is_empty s ≡ true → is_empty t ≡ true → s ≡ t
unfolding is_empty
empty-eq [] [] h k = refl
empty-eq [] (c ∷ t) h k = cc
empty-eq (c ∷ s) t h k = cc

module _ (u : Unicode) (digest : Text → List ℕ) (d : IsDigest digest) where
  abbrev prefix : Text → List ℕ
  prefix t = take 16 (digest t)

  prefix_bytes : (t : Text) → All (λ b. b < 256) (prefix t)
  prefix_bytes t = All-take _ 16 (digest t) (d.bytes t)

  length-hash : (t : Text) → length (hex_encode (prefix t)) ≡ 32
  length-hash t = omega (arith, length-hex_encode (prefix t), length-take 16 (digest t), d.width t)

  hash_filled : (t : Text) → hex_encode (prefix t) ≢ []
  hash_filled t e = absurd (omega (arith, length-hash t, ap (length {0}) e))

  -- A content with a token has a fingerprint that the guard admits.
  pub content_hash-is_content_hash :
      (content : Text)
      → content_tokens u content ≢ []
      → is_content_hash (content_hash u digest content) ≡ true
  unfolding content_hash is_content_hash
  content_hash-is_content_hash content h = elim (Bool-cases (is_empty (normal u content))) [
    | inl e ↦ absurd (h (tokens_of_empty u.is_space _ (content_tokens-IsToken u content) e))
    | inr e ↦
        rw (e, length-hash (normal u content))
          (hex_encode-all_hash_chars (prefix (normal u content)) (prefix_bytes (normal u content)))
  ]

  hash-eq :
      (a b : Text)
      → (prefix (normal u a) ≡ prefix (normal u b) → normal u a ≡ normal u b)
      → content_hash u digest a ≡ content_hash u digest b
      → normal u a ≡ normal u b
  unfolding content_hash
  hash-eq a b free e = elim (Bool-cases (is_empty (normal u a))) [
    | inl x ↦ elim (Bool-cases (is_empty (normal u b))) [
      | inl y ↦ empty-eq _ _ x y
      | inr y ↦ absurd (hash_filled (normal u b) (sym (rw (x, y) at e)))
    ]
    | inr x ↦ elim (Bool-cases (is_empty (normal u b))) [
      | inl y ↦ absurd (hash_filled (normal u a) (rw (x, y) at e))
      | inr y ↦ free (
          hex_encode-injective _ _ (prefix_bytes (normal u a)) (prefix_bytes (normal u b))
            (rw (x, y) at e))
    ]
  ]

  -- Two contents have one fingerprint exactly when they have the same tokens, if the truncated
  -- digest does not collide on the two normal forms.
  pub content_hash-eq_iff :
      (a b : Text)
      → u.is_space 32 ≡ true
      → (prefix (normal u a) ≡ prefix (normal u b) → normal u a ≡ normal u b)
      → (content_hash u digest a ≡ content_hash u digest b)
        ↔ (content_tokens u a ≡ content_tokens u b)
  content_hash-eq_iff a b s free =
      (λ e. normal-injective u a b s (hash-eq a b free e), λ e. unfold content_hash in rw e refl)

-- ===== src/Auth/Keys/Wire.antt =====
-- A key is read back from its wire form, and nothing else is read.
use context.Prelude.{
  ℕ, suc, ◌≡◌, refl, ap, ap₂, ◌↔◌, List, [], ◌∷◌, ◌++◌, true, false, ◌==◌, Option, none, some,
  arith, All, inl, inr, Bool-cases, ==_iff, ==_refl, ◌<◌, length,
}
use mathlib.Core.Path.{subst}
use context.Text.{Text, text_eq, is_empty}
use context.Text.Words.{Free, text_eq_iff}
use context.Model.Content.{hex_encode, hex_digit}
use context.Auth.Keys.{
  Key, key_string, key_prefix, cut_at, split_n, key_of_parts, parse_key, generate_key, key,
  id_bytes, secret_bytes,
}

-- A key whose parts the wire form tells apart.
pub record IsIssued (k : Key) : Type 0 where
  pub named : is_empty k.id ≡ false
  pub separable : Free (λ c. c == b'_') k.id
  pub filled : is_empty k.secret ≡ false

-- The parts of a cut, for its equations.
abbrev or_pair : Option (Text × Text) → Text × Text
or_pair none = ([], [])
or_pair (some p) = p

cut_at-append :
    (sep : ℕ) (a b : Text) → Free (λ c. c == sep) a → cut_at sep (a ++ (sep ∷ b)) ≡ some (a, b)
unfolding cut_at
cut_at-append sep [] b h = rw (==_refl sep)
cut_at-append sep (c ∷ a) b h = rw (h.0, cut_at-append sep a b h.1)

cut_at-eq_some :
    (sep : ℕ) (s a b : Text)
    → cut_at sep s ≡ some (a, b)
    → (s ≡ a ++ (sep ∷ b)) × Free (λ c. c == sep) a
unfolding cut_at
cut_at-eq_some sep [] a b e = cc
cut_at-eq_some sep (c ∷ s) a b e = elim (Bool-cases (c == sep)) [
  | inl same ↦ at_head ((==_iff c sep).0 same) (rw same at e)
  | inr other ↦ behind other (cut_at sep s) (λ x y. cut_at-eq_some sep s x y) (rw other at e)
]
  where
    at_head :
        c ≡ sep
        → ◌≡◌ {A = Option (Text × Text)} (some ([], s)) (some (a, b))
        → (c ∷ s ≡ a ++ (sep ∷ b)) × Free (λ d. d == sep) a
    at_head p q =
        let x : ◌≡◌ {A = Text} [] a = ap (λ o. (or_pair o).0) q in
        let y : ◌≡◌ {A = Text} s b = ap (λ o. (or_pair o).1) q in
        subst (λ (t : Text). (c ∷ s ≡ t ++ (sep ∷ b)) × Free (λ d. d == sep) t) x (ap₂ ◌∷◌ p y, tt)

    behind :
        (c == sep) ≡ false
        → (o : Option (Text × Text))
        → ((x y : Text)
            → ◌≡◌ {A = Option (Text × Text)} o (some (x, y))
            → (s ≡ x ++ (sep ∷ y)) × Free (λ d. d == sep) x)
        → ◌≡◌ {A = Option (Text × Text)}
            (elim o [ none ↦ none | some (x, y) ↦ some (c ∷ x, y) ])
            (some (a, b))
        → (c ∷ s ≡ a ++ (sep ∷ b)) × Free (λ d. d == sep) a
    behind h none ih q = cc
    behind h (some (x, y)) ih q =
        let (p, f) = ih x y refl in
        let z : c ∷ x ≡ a = ap (λ o. (or_pair o).0) q in
        let w : y ≡ b = ap (λ o. (or_pair o).1) q in
        subst (λ (t : Text). (c ∷ s ≡ t ++ (sep ∷ b)) × Free (λ d. d == sep) t) z
          (ap (◌∷◌ c) (rw (← w) p), (h, f))

split_n_found :
    (n sep : ℕ) (s a b : Text)
    → cut_at sep s ≡ some (a, b)
    → split_n (suc (suc n)) sep s ≡ a ∷ split_n (suc n) sep b
unfolding split_n
split_n_found n sep s a b e = rw (e, split_n)

split_n_missed : (n sep : ℕ) (s : Text) → cut_at sep s ≡ none → split_n (suc (suc n)) sep s ≡ s ∷ []
unfolding split_n
split_n_missed n sep s e = rw (e, split_n)

key_of_parts_lem :
    (p i t : Text) (k : Key)
    → key_of_parts (p ∷ i ∷ t ∷ []) ≡ some k
    → (p ≡ key_prefix)
      × (is_empty i ≡ false)
      × (is_empty t ≡ false)
      × (k ≡ record { id = i; secret = t })
unfolding key_of_parts
key_of_parts_lem p i t k e =
    let h : (text_eq p key_prefix ≡ true)
        × (is_empty i ≡ false)
        × (is_empty t ≡ false)
        × (k ≡ record { id = i; secret = t }) =
      ground arith in
    ((text_eq_iff p key_prefix).0 h.0, h.1, h.2, h.3)

parse_key_sound : (s : Text) (k : Key) → parse_key s ≡ some k → IsIssued k × (s ≡ key_string k)
unfolding parse_key key_string
parse_key_sound s k e = first (cut_at b'_' s) refl
  where
    Goal : Type 0
    Goal = IsIssued k × (s ≡ key_string k)

    second :
        (p r : Text)
        → cut_at b'_' s ≡ some (p, r)
        → (o : Option (Text × Text)) → cut_at b'_' r ≡ o
        → Goal
    second p r h none g = cc (rw (split_n_found 1 b'_' s p r h, split_n_missed 0 b'_' r g) at e)
    second p r h (some (i, t)) g =
        let parts =
          key_of_parts_lem p i t k
            (rw (split_n_found 1 b'_' s p r h, split_n_found 0 b'_' r i t g) at e) in
        let (x, _) = cut_at-eq_some b'_' s p r h in
        let (y, free) = cut_at-eq_some b'_' r i t g in
        rw (parts.3)
          (record { named = parts.1; separable = free; filled = parts.2 }, rw (x, y, parts.0) refl)

    first : (o : Option (Text × Text)) → cut_at b'_' s ≡ o → Goal
    first none h = cc (rw (split_n_missed 1 b'_' s h) at e)
    first (some (p, r)) h = second p r h (cut_at b'_' r) refl

parse_key-key_string : (k : Key) → IsIssued k → parse_key (key_string k) ≡ some k
unfolding parse_key key_string key_of_parts text_eq
parse_key-key_string k h =
    rw
      (
        split_n_found 1 b'_' (key_string k) key_prefix (k.id ++ (b'_' ∷ k.secret))
            (cut_at-append b'_' key_prefix _ (refl, (refl, (refl, (refl, tt))))),
        split_n_found 0 b'_' (k.id ++ (b'_' ∷ k.secret)) k.id k.secret
            (cut_at-append b'_' k.id k.secret h.separable),
      )
      (rw (h.named, h.filled) refl)

-- A text is read as a key exactly when it is the wire form of that key, whose id is not empty and
-- has no separator in it, and whose secret is not empty.
pub parse_key-eq_some_iff :
    (s : Text) (k : Key) → (parse_key s ≡ some k) ↔ (IsIssued k × (s ≡ key_string k))
parse_key-eq_some_iff s k = (parse_key_sound s k, λ (h, e). rw e (parse_key-key_string k h))

hex-Free : (bs : List ℕ) → All (λ b. b < 256) bs → Free (λ c. c == b'_') (hex_encode bs)
unfolding hex_encode hex_digit
hex-Free [] h = tt
hex-Free (b ∷ bs) h = (ground arith, (ground arith, hex-Free bs h.1))

hex_filled : (bs : List ℕ) → 0 < length bs → is_empty (hex_encode bs) ≡ false
unfolding hex_encode is_empty
hex_filled [] h = absurd (omega arith)
hex_filled (b ∷ bs) h = refl

-- A minted key is issued, so its wire form is read back as that key: given that a read of six bytes
-- returns that many bytes, and that no encoding of the bytes of a secret is empty.
pub generate_key-parse_key :
    (read : ℕ → ℕ → Option (List ℕ)) (encode : List ℕ → Text) (k : Key)
    → ((i n : ℕ) (bs : List ℕ) → read i n ≡ some bs → (length bs ≡ n) × All (λ b. b < 256) bs)
    → ((bs : List ℕ) → length bs ≡ secret_bytes → is_empty (encode bs) ≡ false)
    → generate_key read encode ≡ key k
    → parse_key (key_string k) ≡ some k
unfolding generate_key
generate_key-parse_key read encode k reads encodes e = first (read 0 id_bytes) refl
  where
    second :
        (id : List ℕ)
        → read 0 id_bytes ≡ some id
        → (o : Option (List ℕ)) → read 1 secret_bytes ≡ o
        → parse_key (key_string k) ≡ some k
    second id p none q = cc (rw (p, q, generate_key) at e)
    second id p (some secret) q =
        let made : record { id = hex_encode id; secret = encode secret } ≡ k =
          cc (rw (p, q, generate_key) at e) in
        parse_key-key_string k (
          rw (← made) (record {
            named = hex_filled id (omega (arith, (reads 0 id_bytes id p).0));
            separable = hex-Free id (reads 0 id_bytes id p).1;
            filled = encodes secret (reads 1 secret_bytes secret q).0;
          }))

    first : (o : Option (List ℕ)) → read 0 id_bytes ≡ o → parse_key (key_string k) ≡ some k
    first none p = cc (rw (p, generate_key) at e)
    first (some id) p = second id p (read 1 secret_bytes) refl

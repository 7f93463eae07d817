-- ===== src/Graph/Literals/Inline.antt =====
-- What is inlined cannot end its literal.
use mathlib.Core.Path.{subst}
use context.Prelude.{
  ℕ, suc, ◌≡◌, ◌≢◌, ◌⊎◌, refl, sym, ◌∙◌, ap, List, [], ◌∷◌, ◌++◌, append_assoc, append-nil, Bool,
  true, false, Bool-cases, inl, inr, arith, All, Member, here, there, map, Result, ok, failed, ◌==◌,
  if◌then◌else◌,
}
use context.Text.{Text, codes, join, is_empty}
use context.Model.Content.{is_hash_char, all_hash_chars, is_content_hash}
use context.Ingest.Duplicates.{quoted_hash, literals_from, close_list, content_hash_literal_list}
use context.Graph.Literals.{
  is_uuid_char, all_uuid_chars, is_plain_uuid, uuid_literals_from, id_texts, uuid_literal_list,
}

-- No quote, backslash, dollar sign or brace.
abbrev pub Inert : Text → Type 0
Inert t = All (λ c. (c ≢ b'\'') × (c ≢ b'\\') × (c ≢ b'$') × (c ≢ b'{') × (c ≢ b'}')) t

abbrev pub quote : Text → Text
quote t = codes "'" ++ (t ++ codes "'")

abbrev pub bracketed : List Text → Text
bracketed ts = codes "[" ++ (join (codes ",") (map quote ts) ++ codes "]")

all_uuid_chars-Inert : (t : Text) → all_uuid_chars t ≡ true → Inert t
unfolding all_uuid_chars is_uuid_char
all_uuid_chars-Inert [] h = tt
all_uuid_chars-Inert (c ∷ t) h = (
  (
    λ e. ground (arith, e, h),
    λ e. ground (arith, e, h),
    λ e. ground (arith, e, h),
    λ e. ground (arith, e, h),
    λ e. ground (arith, e, h),
  ),
  all_uuid_chars-Inert t (ground (arith, h)),
)

all_hash_chars-Inert : (t : Text) → all_hash_chars t ≡ true → Inert t
unfolding all_hash_chars is_hash_char
all_hash_chars-Inert [] h = tt
all_hash_chars-Inert (c ∷ t) h = (
  (
    λ e. ground (arith, e, h),
    λ e. ground (arith, e, h),
    λ e. ground (arith, e, h),
    λ e. ground (arith, e, h),
    λ e. ground (arith, e, h),
  ),
  all_hash_chars-Inert t (ground (arith, h)),
)

is_plain_uuid-Inert : (t : Text) → is_plain_uuid t ≡ true → Inert t
unfolding is_plain_uuid
is_plain_uuid-Inert t h = all_uuid_chars-Inert t (ground (arith, h))

is_content_hash-Inert : (t : Text) → is_content_hash t ≡ true → Inert t
unfolding is_content_hash
is_content_hash-Inert t h = all_hash_chars-Inert t (ground (arith, h))

-- What is written after the first literal.
abbrev tail_of : List Text → Text
tail_of [] = []
tail_of (t ∷ ts) = codes "," ++ (quote t ++ tail_of ts)

join-tail_of :
    (t : Text) (ts : List Text) → join (codes ",") (map quote (t ∷ ts)) ≡ quote t ++ tail_of ts
unfolding join
join-tail_of t [] = sym (append-nil (quote t))
join-tail_of t (s ∷ ts) = rw (join-tail_of s ts) refl

bracketed-tail_of :
    (t : Text) (ts : List Text)
    → (codes "[" ++ quote t) ++ (tail_of ts ++ codes "]") ≡ bracketed (t ∷ ts)
bracketed-tail_of t ts =
    rw (join-tail_of t ts, append_assoc (quote t) (tail_of ts) (codes "]")) refl

one_more :
    (b t : Text) (ts : List Text)
    → (b ++ (codes "," ++ quote t)) ++ (tail_of ts ++ codes "]")
      ≡ b ++ (tail_of (t ∷ ts) ++ codes "]")
one_more b t ts =
    append_assoc b (codes "," ++ quote t) (tail_of ts ++ codes "]")
    ∙ ap (λ x. b ++ (codes "," ++ x)) (sym (append_assoc (quote t) (tail_of ts) (codes "]")))

suc_positive : (n : ℕ) → (suc n == 0) ≡ false
suc_positive n = ground arith

-- The list has all the texts, none of which can end its literal, or one of them is refused.
abbrev pub Written : (Text → Bool) → Text → List Text → Result Text Text → Type 0
Written guard out ts r =
    (All Inert ts × (r ≡ ok out)) ⊎ ((t : Text) × Member t ts × (guard t ≡ false) × (r ≡ failed t))

Written-more :
    (guard : Text → Bool) (out t : Text) (ts : List Text) (r : Result Text Text)
    → Inert t
    → Written guard out ts r
    → Written guard out (t ∷ ts) r
Written-more guard out t ts r h (inl (all, e)) = inl ((h, all), e)
Written-more guard out t ts r h (inr (s, m, g, e)) = inr (s, there m, g, e)

uuid_literals_from-Written :
    (b : Text) (i : ℕ) (ts : List Text)
    → Written is_plain_uuid (b ++ (tail_of ts ++ codes "]")) ts (uuid_literals_from b (suc i) ts)
unfolding uuid_literals_from
uuid_literals_from-Written b i [] = inl (tt, refl)
uuid_literals_from-Written b i (t ∷ ts) =
    let b' = b ++ (codes "," ++ quote t) in
    let rest = uuid_literals_from-Written b' (suc i) ts in
    elim (Bool-cases (is_plain_uuid t)) [
      | inl e ↦
          rw (e, suc_positive i)
            (subst
              (λ out. Written is_plain_uuid out (t ∷ ts) (uuid_literals_from b' (suc (suc i)) ts))
              (one_more b t ts)
              (Written-more is_plain_uuid _ t ts _ (is_plain_uuid-Inert t e) rest))
      | inr e ↦ rw e (inr (t, here refl, e, refl))
    ]

-- The hashes that are not empty.
abbrev pub filled : List Text → List Text
filled [] = []
filled (h ∷ hs) = let rest = filled hs in if is_empty h then rest else h ∷ rest

abbrev Counted : Text → ℕ → List Text → Result Text (Text × ℕ) → Type 0
Counted b n hs r =
    (All Inert (filled hs) × (m : ℕ) × (r ≡ ok (b ++ tail_of (filled hs), suc m)))
    ⊎ ((t : Text) × Member t (filled hs) × (is_content_hash t ≡ false) × (r ≡ failed t))

literals_from-Counted :
    (b : Text) (n : ℕ) (hs : List Text) → Counted b (suc n) hs (literals_from b (suc n) hs)
unfolding literals_from quoted_hash
literals_from-Counted b n [] = inl (tt, n, ap (λ x. ok (x, suc n)) (sym (append-nil b)))
literals_from-Counted b n (h ∷ hs) =
    let b' = b ++ (codes "," ++ quote h) in
    let skipped = literals_from-Counted b n hs in
    let written = literals_from-Counted b' (suc n) hs in
    elim (Bool-cases (is_empty h)) [
      | inl e ↦ rw e skipped
      | inr e ↦ (elim (Bool-cases (is_content_hash h)) [
        | inl g ↦
            rw (e, g, suc_positive n)
              (elim written [
                | inl (all, m, r) ↦ inl (
                  (is_content_hash-Inert h g, all),
                  m,
                  r
                      ∙ ap (λ x. ok (x, suc m))
                          (append_assoc b (codes "," ++ quote h) (tail_of (filled hs))),
                )
                | inr (t, m, f, r) ↦ inr (t, there m, f, r)
              ])
        | inr g ↦ rw (e, g) (inr (h, here refl, g, refl))
      ])
    ]

-- The text of a list of hashes: nothing if there is none.
abbrev pub hash_list : List Text → Text
hash_list [] = []
hash_list (h ∷ hs) = bracketed (h ∷ hs)

content_hash_literal_list-Written :
    (hs : List Text)
    → Written is_content_hash (hash_list (filled hs)) (filled hs) (content_hash_literal_list hs)
unfolding content_hash_literal_list literals_from close_list quoted_hash
content_hash_literal_list-Written [] = inl (tt, refl)
content_hash_literal_list-Written (h ∷ hs) =
    let rest = content_hash_literal_list-Written hs in
    let written = literals_from-Counted (codes "[" ++ quote h) 0 hs in
    elim (Bool-cases (is_empty h)) [
      | inl e ↦ rw e rest
      | inr e ↦ (elim (Bool-cases (is_content_hash h)) [
        | inl g ↦
            rw (e, g)
              (elim written [
                | inl (all, m, r) ↦ inl (
                  (is_content_hash-Inert h g, all),
                  rw (r, suc_positive m)
                      (ap ok (
                        append_assoc (codes "[" ++ quote h) (tail_of (filled hs)) (codes "]")
                        ∙ bracketed-tail_of h (filled hs))),
                )
                | inr (t, m, f, r) ↦ rw (r, close_list) (inr (t, there m, f, refl))
              ])
        | inr g ↦ rw (e, g) (inr (h, here refl, g, refl))
      ])
    ]

uuid_literal_list-Written :
    (id_text : ℕ → Text) (ids : List ℕ)
    → Written is_plain_uuid
        (bracketed (id_texts id_text ids))
        (id_texts id_text ids)
        (uuid_literal_list id_text ids)
unfolding uuid_literal_list uuid_literals_from id_texts
uuid_literal_list-Written id_text [] = unfold join in inl (tt, refl)
uuid_literal_list-Written id_text (i ∷ ids) =
    let t = id_text i in
    let ts = id_texts id_text ids in
    let rest = uuid_literals_from-Written (codes "[" ++ quote t) 0 ts in
    elim (Bool-cases (is_plain_uuid t)) [
      | inl e ↦ rw e (
          subst
            (λ out.
              Written is_plain_uuid out (t ∷ ts) (uuid_literals_from (codes "[" ++ quote t) 1 ts))
            (bracketed-tail_of t ts)
            (Written-more is_plain_uuid _ t ts _ (is_plain_uuid-Inert t e) rest))
      | inr e ↦ rw e (inr (t, here refl, e, refl))
    ]

-- What is written into a query in place of a parameter is the bracketed list of all the ids, or of
-- all the hashes that are not empty, each in single quotes and without a quote, a backslash, a dollar
-- sign or a brace; or one of them that fails the guard is refused, and nothing is written.
pub literal_lists-Written :
    (id_text : ℕ → Text) (ids : List ℕ) (hashes : List Text)
    → Written is_plain_uuid
        (bracketed (id_texts id_text ids))
        (id_texts id_text ids)
        (uuid_literal_list id_text ids)
      × Written is_content_hash
          (hash_list (filled hashes))
          (filled hashes)
          (content_hash_literal_list hashes)
literal_lists-Written id_text ids hashes =
    (uuid_literal_list-Written id_text ids, content_hash_literal_list-Written hashes)

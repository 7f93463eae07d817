-- ===== src/Extraction/Dedup/Tags.antt =====
-- `union_tags` keeps every tag of both lists up to case and surrounding space, and each once.
use context.Prelude.{
  ◌≡◌, refl, sym, ap, List, [], ◌∷◌, ◌++◌, true, false, arith, Member, here, there, inl, inr,
  Bool-cases, ◌⊎◌, ◌||◌, map, Member-append_left, Member-append_right,
}
use mathlib.Core.Bool.{false≢true}
use context.Text.{Text, Unicode, text_eq, text_mem, is_empty}
use context.Text.Words.{text_eq_iff}
use context.Extraction.Dedup.{tag_key, unseen_tags, union_tags}

-- Some tag of the list has the key.
abbrev pub HasKey : Unicode → Text → List Text → Type 0
HasKey u key ts = (t : Text) × Member t ts × (tag_key u t ≡ key)

HasKey-there :
    (u : Unicode) (key t : Text) (ts : List Text) → HasKey u key ts → HasKey u key (t ∷ ts)
HasKey-there u key t ts (s, m, e) = (s, there m, e)

seen_or_there :
    (u : Unicode) (key t : Text) (seen out : List Text)
    → (text_mem key (tag_key u t ∷ seen) ≡ true) ⊎ HasKey u key out
    → (text_mem key seen ≡ true) ⊎ HasKey u key (t ∷ out)
unfolding text_mem
seen_or_there u key t seen out (inr h) = inr (HasKey-there u key t out h)
seen_or_there u key t seen out (inl h) = elim (Bool-cases (text_eq key (tag_key u t))) [
  | inl e ↦ inr (t, here refl, sym ((text_eq_iff _ _).0 e))
  | inr e ↦ inl (rw e at h)
]

-- A tag with a key is among the seen or among what comes out.
unseen_tags_complete :
    (u : Unicode) (seen ts : List Text) (t : Text)
    → Member t ts
    → is_empty (tag_key u t) ≡ false
    → (text_mem (tag_key u t) seen ≡ true) ⊎ HasKey u (tag_key u t) (unseen_tags u seen ts)
unfolding unseen_tags
unseen_tags_complete u seen [] t m h = elim m [ ]
unseen_tags_complete u seen (s ∷ ts) t (here e) h =
    elim (Bool-cases (is_empty (tag_key u s) || text_mem (tag_key u s) seen)) [
      | inl skipped ↦ inl (ground (arith, ap (tag_key u) e))
      | inr fresh ↦ rw fresh (inr (s, here refl, ap (tag_key u) (sym e)))
    ]
unseen_tags_complete u seen (s ∷ ts) t (there m) h =
    elim (Bool-cases (is_empty (tag_key u s) || text_mem (tag_key u s) seen)) [
      | inl skipped ↦ rw skipped (unseen_tags_complete u seen ts t m h)
      | inr fresh ↦ rw fresh (
          seen_or_there u (tag_key u t) s seen _
            (unseen_tags_complete u (tag_key u s ∷ seen) ts t m h))
    ]

-- Every tag of either list whose key is not empty has its key in the union.
pub union_tags-HasKey :
    (u : Unicode) (a b : List Text) (t : Text)
    → Member t a ⊎ Member t b
    → is_empty (tag_key u t) ≡ false
    → HasKey u (tag_key u t) (union_tags u a b)
unfolding union_tags text_mem
union_tags-HasKey u a b t m h = elim (unseen_tags_complete u [] (a ++ b) t (in_append m) h) [
  | inl seen ↦ absurd (false≢true seen)
  | inr found ↦ found
]
  where
    in_append : Member t a ⊎ Member t b → Member t (a ++ b)
    in_append (inl x) = Member-append_left a b x
    in_append (inr x) = Member-append_right a b x

-- No key is empty, and none is among the seen or comes twice.
abbrev pub Distinct : List Text → List Text → Type 0
Distinct seen [] = Unit
Distinct seen (k ∷ ks) = (is_empty k ≡ false) × (text_mem k seen ≡ false) × Distinct (k ∷ seen) ks

pub unseen_tags-Distinct :
    (u : Unicode) (seen ts : List Text) → Distinct seen (map (tag_key u) (unseen_tags u seen ts))
unfolding unseen_tags
unseen_tags-Distinct u seen [] = tt
unseen_tags-Distinct u seen (t ∷ ts) =
    elim (Bool-cases (is_empty (tag_key u t) || text_mem (tag_key u t) seen)) [
      | inl e ↦ rw e (unseen_tags-Distinct u seen ts)
      | inr e ↦ rw e (ground arith, ground arith, unseen_tags-Distinct u (tag_key u t ∷ seen) ts)
    ]

-- The keys of a union are not empty, and no two are the same.
union_tags-Distinct :
    (u : Unicode) (a b : List Text) → Distinct [] (map (tag_key u) (union_tags u a b))
unfolding union_tags
union_tags-Distinct u a b = unseen_tags-Distinct u [] (a ++ b)

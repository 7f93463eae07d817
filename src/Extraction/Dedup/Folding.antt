-- ===== src/Extraction/Dedup/Folding.antt =====
-- Folding loses no fact: every memory of the extraction is represented by one that is kept.
use context.Prelude.{
  ◌≡◌, refl, sym, ap, ◌∙◌, List, [], ◌∷◌, ◌++◌, true, Member, here, there, inl, inr, Bool-cases,
  Option-cases, ◌⊎◌, Option, none, some, Subseq, length, suc, All, All-get, All-of_members,
  Member-append_left, Member-append_right,
}
use mathlib.Core.Path.{subst}
use context.Text.{Text, Unicode, is_empty}
use context.Model.Content.{content_tokens}
use context.Model.Memory.{type_eq, type_eq_iff}
use context.Extraction.Dedup.{
  Subsumption, distinct, equivalent, new_subsumes_old, old_subsumes_new, ExtractedMemory,
  has_polarity_marker, subsumes, tag_key, union_tags, merge_into, fold_step, fold_from,
  fold_redundant,
}
use context.Extraction.Dedup.Sequence.{Subseq-refl, Subseq-trans}
use context.Extraction.Dedup.Tags.{HasKey, union_tags-HasKey}
use context.Extraction.Dedup.Verdict.{Describes, subsumes-Describes}

module _ (u : Unicode) where
  abbrev tokens : ExtractedMemory → List Text
  tokens m = content_tokens u m.content

  -- The tag is blank, or the list has its key.
  abbrev pub Tagged : List Text → Text → Type 0
  Tagged ts t = (is_empty (tag_key u t) ≡ true) ⊎ HasKey u (tag_key u t) ts

  -- `k` says what `m` says: the type, all its words in order, the polarity and the tags.
  pub record Represents (k m : ExtractedMemory) : Type 0 where
    pub type : k.type ≡ m.type
    pub words : Subseq (tokens m) (tokens k)
    pub polarity : has_polarity_marker (tokens k) ≡ has_polarity_marker (tokens m)
    pub tags : All (Tagged k.tags) m.tags

  Represents-refl : (m : ExtractedMemory) → Represents m m
  Represents-refl m = record {
    type = refl;
    words = Subseq-refl (tokens m);
    polarity = refl;
    tags = All-of_members _ m.tags (λ t x. inr (t, x, refl));
  }

  Represents-trans : (a b c : ExtractedMemory) → Represents a b → Represents b c → Represents a c
  Represents-trans a b c p q = record {
    type = p.type ∙ q.type;
    words = Subseq-trans q.words p.words;
    polarity = p.polarity ∙ q.polarity;
    tags = All-of_members _ c.tags (λ t x. pass t (All-get _ t c.tags q.tags x));
  }
    where
      pass : (t : Text) → Tagged b.tags t → Tagged a.tags t
      pass t (inl blank) = inl blank
      pass t (inr (s, y, e)) = elim (All-get _ s b.tags p.tags y) [
        | inl blank ↦ inl (rw e at blank)
        | inr (r, z, f) ↦ inr (r, z, f ∙ e)
      ]

  -- `ks'` is `ks` with one memory merged with `m`.
  record Absorbs (m : ExtractedMemory) (ks ks' : List ExtractedMemory) : Type 0 where
    merged : (k : ExtractedMemory) × Member k ks' × Represents k m
    kept :
        (j : ExtractedMemory) → Member j ks → (k : ExtractedMemory) × Member k ks' × Represents k j
    size : length ks' ≡ length ks

  Absorbs-head :
      (m k k' : ExtractedMemory) (ks : List ExtractedMemory)
      → Represents k' m
      → Represents k' k
      → Absorbs m (k ∷ ks) (k' ∷ ks)
  Absorbs-head m k k' ks p q = record {
    merged = (k', here refl, p);
    kept = λ j x. held j x;
    size = refl;
  }
    where
      held :
          (j : ExtractedMemory)
          → Member j (k ∷ ks)
          → (l : ExtractedMemory) × Member l (k' ∷ ks) × Represents l j
      held j (here e) = (k', here refl, rw e q)
      held j (there x) = (j, there x, Represents-refl j)

  Absorbs-tail :
      (m k : ExtractedMemory) (ks ks' : List ExtractedMemory)
      → Absorbs m ks ks'
      → Absorbs m (k ∷ ks) (k ∷ ks')
  Absorbs-tail m k ks ks' a = record {
    merged = let (l, x, r) = a.merged in (l, there x, r);
    kept = held;
    size = ap suc a.size;
  }
    where
      held :
          (j : ExtractedMemory)
          → Member j (k ∷ ks)
          → (l : ExtractedMemory) × Member l (k ∷ ks') × Represents l j
      held j (here e) = (k, here refl, rw e (Represents-refl k))
      held j (there x) = let (l, y, r) = a.kept j x in (l, there y, r)

  module _ (m k : ExtractedMemory) (same : k.type ≡ m.type) where
    abbrev both : List Text
    both = union_tags u k.tags m.tags

    union_Tagged : (t : Text) → Member t k.tags ⊎ Member t m.tags → Tagged both t
    union_Tagged t x = elim (Bool-cases (is_empty (tag_key u t))) [
      | inl blank ↦ inl blank
      | inr filled ↦ inr (union_tags-HasKey u k.tags m.tags t x filled)
    ]

    -- The newer wording replaces the older.
    newer_Represents :
        Subseq (tokens k) (tokens m)
        → has_polarity_marker (tokens m) ≡ has_polarity_marker (tokens k)
        → Represents (record k { content = m.content; tags = both }) m
          × Represents (record k { content = m.content; tags = both }) k
    newer_Represents p e = (
      record {
        type = same;
        words = Subseq-refl _;
        polarity = refl;
        tags = All-of_members _ m.tags (λ t x. union_Tagged t (inr x));
      },
      record {
        type = refl;
        words = p;
        polarity = e;
        tags = All-of_members _ k.tags (λ t x. union_Tagged t (inl x));
      },
    )

    -- The older wording stays.
    older_Represents :
        Subseq (tokens m) (tokens k)
        → has_polarity_marker (tokens m) ≡ has_polarity_marker (tokens k)
        → Represents (record k { tags = both }) m × Represents (record k { tags = both }) k
    older_Represents p e = (
      record {
        type = same;
        words = p;
        polarity = sym e;
        tags = All-of_members _ m.tags (λ t x. union_Tagged t (inr x));
      },
      record {
        type = refl;
        words = Subseq-refl _;
        polarity = refl;
        tags = All-of_members _ k.tags (λ t x. union_Tagged t (inl x));
      },
    )

  later-Absorbs :
      (m k : ExtractedMemory) (ks : List ExtractedMemory) {ks' : List ExtractedMemory}
      (r : Option (List ExtractedMemory))
      → ((l : List ExtractedMemory) → r ≡ some l → Absorbs m ks l)
      → (elim r [ none ↦ none | some l ↦ some (k ∷ l) ]) ≡ some ks'
      → Absorbs m (k ∷ ks) ks'
  later-Absorbs m k ks none ih e = cc
  later-Absorbs m k ks (some l) ih e =
      subst (Absorbs m (k ∷ ks)) (cc) (Absorbs-tail m k ks l (ih l refl))

  -- The `switch` of the inner loop.
  merge_head :
      (m k : ExtractedMemory) (ks : List ExtractedMemory) {ks' : List ExtractedMemory}
      (later : Option (List ExtractedMemory)) (v : Subsumption)
      → k.type ≡ m.type
      → Describes v (tokens m) (tokens k)
      → (later ≡ some ks' → Absorbs m (k ∷ ks) ks')
      → (elim v [
        | new_subsumes_old ↦
            some (record k { content = m.content; tags = union_tags u k.tags m.tags } ∷ ks)
        | equivalent ↦
            some (record k { content = m.content; tags = union_tags u k.tags m.tags } ∷ ks)
        | old_subsumes_new ↦ some (record k { tags = union_tags u k.tags m.tags } ∷ ks)
        | distinct ↦ later
      ])
        ≡ some ks'
      → Absorbs m (k ∷ ks) ks'
  merge_head m k ks later new_subsumes_old same d ih e =
      let (p, q) = newer_Represents m k same d.1 d.0.polarity in
      subst (Absorbs m (k ∷ ks)) (cc) (Absorbs-head m k _ ks p q)
  merge_head m k ks later equivalent same d ih e =
      let (p, q) = newer_Represents m k same (rw d.1 (Subseq-refl (tokens k))) d.0.polarity in
      subst (Absorbs m (k ∷ ks)) (cc) (Absorbs-head m k _ ks p q)
  merge_head m k ks later old_subsumes_new same d ih e =
      let (p, q) = older_Represents m k same d.1 d.0.polarity in
      subst (Absorbs m (k ∷ ks)) (cc) (Absorbs-head m k _ ks p q)
  merge_head m k ks later distinct same d ih e = ih e

  merge_into-Absorbs :
      (m : ExtractedMemory) (ks ks' : List ExtractedMemory)
      → merge_into u m ks ≡ some ks'
      → Absorbs m ks ks'
  unfolding merge_into
  merge_into-Absorbs m [] ks' e = cc
  merge_into-Absorbs m (k ∷ ks) ks' e =
      let later =
        later-Absorbs m k ks {ks' = ks'} (merge_into u m ks) (λ l. merge_into-Absorbs m ks l) in
      elim (Bool-cases (type_eq k.type m.type)) [
        | inl same ↦
            merge_head m k ks _ (subsumes u m.content k.content) ((type_eq_iff _ _).0 same)
              (subsumes-Describes u m.content k.content) later (rw same at e)
        | inr differs ↦ later (rw differs at e)
      ]

  -- Everything that `ms` says is said in `ks`.
  abbrev Covers : List ExtractedMemory → List ExtractedMemory → Type 0
  Covers ks ms =
      (m : ExtractedMemory) → Member m ms → (k : ExtractedMemory) × Member k ks × Represents k m

  Covers-trans : (xs ys zs : List ExtractedMemory) → Covers xs ys → Covers ys zs → Covers xs zs
  Covers-trans xs ys zs p q m x =
      let (k, y, r) = q m x in let (l, z, t) = p k y in (l, z, Represents-trans l k m t r)

  fold_step-Covers :
      (kept : List ExtractedMemory) (m : ExtractedMemory) → Covers (fold_step u kept m) (m ∷ kept)
  unfolding fold_step
  fold_step-Covers kept m = elim (Option-cases (merge_into u m kept)) [
    | inl e ↦ rw (e, fold_step) (apart kept)
    | inr (ks, e) ↦ rw (e, fold_step) (joined ks (merge_into-Absorbs m kept ks e))
  ]
    where
      apart : (ks : List ExtractedMemory) → Covers (ks ++ (m ∷ [])) (m ∷ ks)
      apart ks j (here e) =
          (m, Member-append_right ks (m ∷ []) (here refl), rw e (Represents-refl m))
      apart ks j (there x) = (j, Member-append_left ks (m ∷ []) x, Represents-refl j)

      joined : (ks : List ExtractedMemory) → Absorbs m kept ks → Covers ks (m ∷ kept)
      joined ks a j (here e) = rw e a.merged
      joined ks a j (there x) = a.kept j x

  fold_from-Covers :
      (kept ms : List ExtractedMemory)
      → Covers (fold_from u kept ms) kept × Covers (fold_from u kept ms) ms
  unfolding fold_from
  fold_from-Covers kept [] = (λ m x. (m, x, Represents-refl m), λ m x. elim x [ ])
  fold_from-Covers kept (n ∷ ms) = split (fold_from-Covers (fold_step u kept n) ms)
    where
      out : List ExtractedMemory
      out = fold_from u (fold_step u kept n) ms

      split :
          Covers out (fold_step u kept n) × Covers out ms → Covers out kept × Covers out (n ∷ ms)
      split (p, q) = (λ m x. before m (there x), all)
        where
          before : Covers out (n ∷ kept)
          before = Covers-trans out (fold_step u kept n) (n ∷ kept) p (fold_step-Covers kept n)

          all : Covers out (n ∷ ms)
          all m (here e) = before m (here e)
          all m (there x) = q m x

  -- Every memory of the extraction is represented by a memory that is kept: of its type, with all
  -- its words in order, with its polarity and with every tag that it carries.
  pub fold_redundant-Covers :
      (ms : List ExtractedMemory) (m : ExtractedMemory)
      → Member m ms
      → (k : ExtractedMemory) × Member k (fold_redundant u ms) × Represents k m
  unfolding fold_redundant
  fold_redundant-Covers ms = (fold_from-Covers [] ms).1

-- ===== src/Ranking/Relevance/Bounds.antt =====
-- The signals lie between 0 and 1.
use context.Prelude.{
  ℕ, ◌≡◌, not, List, Bool, true, false, ◌||◌, ◌==◌, if◌then◌else◌, Bool-cases, inl, inr, arith,
}
use context.Text.{Text, Unicode}
use context.Ranking.{Floats, clamp01}
use context.Ranking.Relevance.{
  lexical_relevance, combine_relevance, entity_relevance, apply_entity_boost, normalize_bm25,
  fuse_weighted, min_max, relevance_tier,
}

-- A number that is not below 0 and not above 1.
pub record InUnit (F : Floats) (v : F.Float) : Type 0 where
  pub number : F.is_nan v ≡ false
  pub least : F.gt (F.decimal 0 1) v ≡ false
  pub most : F.gt v (F.decimal 1 1) ≡ false

-- What float64 says of its constants 0 and 1, and of the product with 0.499.
pub record HasUnit (F : Floats) : Type 0 where
  pub zero_InUnit : InUnit F (F.decimal 0 1)
  pub one_InUnit : InUnit F (F.decimal 1 1)
  pub scaled_InUnit : (v : F.Float) → InUnit F v → InUnit F (F.times v (F.decimal 499 1000))

module _ (F : Floats) (h : HasUnit F) where
  pub clamp01-InUnit : (v : F.Float) → InUnit F (clamp01 F v)
  unfolding clamp01
  clamp01-InUnit v = elim (Bool-cases (F.is_nan v || F.gt (F.decimal 0 1) v)) [
    | inl e ↦ rw e h.zero_InUnit
    | inr e ↦ (elim (Bool-cases (F.gt v (F.decimal 1 1))) [
      | inl g ↦ rw (e, g) h.one_InUnit
      | inr g ↦
          rw (e, g) (record { number = ground (arith, e); least = ground (arith, e); most = g })
    ])
  ]

  if-InUnit : (b : Bool) (x y : F.Float) → InUnit F x → InUnit F y → InUnit F (if b then x else y)
  if-InUnit true x y p q = p
  if-InUnit false x y p q = q

  -- Each of these is a number between 0 and 1, whatever the scores and weights are, NaN and
  -- infinities included: FuseWeighted, minMax, NormalizeBM25, CombineRelevance, EntityRelevance,
  -- ApplyEntityBoost, LexicalRelevance and RelevanceTier. It is assumed that 0 and 1 are such
  -- numbers, and that the product of such a number and 0.499 is one.
  pub signals-InUnit :
      (u : Unicode) (a b c wk ws we : F.Float) (n : ℕ) (content : Text) (tags keywords : List Text)
      (searched : Bool)
      → InUnit F (fuse_weighted F a b c wk ws we)
        × InUnit F (min_max F a b c)
        × InUnit F (normalize_bm25 F a n)
        × InUnit F (combine_relevance F a b)
        × InUnit F (entity_relevance F a)
        × InUnit F (apply_entity_boost F a b)
        × InUnit F (lexical_relevance F u content tags keywords)
        × InUnit F (relevance_tier F a b searched)
  unfolding fuse_weighted min_max normalize_bm25 combine_relevance entity_relevance
      apply_entity_boost lexical_relevance relevance_tier
  signals-InUnit u a b c wk ws we n content tags keywords searched = (
    if-InUnit (F.ge (F.decimal 0 1) (F.plus (F.plus wk ws) we)) _ _ h.zero_InUnit
        (clamp01-InUnit _),
    if-InUnit (F.ge b c) _ _ h.one_InUnit (clamp01-InUnit _),
    if-InUnit (F.is_nan a || F.ge (F.decimal 0 1) a || n == 0) _ _ h.zero_InUnit (clamp01-InUnit _),
    clamp01-InUnit _,
    clamp01-InUnit _,
    clamp01-InUnit _,
    if-InUnit _ _ _ h.one_InUnit (clamp01-InUnit _),
    if-InUnit (not searched) _ _ (clamp01-InUnit b)
        (if-InUnit _ _ _ (clamp01-InUnit _) (h.scaled_InUnit _ (clamp01-InUnit _))),
  )

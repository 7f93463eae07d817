-- ===== src/Extraction/Dedup/Entities.antt =====
-- What becomes of the entities of a memory that is merged away.
use context.Prelude.{
  ◌≡◌, refl, sym, ap, List, [], ◌∷◌, inl, inr, Bool-cases, Option, none, some, map,
}
use context.Text.{Text, Unicode}
use context.Model.Memory.{type_eq}
use context.Extraction.Dedup.{
  Subsumption, distinct, equivalent, new_subsumes_old, old_subsumes_new, ExtractedMemory, subsumes,
  union_tags, merge_into,
}

module _ (u : Unicode) where
  abbrev pub entities : List ExtractedMemory → List (List Text)
  entities = map (λ (k : ExtractedMemory). k.entities)

  later-entities :
      (k : ExtractedMemory) (ks : List ExtractedMemory) {ks' : List ExtractedMemory}
      (r : Option (List ExtractedMemory))
      → ((l : List ExtractedMemory) → r ≡ some l → entities l ≡ entities ks)
      → (elim r [ none ↦ none | some l ↦ some (k ∷ l) ]) ≡ some ks'
      → entities ks' ≡ entities (k ∷ ks)
  later-entities k ks none ih e = cc
  later-entities k ks {ks' = ks'} (some l) ih e =
      let made : k ∷ l ≡ ks' = cc in rw (← made) (ap (◌∷◌ k.entities) (ih l refl))

  -- A memory that is merged away leaves the entities of the kept memories as they are: its own are
  -- dropped, also where its wording replaces the older one's.
  pub merge_into-entities :
      (m : ExtractedMemory) (ks : List ExtractedMemory) (ks' : List ExtractedMemory)
      → merge_into u m ks ≡ some ks'
      → entities ks' ≡ entities ks
  unfolding merge_into
  merge_into-entities m [] ks' e = cc
  merge_into-entities m (k ∷ ks) ks' e =
      let later =
        later-entities k ks {ks' = ks'} (merge_into u m ks) (λ l. merge_into-entities m ks l) in
      elim (Bool-cases (type_eq k.type m.type)) [
        | inl same ↦ head (subsumes u m.content k.content) later (rw same at e)
        | inr differs ↦ later (rw differs at e)
      ]
    where
      same_entities : {l : List ExtractedMemory} → some l ≡ some ks' → entities l ≡ entities ks'
      same_entities x = ap entities (cc)

      head :
          {r : Option (List ExtractedMemory)} (v : Subsumption)
          → (r ≡ some ks' → entities ks' ≡ entities (k ∷ ks))
          → (elim v [
            | new_subsumes_old ↦
                some (record k { content = m.content; tags = union_tags u k.tags m.tags } ∷ ks)
            | equivalent ↦
                some (record k { content = m.content; tags = union_tags u k.tags m.tags } ∷ ks)
            | old_subsumes_new ↦ some (record k { tags = union_tags u k.tags m.tags } ∷ ks)
            | distinct ↦ r
          ])
            ≡ some ks'
          → entities ks' ≡ entities (k ∷ ks)
      head new_subsumes_old l x = sym (same_entities x)
      head equivalent l x = sym (same_entities x)
      head old_subsumes_new l x = sym (same_entities x)
      head distinct l x = l x

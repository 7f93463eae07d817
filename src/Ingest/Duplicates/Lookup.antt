-- ===== src/Ingest/Duplicates/Lookup.antt =====
-- What a map of the lookup says of its memories.
use context.Prelude.{
  ℕ, ◌≡◌, refl, sym, ◌∙◌, List, [], ◌∷◌, some, Result, ok, failed, All, true, Bool-cases,
  Option-cases, inl, inr, ◌||◌, arith,
}
use context.Text.{Text, Unicode, is_empty}
use context.Text.Words.{text_eq_iff}
use context.Model.Content.{content_hash}
use context.Model.Memory.{Memory, type_eq_iff}
use context.Ranking.{Floats}
use context.Extraction.Dedup.{is_nil}
use context.Ingest.{Engine}
use context.Ingest.Duplicates.{
  ContentKey, Found, key_eq, memory_at, found_step, found_from, read_rows, look_up,
  find_by_content_hash, or_nothing, existing_by_content, hashes_from, content_hash_literal_list,
}

module _ (u : Unicode) (digest : Text → List ℕ) where
  -- The memory has the fingerprint and the type of the key.
  abbrev pub HasContentKey : ContentKey → Memory → Type 0
  HasContentKey key m = (content_hash u digest m.content ≡ key.hash) × (m.type ≡ key.type)

  abbrev Keyed : Found → Type 0
  Keyed found = All (λ (p : ContentKey × Memory). HasContentKey p.0 p.1) found

  same_key :
      (a b : ContentKey) (m : Memory) → key_eq a b ≡ true → HasContentKey b m → HasContentKey a m
  unfolding key_eq
  same_key a b m e h = (
    h.0 ∙ sym ((text_eq_iff a.hash b.hash).0 (ground (arith, e))),
    h.1 ∙ sym ((type_eq_iff a.type b.type).0 (ground (arith, e))),
  )

  memory_at-HasContentKey :
      (key : ContentKey) (found : Found) (m : Memory)
      → Keyed found
      → memory_at key found ≡ some m
      → HasContentKey key m
  unfolding memory_at
  memory_at-HasContentKey key [] m h e = cc
  memory_at-HasContentKey key ((k, n) ∷ found) m h e = elim (Bool-cases (key_eq key k)) [
    | inl y ↦ let same : n ≡ m = cc in rw same at (same_key key k n y h.0)
    | inr y ↦ memory_at-HasContentKey key found m h.1 (rw (y, memory_at) at e)
  ]

  found_step-Keyed :
      (found : Found) (m : Memory) → Keyed found → Keyed (found_step u digest found m)
  unfolding found_step
  found_step-Keyed found m h =
      let h' = content_hash u digest m.content in
      elim (Bool-cases (is_empty h')) [
        | inl y ↦ rw y h
        | inr y ↦ (elim (Option-cases (memory_at (record { hash = h'; type = m.type }) found)) [
          | inl e ↦ rw (y, e) ((refl, refl), h)
          | inr (n, e) ↦ rw (y, e) h
        ])
      ]

  found_from-Keyed :
      (found : Found) (ms : List Memory) → Keyed found → Keyed (found_from u digest found ms)
  unfolding found_from
  found_from-Keyed found [] h = h
  found_from-Keyed found (m ∷ ms) h =
      found_from-Keyed (found_step u digest found m) ms (found_step-Keyed found m h)

  module _ {F : Floats} {W E Vector : Type 0} (eng : Engine F W E Vector) where
    read_rows-Keyed :
        (r : W × Result E (List Memory))
        → Keyed (or_nothing u digest eng (read_rows u digest eng r)).1
    unfolding read_rows or_nothing
    read_rows-Keyed (w, failed e) = tt
    read_rows-Keyed (w, ok rows) = found_from-Keyed [] rows tt

    look_up-Keyed :
        (w : W) (project_id : Text) (list : Result Text Text)
        → Keyed (or_nothing u digest eng (look_up u digest eng w project_id list)).1
    unfolding look_up
    look_up-Keyed w project_id (failed h) = unfold or_nothing in tt
    look_up-Keyed w project_id (ok []) = unfold or_nothing in tt
    look_up-Keyed w project_id (ok (c ∷ list)) =
        read_rows-Keyed (eng.rows_by_content_hash w project_id (c ∷ list))

    find_by_content_hash-Keyed :
        (w : W) (project_id : Text) (hashes : List Text)
        → Keyed (or_nothing u digest eng (find_by_content_hash u digest eng w project_id hashes)).1
    unfolding find_by_content_hash
    find_by_content_hash-Keyed w project_id hashes =
        elim (Bool-cases (is_empty project_id || is_nil hashes)) [
          | inl y ↦ rw y (unfold or_nothing in tt)
          | inr y ↦ rw y (look_up-Keyed w project_id (content_hash_literal_list hashes))
        ]

    -- A memory that the lookup finds has the fingerprint and the type that are looked up.
    pub existing_by_content-HasContentKey :
        (w : W) (project_id : Text) (memories : List Memory) (key : ContentKey) (m : Memory)
        → memory_at key (existing_by_content u digest eng w project_id memories).1 ≡ some m
        → HasContentKey key m
    unfolding existing_by_content
    existing_by_content-HasContentKey w project_id [] key m e =
        memory_at-HasContentKey key [] m tt e
    existing_by_content-HasContentKey w project_id (n ∷ ns) key m e =
        memory_at-HasContentKey key _ m
          (find_by_content_hash-Keyed w project_id (hashes_from u digest [] (n ∷ ns))) e

-- ===== src/Ingest/Duplicates.antt =====
-- What a project holds already, by fingerprint: `existingByContent` (internal/ingest/ingest.go), with
-- `FindByContentHash` and `contentHashLiteralList` (internal/graph/age.go).
pub mod Lookup
use context.Prelude.{
  ℕ, suc, List, [], ◌∷◌, ◌++◌, Bool, true, false, ◌&&◌, ◌||◌, if◌then◌else◌, ◌==◌, Option, none,
  some, Result, ok, failed,
}
use context.Text.{Text, Unicode, codes, is_empty, text_eq, text_mem}
use context.Model.Content.{content_hash, is_content_hash}
use context.Model.Memory.{Memory, MemoryType, type_eq}
use context.Ranking.{Floats}
use context.Extraction.Dedup.{is_nil}
use context.Ingest.{Engine}

pub record ContentKey : Type 0 where
  pub hash : Text
  pub type : MemoryType

unfoldable pub key_eq : ContentKey → ContentKey → Bool
key_eq a b = text_eq a.hash b.hash && type_eq a.type b.type

-- A map, by its insertions.
abbrev pub Found : Type 0
Found = List (ContentKey × Memory)

unfoldable pub memory_at : ContentKey → Found → Option Memory
unfolding key_eq
memory_at key [] = none
memory_at key ((k, m) ∷ found) = if key_eq key k then some m else memory_at key found

-- The literal of one hash, after a comma unless it is the first.
unfoldable pub quoted_hash : ℕ → Text → Text
quoted_hash n h = (if n == 0 then [] else codes ",") ++ (codes "'" ++ (h ++ codes "'"))

-- The loop of `contentHashLiteralList`: the text so far, and how many hashes it has. A text that is
-- no hash is refused.
unfoldable pub literals_from : Text → ℕ → List Text → Result Text (Text × ℕ)
unfolding quoted_hash
literals_from b n [] = ok (b, n)
literals_from b n (h ∷ hs) =
    let skipped = literals_from b n hs in
    let written = literals_from (b ++ quoted_hash n h) (suc n) hs in
    if is_empty h then skipped else if is_content_hash h then written else failed h

unfoldable pub close_list : Result Text (Text × ℕ) → Result Text Text
close_list (failed h) = failed h
close_list (ok (b, n)) = ok (if n == 0 then [] else b ++ codes "]")

unfoldable pub content_hash_literal_list : List Text → Result Text Text
unfolding literals_from close_list
content_hash_literal_list hashes = close_list (literals_from (codes "[") 0 hashes)

pub data LookupError (E : Type 0) : Type 0 where
  refused : Text → LookupError E
  lookup_failed : E → LookupError E

module _ (u : Unicode) (digest : Text → List ℕ) where
  -- The last loop of `FindByContentHash`: of the memories with one key, the first is kept.
  unfoldable pub found_step : Found → Memory → Found
  unfolding memory_at
  found_step found mem =
      let h = content_hash u digest mem.content in
      let key : ContentKey = record { hash = h; type = mem.type } in
      if is_empty h
      then found
      else (elim (memory_at key found) [ none ↦ (key, mem) ∷ found | some m ↦ found ])

  unfoldable pub found_from : Found → List Memory → Found
  unfolding found_step
  found_from found [] = found
  found_from found (m ∷ ms) = found_from (found_step found m) ms

  -- The hashes that are looked up: each once, and no empty one.
  unfoldable pub hashes_from : List Text → List Memory → List Text
  hashes_from seen [] = []
  hashes_from seen (mem ∷ ms) =
      let h = content_hash u digest mem.content in
      let skipped = hashes_from seen ms in
      let kept = hashes_from (h ∷ seen) ms in
      if is_empty h || text_mem h seen then skipped else h ∷ kept

  module _ {F : Floats} {W E Vector : Type 0} (eng : Engine F W E Vector) where
    unfoldable pub read_rows : W × Result E (List Memory) → W × Result (LookupError E) Found
    unfolding found_from
    read_rows (w, failed e) = (w, failed (lookup_failed e))
    read_rows (w, ok rows) = (w, ok (found_from [] rows))

    unfoldable pub look_up : W → Text → Result Text Text → W × Result (LookupError E) Found
    unfolding read_rows
    look_up w project_id (failed h) = (w, failed (refused h))
    look_up w project_id (ok []) = (w, ok [])
    look_up w project_id (ok (c ∷ list)) =
        read_rows (eng.rows_by_content_hash w project_id (c ∷ list))

    unfoldable pub find_by_content_hash : W → Text → List Text → W × Result (LookupError E) Found
    unfolding content_hash_literal_list look_up
    find_by_content_hash w project_id hashes =
        if is_empty project_id || is_nil hashes
        then (w, ok [])
        else look_up w project_id (content_hash_literal_list hashes)

    -- An error of the lookup is an empty map.
    unfoldable pub or_nothing : W × Result (LookupError E) Found → W × Found
    or_nothing (w, failed e) = (w, [])
    or_nothing (w, ok found) = (w, found)

    unfoldable pub existing_by_content : W → Text → List Memory → W × Found
    unfolding hashes_from find_by_content_hash or_nothing
    existing_by_content w project_id memories =
        if is_nil memories
        then (w, [])
        else or_nothing (find_by_content_hash w project_id (hashes_from [] memories))

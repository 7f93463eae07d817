-- ===== src/Tests/Graph.antt =====
-- Tests of the statements.
use context.Prelude.{ℕ, ◌≡◌, refl, [], ◌∷◌, ok, failed}
use context.Text.{Text, codes, byte_length, is_empty}
use context.Model.Content.{is_content_hash}
use context.Ingest.Duplicates.{content_hash_literal_list}
use context.Graph.Literals.{is_plain_uuid, uuid_literal_list, id_texts}
use context.Graph.Literals.Inline.{Written, bracketed, hash_list, filled, literal_lists-Written}

abbrev text_of : ℕ → Text
text_of i = codes "6ba7b810-9dad-11d1-80b4-00c04fd430c8"

abbrev evil : Text
evil = codes "'] RETURN 1 //"

program : Unit {0}
unfolding uuid_literal_list is_plain_uuid id_texts content_hash_literal_list is_content_hash
    is_empty byte_length
program = tt

ids_test :
    uuid_literal_list text_of (1 ∷ 2 ∷ [])
    ≡ ok (codes "['6ba7b810-9dad-11d1-80b4-00c04fd430c8','6ba7b810-9dad-11d1-80b4-00c04fd430c8']")
unfolding program
ids_test = refl

evil_test : content_hash_literal_list ([] ∷ evil ∷ []) ≡ failed evil
unfolding program
evil_test = refl

literal_lists-Written_example :
    Written is_plain_uuid
      (bracketed (id_texts text_of (1 ∷ 2 ∷ [])))
      (id_texts text_of (1 ∷ 2 ∷ []))
      (uuid_literal_list text_of (1 ∷ 2 ∷ []))
    × Written is_content_hash
        (hash_list (filled ([] ∷ evil ∷ [])))
        (filled ([] ∷ evil ∷ []))
        (content_hash_literal_list ([] ∷ evil ∷ []))
literal_lists-Written_example = literal_lists-Written text_of (1 ∷ 2 ∷ []) ([] ∷ evil ∷ [])

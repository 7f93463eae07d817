-- ===== src/Graph/Literals.antt =====
-- Values that are written into a query: `uuidLiteralList`, `isPlainUUID`, and
-- `contentHashLiteralList` of the write path (internal/graph/age.go). `id_text` is the method
-- `String` of an id.
pub mod Inline
use context.Prelude.{
  ℕ, suc, List, [], ◌∷◌, ◌++◌, Bool, true, false, ◌&&◌, ◌||◌, if◌then◌else◌, ◌==◌, leb, Result, ok,
  failed,
}
use context.Text.{Text, codes, byte_length}

-- the test of one byte in `isPlainUUID`
unfoldable pub is_uuid_char : ℕ → Bool
is_uuid_char c =
    leb b'0' c && leb c b'9' || leb b'a' c && leb c b'f' || leb b'A' c && leb c b'F' || c == b'-'

unfoldable pub all_uuid_chars : Text → Bool
unfolding is_uuid_char
all_uuid_chars [] = true
all_uuid_chars (c ∷ s) = is_uuid_char c && all_uuid_chars s

unfoldable pub is_plain_uuid : Text → Bool
unfolding all_uuid_chars byte_length
is_plain_uuid s = if byte_length s == 36 then all_uuid_chars s else false

-- The loop of `uuidLiteralList`: the text so far, and the index of the next id.
unfoldable pub uuid_literals_from : Text → ℕ → List Text → Result Text Text
unfolding is_plain_uuid
uuid_literals_from b i [] = ok (b ++ codes "]")
uuid_literals_from b i (s ∷ ids) =
    let comma = if i == 0 then [] else codes "," in
    let rest = uuid_literals_from (b ++ (comma ++ (codes "'" ++ (s ++ codes "'")))) (suc i) ids in
    if is_plain_uuid s then rest else failed s

unfoldable pub id_texts : (ℕ → Text) → List ℕ → List Text
id_texts id_text [] = []
id_texts id_text (i ∷ ids) = id_text i ∷ id_texts id_text ids

unfoldable pub uuid_literal_list : (ℕ → Text) → List ℕ → Result Text Text
unfolding uuid_literals_from id_texts
uuid_literal_list id_text ids = uuid_literals_from (codes "[") 0 (id_texts id_text ids)

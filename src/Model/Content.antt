-- ===== src/Model/Content.antt =====
-- The canonical tokens and the fingerprint of a memory's content (pkg/model/content.go), and the
-- key of an entity (pkg/model/entity.go). SHA-256 is the parameter `digest`.
pub mod Tokens
pub mod Hash
use context.Prelude.{
  ℕ, ◌+◌, ◌-◌, ◌/◌, ◌%◌, List, [], ◌∷◌, Bool, true, false, ◌&&◌, ◌||◌, if◌then◌else◌, ltb, leb,
  ◌==◌, take, length,
}
use context.Text.{
  Text, Unicode, codes, is_empty, to_lower, trim, trim_space, trim_suffix, fields, join, in_cutset,
}

-- contentHashLen
abbrev pub content_hash_len : ℕ
content_hash_len = 32

-- the cutset of `ContentTokens`: sentence punctuation, quotes and brackets
abbrev pub edge_punctuation : Text
edge_punctuation = codes ".,;:!?\"'()[]{}<>"

-- the loop of `ContentTokens`
unfoldable pub trim_tokens : List Text → List Text
trim_tokens [] = []
trim_tokens (f ∷ fs) =
    let t = trim (in_cutset edge_punctuation) f in
    let rest = trim_tokens fs in if is_empty t then rest else t ∷ rest

unfoldable pub content_tokens : Unicode → Text → List Text
unfolding trim_tokens
content_tokens u text = trim_tokens (fields u.is_space (to_lower u text))

-- hex.EncodeToString, one digit and two for each byte
unfoldable pub hex_digit : ℕ → ℕ
hex_digit n = if ltb n 10 then b'0' + n else b'a' + (n - 10)

unfoldable pub hex_encode : List ℕ → Text
unfolding hex_digit
hex_encode [] = []
hex_encode (b ∷ bs) = hex_digit (b / 16) ∷ hex_digit (b % 16) ∷ hex_encode bs

unfoldable pub content_hash : Unicode → (Text → List ℕ) → Text → Text
unfolding content_tokens
content_hash u digest content =
    let normalized = join (32 ∷ []) (content_tokens u content) in
    if is_empty normalized then [] else hex_encode (take (content_hash_len / 2) (digest normalized))

-- the test of one byte in `IsContentHash`
unfoldable pub is_hash_char : ℕ → Bool
is_hash_char c = leb b'0' c && leb c b'9' || leb b'a' c && leb c b'f'

unfoldable pub all_hash_chars : Text → Bool
unfolding is_hash_char
all_hash_chars [] = true
all_hash_chars (c ∷ s) = is_hash_char c && all_hash_chars s

unfoldable pub is_content_hash : Text → Bool
unfolding all_hash_chars
is_content_hash s = if length s == content_hash_len then all_hash_chars s else false

-- the cutset of `NormalizeEntity`, with the two curly quotation marks
abbrev pub entity_punctuation : Text
entity_punctuation = codes ".,;:!?\"'“”()[]{}"

unfoldable pub normalize_entity : Unicode → Text → Text
normalize_entity u name =
    let lowered = to_lower u (trim_space u name) in
    let trimmed = trim (in_cutset entity_punctuation) lowered in
    let plain = trim_suffix (trim_suffix trimmed (codes "'s")) (codes "’s") in
    join (32 ∷ []) (fields u.is_space plain)

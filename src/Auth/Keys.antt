-- ===== src/Auth/Keys.antt =====
-- The wire form of an API key (internal/auth/keys.go). SHA-256 is the parameter `digest`, and
-- base64.RawURLEncoding the parameter `encode`.
pub mod Wire
use context.Prelude.{
  ℕ, zero, suc, List, [], ◌∷◌, ◌++◌, Bool, true, false, ◌&&◌, not, if◌then◌else◌, ◌==◌, Option,
  none, some,
}
use context.Text.{Text, codes, text_eq, is_empty}
use context.Model.Content.{hex_encode}

-- KeyPrefix
abbrev pub key_prefix : Text
key_prefix = codes "ctx0"

-- secretBytes, and the length of the id in `GenerateKey`
abbrev pub secret_bytes : ℕ
secret_bytes = 32

abbrev pub id_bytes : ℕ
id_bytes = 6

pub record Key : Type 0 where
  pub id : Text
  pub secret : Text

-- Key.String, Key.Redacted
unfoldable pub key_string : Key → Text
key_string k = key_prefix ++ (b'_' ∷ (k.id ++ (b'_' ∷ k.secret)))

unfoldable pub redacted : Key → Text
redacted k = key_prefix ++ (b'_' ∷ (k.id ++ codes "_..."))

pub data KeyError : Type 0 where
  id_failed secret_failed : KeyError

pub data Generated : Type 0 where
  key : Key → Generated
  failed : KeyError → Generated

-- `read` is rand.Read: the bytes of a request, or a failure. The two reads are told apart by their
-- number.
unfoldable pub generate_key : (ℕ → ℕ → Option (List ℕ)) → (List ℕ → Text) → Generated
generate_key read encode = elim (read 0 id_bytes) [
  | none ↦ failed id_failed
  | some id ↦ elim (read 1 secret_bytes) [
    | none ↦ failed secret_failed
    | some secret ↦ key (record { id = hex_encode id; secret = encode secret })
  ]
]

-- The text up to a separator, and what comes behind it.
unfoldable pub cut_at : ℕ → Text → Option (Text × Text)
cut_at sep [] = none
cut_at sep (c ∷ s) =
    let later : Option (Text × Text) = elim (cut_at sep s) [
      | none ↦ none
      | some (a, b) ↦ some (c ∷ a, b)
    ] in
    if c == sep then some ([], s) else later

-- strings.SplitN, with a separator of one character
unfoldable pub split_n : ℕ → ℕ → Text → List Text
unfolding cut_at
split_n zero sep s = []
split_n (suc zero) sep s = s ∷ []
split_n (suc (suc n)) sep s = elim (cut_at sep s) [
  | none ↦ s ∷ []
  | some (a, b) ↦ a ∷ split_n (suc n) sep b
]

unfoldable pub key_of_parts : List Text → Option Key
key_of_parts (p ∷ i ∷ s ∷ []) =
    if text_eq p key_prefix && not (is_empty i) && not (is_empty s)
    then some (record { id = i; secret = s })
    else none
key_of_parts _ = none

unfoldable pub parse_key : Text → Option Key
unfolding split_n key_of_parts
parse_key s = key_of_parts (split_n 3 b'_' s)

unfoldable pub hash_key : (Text → List ℕ) → Text → Text
hash_key digest presented = hex_encode (digest presented)

-- ===== src/Text.antt =====
-- The functions of Go's `strings` package that the program uses, over texts as lists of code
-- points. What Go reads from its Unicode tables is the parameter `Unicode`.
pub mod Words
pub mod Join
pub mod Table
use context.Prelude.{
  ℕ, ◌≡◌, List, [], ◌∷◌, ◌++◌, Bool, true, false, ◌&&◌, ◌||◌, not, map, if◌then◌else◌, ◌==◌, code,
  String, Option, none, some, suc, ◌+◌, length, drop, take, ltb,
}
use Prim.Native.String

abbrev pub Text : Type 0
Text = List ℕ

-- unicode.ToLower and unicode.IsSpace
pub record Unicode : Type 0 where
  pub to_lower : ℕ → ℕ
  pub is_space : ℕ → Bool

-- The facts about the tables that the theorems need, each where it is used.
pub record IsUnicode (u : Unicode) : Type 0 where
  pub lower_idem : (c : ℕ) → u.to_lower (u.to_lower c) ≡ u.to_lower c
  pub lower_space : (c : ℕ) → u.is_space (u.to_lower c) ≡ u.is_space c
  pub space_is_space : u.is_space 32 ≡ true

abbrev pub codes : String → Text
codes String.[] = []
codes (String.◌∷◌ c s) = code c ∷ codes s

unfoldable pub text_eq : Text → Text → Bool
text_eq [] [] = true
text_eq (c ∷ s) (d ∷ t) = c == d && text_eq s t
text_eq [] (d ∷ t) = false
text_eq (c ∷ s) [] = false

unfoldable pub is_empty : Text → Bool
is_empty [] = true
is_empty (c ∷ s) = false

-- A test of membership in a Go map with text keys and `true` values.
unfoldable pub text_mem : Text → List Text → Bool
unfolding text_eq
text_mem t [] = false
text_mem t (k ∷ ks) = text_eq t k || text_mem t ks

unfoldable pub code_mem : ℕ → Text → Bool
code_mem c [] = false
code_mem c (d ∷ s) = c == d || code_mem c s

-- strings.ToLower
unfoldable pub to_lower : Unicode → Text → Text
to_lower u = map u.to_lower

-- strings.Trim: what is in the cutset goes from both ends.
unfoldable pub trim_left : (ℕ → Bool) → Text → Text
trim_left cut [] = []
trim_left cut (c ∷ s) = let rest = trim_left cut s in if cut c then rest else c ∷ s

abbrev pub cons_unless : Bool → ℕ → Text → Text
cons_unless b c (d ∷ s) = c ∷ d ∷ s
cons_unless true c [] = []
cons_unless false c [] = c ∷ []

unfoldable pub trim_right : (ℕ → Bool) → Text → Text
trim_right cut [] = []
trim_right cut (c ∷ s) = cons_unless (cut c) c (trim_right cut s)

unfoldable pub trim : (ℕ → Bool) → Text → Text
unfolding trim_left trim_right
trim cut s = trim_left cut (trim_right cut s)

abbrev pub in_cutset : Text → ℕ → Bool
in_cutset cutset c = code_mem c cutset

-- strings.TrimSpace
unfoldable pub trim_space : Unicode → Text → Text
unfolding trim
trim_space u = trim u.is_space

abbrev pub starts_word : (ℕ → Bool) → Text → Bool
starts_word space [] = false
starts_word space (c ∷ s) = not (space c)

-- A character goes to the word that the rest starts with, or is a word of its own.
abbrev pub glue : Bool → ℕ → List Text → List Text
glue true c (w ∷ ws) = (c ∷ w) ∷ ws
glue true c [] = (c ∷ []) ∷ []
glue false c ws = (c ∷ []) ∷ ws

-- strings.Fields: the maximal runs of characters that are no space.
unfoldable pub fields : (ℕ → Bool) → Text → List Text
fields space [] = []
fields space (c ∷ s) =
    let rest = fields space s in if space c then rest else glue (starts_word space s) c rest

-- strings.Join
unfoldable pub join : Text → List Text → Text
join sep [] = []
join sep (w ∷ []) = w
join sep (w ∷ v ∷ ws) = w ++ (sep ++ join sep (v ∷ ws))

-- strings.HasPrefix, strings.Contains, strings.Index
unfoldable pub has_prefix : Text → Text → Bool
has_prefix s [] = true
has_prefix [] (d ∷ p) = false
has_prefix (c ∷ s) (d ∷ p) = c == d && has_prefix s p

unfoldable pub index : Text → Text → Option ℕ
unfolding has_prefix
index [] p = if has_prefix [] p then some 0 else none
index (c ∷ s) p = elim (has_prefix (c ∷ s) p) [
  | true ↦ some 0
  | false ↦ elim (index s p) [ none ↦ none | some i ↦ some (suc i) ]
]

unfoldable pub contains : Text → Text → Bool
unfolding index
contains s p = elim (index s p) [ none ↦ false | some i ↦ true ]

-- strings.TrimSuffix
unfoldable pub trim_suffix : Text → Text → Text
unfolding text_eq
trim_suffix [] p = []
trim_suffix (c ∷ s) p = elim (text_eq (c ∷ s) p) [ true ↦ [] | false ↦ c ∷ trim_suffix s p ]

-- `len` of a string: the bytes of its UTF-8 encoding.
unfoldable pub byte_length : Text → ℕ
byte_length [] = 0
byte_length (c ∷ s) =
    (if ltb c 128 then 1 else if ltb c 2048 then 2 else if ltb c 65536 then 3 else 4)
    + byte_length s

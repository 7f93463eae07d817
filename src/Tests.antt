-- ===== src/Tests.antt =====
-- Concrete inputs: the ASCII tables, a digest of the right shape, and the tests of each part.
mod Service
mod Handlers
mod Health
mod Graph
mod Ingest
mod Write
mod Server
mod Config
mod Ranking
mod Retrieval
mod Contradiction
mod Embedding
mod Content
mod Dedup
mod Auth
use context.Prelude.{
  ℕ, ◌+◌, ◌%◌, ◌<◌, ◌≡◌, refl, List, [], ◌∷◌, Bool, true, false, ◌&&◌, ◌||◌, if◌then◌else◌, leb,
  ◌==◌, arith, All, length,
}
use context.Text.{Text, Unicode, IsUnicode}
use context.Model.Content.Hash.{IsDigest}

abbrev pub ascii : Unicode
ascii = record {
  to_lower = λ c. if leb b'A' c && leb c b'Z' then c + 32 else c;
  is_space = λ c. c == 32 || leb 9 c && leb c 13;
}

pub ascii-IsUnicode : IsUnicode ascii
ascii-IsUnicode = record {
  lower_idem = λ c. ground arith;
  lower_space = λ c. ground arith;
  space_is_space = refl;
}

abbrev zeros : List ℕ
zeros =
    0 ∷ 0 ∷ 0 ∷ 0 ∷ 0 ∷ 0 ∷ 0 ∷ 0 ∷ 0 ∷ 0 ∷ 0 ∷ 0 ∷ 0 ∷ 0 ∷ 0 ∷ 0 ∷ 0 ∷ 0 ∷ 0 ∷ 0 ∷ 0 ∷ 0 ∷ 0 ∷ 0
    ∷ 0 ∷ 0 ∷ 0 ∷ 0 ∷ 0 ∷ 0 ∷ 0 ∷ []

-- a digest of 32 bytes that tells texts apart by their first characters
abbrev pub toy_digest : Text → List ℕ
toy_digest [] = 0 ∷ zeros
toy_digest (c ∷ t) = c % 256 ∷ zeros

pub toy_digest-IsDigest : IsDigest toy_digest
toy_digest-IsDigest = record { bytes = bytes; width = width }
  where
    bytes : (t : Text) → All (λ b. b < 256) (toy_digest t)
    bytes [] = omega arith
    bytes (c ∷ t) = omega arith

    width : (t : Text) → length (toy_digest t) ≡ 32
    width [] = refl
    width (c ∷ t) = refl

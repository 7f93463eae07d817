-- ===== src/Tests/Content.antt =====
-- Tests of the tokens and the fingerprint.
use context.Prelude.{ℕ, ◌≡◌, ◌≢◌, ◌↔◌, refl, List, [], ◌∷◌, true, map, ap, arith}
use context.Text.{Text, codes, to_lower, trim, fields, join, code_mem, is_empty}
use context.Model.Content.{content_tokens, content_hash, is_content_hash}
use context.Model.Content.Tokens.{content_tokens-join}
use context.Model.Content.Hash.{content_hash-is_content_hash, content_hash-eq_iff}
use context.Tests.{ascii, ascii-IsUnicode, toy_digest, toy_digest-IsDigest}

abbrev first_byte : List ℕ → ℕ
first_byte [] = 0
first_byte (b ∷ bs) = b

abbrev caroline : Text
caroline = codes "  Caroline   is (a) teacher. !!"

abbrev melanie : Text
melanie = codes "Melanie sings"

program : Unit {0}
unfolding content_tokens to_lower fields trim code_mem is_empty join
program = tt

tokens_test : content_tokens ascii caroline ≡ map codes ("caroline" ∷ "is" ∷ "a" ∷ "teacher" ∷ [])
unfolding program
tokens_test = refl

content_tokens-join_example :
    content_tokens ascii (join (codes " ") (content_tokens ascii caroline))
    ≡ content_tokens ascii caroline
content_tokens-join_example = content_tokens-join ascii ascii-IsUnicode caroline

content_hash-is_content_hash_example :
    is_content_hash (content_hash ascii toy_digest caroline) ≡ true
content_hash-is_content_hash_example =
    content_hash-is_content_hash ascii toy_digest toy_digest-IsDigest caroline some_token
  where
    some_token : content_tokens ascii caroline ≢ []
    some_token e = cc (e, tokens_test)

content_hash-eq_iff_example :
    (content_hash ascii toy_digest caroline ≡ content_hash ascii toy_digest melanie)
    ↔ (content_tokens ascii caroline ≡ content_tokens ascii melanie)
unfolding program
content_hash-eq_iff_example =
    content_hash-eq_iff ascii toy_digest toy_digest-IsDigest caroline melanie refl
      (λ e. let wrong : ◌≡◌ {A = ℕ} 99 109 = ap first_byte e in absurd (omega arith))

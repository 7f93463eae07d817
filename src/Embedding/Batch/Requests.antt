-- ===== src/Embedding/Batch/Requests.antt =====
-- The requests that a batch makes.
use context.Prelude.{
  ℕ, zero, suc, ◌≤◌, ◌≡◌, refl, List, [], ◌∷◌, ◌++◌, length, take, drop, Result, ok, failed,
  Result-cases, inl, inr, arith, length-take, take-append-drop, append-nil, append_assoc, All,
  All-append, sym, ap, ◌∙◌,
}
use mathlib.Core.Path.{subst}
use context.Text.{Text}
use context.Embedding.Batch.{
  Answer, EmbedError, max_batch_size, embed_chunk, embed_from, embed_batch,
}

abbrev pub concat : List (List Text) → List Text
concat [] = []
concat (r ∷ rs) = r ++ concat rs

concat-append : (rs qs : List (List Text)) → concat (rs ++ qs) ≡ concat rs ++ concat qs
concat-append [] qs = refl
concat-append (r ∷ rs) qs = rw (concat-append rs qs) (sym (append_assoc r (concat rs) (concat qs)))

-- A provider that notes the texts of each request.
abbrev pub noted :
    {W Raw : Type 0}
    → (W → List Text → W × Answer Raw)
    → W × List (List Text)
    → List Text
    → (W × List (List Text)) × Answer Raw
noted post (w, log) texts = let (w', a) = post w texts in ((w', log ++ (texts ∷ [])), a)

abbrev IsSmall : List Text → Type 0
IsSmall texts = length texts ≤ max_batch_size

-- The requests are small, and they are a part of the texts from the start, or all of them.
abbrev pub Sends :
    {Vector : Type 0} → List (List Text) → List Text → Result EmbedError (List Vector) → Type 0
Sends log texts (ok vs) = All IsSmall log × (concat log ≡ texts)
Sends log texts (failed e) = All IsSmall log × ((left : List Text) × (concat log ++ left ≡ texts))

module _ {W Raw Vector : Type 0} (post : W → List Text → W × Answer Raw)
    (narrow : Raw → Vector) where
  embed_from-Sends :
      (n : ℕ) (w : W) (log : List (List Text)) (rest : List Text) (out : List Vector)
      → All IsSmall log
      → Sends
          (embed_from (noted post) narrow n (w, log) rest out).0.1
          (concat log ++ rest)
          (embed_from (noted post) narrow n (w, log) rest out).1
  unfolding embed_from embed_chunk
  embed_from-Sends zero w log [] out h = (h, sym (append-nil (concat log)))
  embed_from-Sends zero w log (t ∷ rest) out h = (h, (t ∷ rest, refl))
  embed_from-Sends (suc n) w log [] out h = (h, sym (append-nil (concat log)))
  embed_from-Sends (suc n) w log (t ∷ rest) out h =
      elim (Result-cases (embed_chunk (noted post) narrow (w, log) chunk).1) [
        | inl (vs, e) ↦
            rw (e, embed_from)
              (subst (λ s. Sends (later vs).0.1 s (later vs).1) sent
                (embed_from-Sends n (post w chunk).0 (log ++ (chunk ∷ [])) left (out ++ vs) small))
        | inr (x, e) ↦ rw (e, embed_from) (small, (left, sent))
      ]
    where
      chunk : List Text
      chunk = take max_batch_size (t ∷ rest)

      left : List Text
      left = drop max_batch_size (t ∷ rest)

      later : List Vector → (W × List (List Text)) × Result EmbedError (List Vector)
      later vs =
          embed_from (noted post) narrow n ((post w chunk).0, log ++ (chunk ∷ [])) left (out ++ vs)

      small : All IsSmall (log ++ (chunk ∷ []))
      small =
          All-append IsSmall log (chunk ∷ []) h
            (omega (arith, length-take max_batch_size (t ∷ rest)), tt)

      sent : concat (log ++ (chunk ∷ [])) ++ left ≡ concat log ++ t ∷ rest
      sent =
          ap (λ s. s ++ left)
            (concat-append log (chunk ∷ []) ∙ ap (◌++◌ (concat log)) (append-nil chunk))
          ∙ append_assoc (concat log) chunk left
          ∙ ap (◌++◌ (concat log)) (take-append-drop max_batch_size (t ∷ rest))

  -- A batch sends requests of at most 100 texts each, which together are the texts in their order,
  -- or a part of them from the start if the batch fails.
  pub embed_batch-Sends :
      (w : W) (texts : List Text)
      → Sends
          (embed_batch (noted post) narrow (w, []) texts).0.1
          texts
          (embed_batch (noted post) narrow (w, []) texts).1
  unfolding embed_batch
  embed_batch-Sends w texts = embed_from-Sends (length texts) w [] texts [] tt

-- ===== src/Embedding/Batch/Order.antt =====
-- The vectors of a batch stand where their texts stand.
use context.Prelude.{
  ℕ, zero, suc, ◌+◌, ◌≤◌, ◌≡◌, ◌≢◌, refl, List, [], ◌∷◌, ◌++◌, map, length, take, drop, Result, ok,
  failed, Result-cases, inl, inr, arith, length-append, length-drop, length-take, append-nil,
  append_assoc, take-append-drop, ==_refl, sym, ap, ◌∙◌,
}
use mathlib.Core.Path.{subst}
use context.Text.{Text}
use context.Embedding.Batch.{
  Answer, decoded, EmbedError, out_of_fuel, max_batch_size, read_answer, embed_chunk, embed_from,
  embed_batch, embed_each, unsent, unanswered, undecoded, status,
}

pub length-map : {A B : Type 0} (f : A → B) (xs : List A) → length (map f xs) ≡ length xs
length-map f [] = refl
length-map f (x ∷ xs) = omega (arith, length-map f xs)

pub map-append :
    {A B : Type 0} (f : A → B) (xs ys : List A) → map f (xs ++ ys) ≡ map f xs ++ map f ys
map-append f [] ys = refl
map-append f (x ∷ xs) ys = rw (map-append f xs ys)

module _ {Raw Vector : Type 0} (narrow : Raw → Vector) where
  pub read_answer-length :
      (texts : List Text) (a : Answer Raw) (vs : List Vector)
      → read_answer narrow texts a ≡ ok vs
      → length vs ≡ length texts
  unfolding read_answer
  read_answer-length texts unsent vs h = cc
  read_answer-length texts unanswered vs h = cc
  read_answer-length texts undecoded vs h = cc
  read_answer-length texts (status c) vs h = cc
  read_answer-length texts (decoded raw) vs h = ground (arith, length-map narrow raw)

  pub read_answer-in_fuel :
      (texts : List Text) (a : Answer Raw) → read_answer narrow texts a ≢ failed out_of_fuel
  unfolding read_answer
  read_answer-in_fuel texts unsent h = cc
  read_answer-in_fuel texts unanswered h = cc
  read_answer-in_fuel texts undecoded h = cc
  read_answer-in_fuel texts (status c) h = cc
  read_answer-in_fuel texts (decoded raw) h = ground arith

-- A vector for each text, or an error that is not of the model's making.
abbrev pub Aligned : {Vector : Type 0} → ℕ → Result EmbedError (List Vector) → Type 0
Aligned n (ok vs) = length vs ≡ n
Aligned n (failed e) = e ≢ out_of_fuel

module _ {W Raw Vector : Type 0} (post : W → List Text → W × Answer Raw)
    (narrow : Raw → Vector) where
  embed_from-Aligned :
      (n : ℕ) (w : W) (rest : List Text) (out : List Vector)
      → length rest ≤ n
      → Aligned (length out + length rest) (embed_from post narrow n w rest out).1
  unfolding embed_from embed_chunk
  embed_from-Aligned zero w [] out h = omega arith
  embed_from-Aligned zero w (t ∷ rest) out h = omega arith
  embed_from-Aligned (suc n) w [] out h = omega arith
  embed_from-Aligned (suc n) w (t ∷ rest) out h =
      elim (Result-cases (embed_chunk post narrow w chunk).1) [
        | inl (vs, e) ↦
            rw (e, embed_from)
              (subst (λ k. Aligned k (later vs).1) (counted vs e)
                (embed_from-Aligned n _ left (out ++ vs)
                  (omega (arith, length-drop max_batch_size (t ∷ rest)))))
        | inr (x, e) ↦
            rw (e, embed_from) (λ same. read_answer-in_fuel narrow chunk _ (e ∙ ap failed same))
      ]
    where
      chunk : List Text
      chunk = take max_batch_size (t ∷ rest)

      left : List Text
      left = drop max_batch_size (t ∷ rest)

      later : List Vector → W × Result EmbedError (List Vector)
      later vs = embed_from post narrow n (embed_chunk post narrow w chunk).0 left (out ++ vs)

      counted :
          (vs : List Vector)
          → (embed_chunk post narrow w chunk).1 ≡ ok vs
          → length (out ++ vs) + length left ≡ length out + suc (length rest)
      counted vs e = omega (
        arith,
        length-append out vs,
        read_answer-length narrow chunk _ vs e,
        length-take max_batch_size (t ∷ rest),
        length-drop max_batch_size (t ∷ rest),
      )

  -- A batch of texts gives as many vectors as there are texts, or fails with an error of a request:
  -- the loop ends.
  pub embed_batch-Aligned :
      (w : W) (texts : List Text) → Aligned (length texts) (embed_batch post narrow w texts).1
  unfolding embed_batch
  embed_batch-Aligned w texts =
      subst (λ n. Aligned n (embed_from post narrow (length texts) w texts []).1) (omega arith)
        (embed_from-Aligned (length texts) w texts [] (omega arith))

  module _ (raw : Text → Raw)
      (honest : (w : W) (texts : List Text) → (post w texts).1 ≡ decoded (map raw texts)) where
    abbrev vector : Text → Vector
    vector t = narrow (raw t)

    map-map : (texts : List Text) → map narrow (map raw texts) ≡ map vector texts
    map-map [] = refl
    map-map (t ∷ texts) = rw (map-map texts)

    embed_chunk_honest :
        (w : W) (texts : List Text) → (embed_chunk post narrow w texts).1 ≡ ok (map vector texts)
    unfolding embed_chunk read_answer
    embed_chunk_honest w texts =
        rw (honest w texts, length-map raw texts, ==_refl (length texts), map-map texts)

    embed_from_honest :
        (n : ℕ) (w : W) (rest : List Text) (out : List Vector)
        → length rest ≤ n
        → (embed_from post narrow n w rest out).1 ≡ ok (out ++ map vector rest)
    unfolding embed_from
    embed_from_honest zero w [] out h = rw (append-nil out)
    embed_from_honest zero w (t ∷ rest) out h = ground arith
    embed_from_honest (suc n) w [] out h = rw (append-nil out)
    embed_from_honest (suc n) w (t ∷ rest) out h =
        let chunk = take max_batch_size (t ∷ rest) in
        let left = drop max_batch_size (t ∷ rest) in
        rw (embed_chunk_honest w chunk, embed_from)
          (embed_from_honest n _ left (out ++ map vector chunk)
              (omega (arith, length-drop max_batch_size (t ∷ rest)))
            ∙ ap ok (append_assoc out _ _ ∙ ap (◌++◌ out) (split (t ∷ rest))))
      where
        split :
            (texts : List Text)
            → map vector (take max_batch_size texts) ++ map vector (drop max_batch_size texts)
              ≡ map vector texts
        split texts =
            sym (map-append vector _ _) ∙ ap (map vector) (take-append-drop max_batch_size texts)

    embed_each_honest :
        (embed : W → Text → W × Result Unit Vector)
        → ((w : W) (t : Text) → (embed w t).1 ≡ ok (vector t))
        → (w : W) (i : ℕ) (rest : List Text) (out : List Vector)
        → (embed_each embed w i rest out).1 ≡ ok (out ++ map vector rest)
    unfolding embed_each
    embed_each_honest embed single w i [] out = rw (append-nil out)
    embed_each_honest embed single w i (t ∷ rest) out =
        rw (single w t, embed_each)
          (embed_each_honest embed single (embed w t).0 (suc i) rest (out ++ (vector t ∷ []))
            ∙ ap ok (append_assoc out _ _))

    -- A provider that answers every request with a vector for each text gives, in batches, the
    -- vectors in the order of the texts, and the same result as one that gives these vectors one
    -- text at a time.
    pub embed_batch-eq-embed_each :
        (embed : W → Text → W × Result Unit Vector)
        → ((w : W) (t : Text) → (embed w t).1 ≡ ok (vector t))
        → (w : W) (texts : List Text)
        → ((embed_batch post narrow w texts).1 ≡ ok (map vector texts))
          × ((embed_each embed w 0 texts []).1 ≡ (embed_batch post narrow w texts).1)
    unfolding embed_batch
    embed_batch-eq-embed_each embed single w texts =
        let batch = embed_from_honest (length texts) w texts [] (omega arith) in
        (batch, embed_each_honest embed single w 0 texts [] ∙ sym batch)

-- ===== src/Retrieval/Merge/Union.antt =====
-- Which memories are merged.
use context.Prelude.{
  ℕ, ◌<◌, ◌≡◌, refl, sym, ap, ◌∙◌, List, [], ◌∷◌, Bool, false, ◌&&◌, ◌||◌, Bool-cases, inl, inr,
  arith, All, All-imp, ltb, ◌==◌, ==_iff,
}
use context.Ranking.{Floats, Candidate}
use context.Retrieval.{Node, Fusion}
use context.Retrieval.Merge.{
  id_in, ids_of, node_ids, put, add, add_keyword_results, add_vector_results, add_entity_results,
  union, insert_by_id, sort_by_id, passes, gated, of_node, merge_results,
}

module _ (F : Floats) where
  abbrev has : ℕ → List (Candidate F) → Bool
  has i cs = id_in i (ids_of cs)

  put-has :
      (i : ℕ) (c : Candidate F) (cs : List (Candidate F))
      → has i (put F c cs) ≡ (i == c.id) || has i cs
  unfolding put id_in ids_of
  put-has i c [] = refl
  put-has i c (d ∷ cs) =
      ground (arith, put-has i c cs, ==_iff c.id d.id, ==_iff i c.id, ==_iff i d.id)

  add-has :
      (i : ℕ) (c : Candidate F) (cs : List (Candidate F))
      → has i (add F c cs) ≡ ((i == c.id) || has i cs)
  unfolding add
  add-has i c cs = elim (Bool-cases (has c.id cs)) [
    | inl e ↦ rw e (elim (Bool-cases (i == c.id)) [
      | inl y ↦ rw (y, (==_iff i c.id).0 y, e) refl
      | inr y ↦ rw y refl
    ])
    | inr e ↦ rw e (put-has i c cs)
  ]

  add_keyword_results-has :
      (i : ℕ) (seen cs : List (Candidate F))
      → has i (add_keyword_results F seen cs) ≡ (has i seen || has i cs)
  unfolding add_keyword_results id_in ids_of
  add_keyword_results-has i seen [] = ground arith
  add_keyword_results-has i seen (c ∷ cs) =
      ground (arith, add_keyword_results-has i (put F c seen) cs, put-has i c seen)

  add_vector_results-has :
      (i : ℕ) (seen cs : List (Candidate F))
      → has i (add_vector_results F seen cs) ≡ (has i seen || has i cs)
  unfolding add_vector_results id_in ids_of
  add_vector_results-has i seen [] = ground arith
  add_vector_results-has i seen (c ∷ cs) =
      let c' = record c { relevance = F.decimal 0 1 } in
      ground (arith, add_vector_results-has i (add F c' seen) cs, add-has i c' seen)

  add_entity_results-has :
      (i : ℕ) (seen : List (Candidate F)) (ns : List Node)
      → has i (add_entity_results F seen ns) ≡ (has i seen || id_in i (node_ids ns))
  unfolding add_entity_results id_in node_ids
  add_entity_results-has i seen [] = ground arith
  add_entity_results-has i seen (n ∷ ns) =
      ground (
        arith,
        add_entity_results-has i (add F (of_node F n) seen) ns,
        add-has i (of_node F n) seen,
      )

  union-has :
      (i : ℕ) (graph vector : List (Candidate F)) (entity : List Node)
      → has i (union F graph vector entity)
        ≡ (has i graph || has i vector || id_in i (node_ids entity))
  unfolding union
  union-has i graph vector entity =
      let seen = add_keyword_results F [] graph in
      ground (
        arith,
        add_entity_results-has i (add_vector_results F seen vector) entity,
        add_vector_results-has i seen vector,
        add_keyword_results-has i [] graph,
      )

  -- Each id is met once.
  abbrev Once : List (Candidate F) → Type 0
  Once [] = Unit
  Once (c ∷ cs) = (has c.id cs ≡ false) × Once cs

  put-Once : (c : Candidate F) (cs : List (Candidate F)) → Once cs → Once (put F c cs)
  unfolding put id_in ids_of
  put-Once c [] h = (refl, tt)
  put-Once c (d ∷ cs) h =
      let rest = put-Once c cs h.1 in
      elim (Bool-cases (c.id == d.id)) [
        | inl e ↦ rw e (rw (sym ((==_iff c.id d.id).0 e)) at h.0, h.1)
        | inr e ↦
            rw e
              (ground (arith, put-has d.id c cs, h.0, e, ==_iff c.id d.id, ==_iff d.id c.id), rest)
      ]

  add-Once : (c : Candidate F) (cs : List (Candidate F)) → Once cs → Once (add F c cs)
  unfolding add
  add-Once c cs h = elim (Bool-cases (has c.id cs)) [
    | inl e ↦ rw e h
    | inr e ↦ rw e (put-Once c cs h)
  ]

  add_keyword_results-Once :
      (seen cs : List (Candidate F)) → Once seen → Once (add_keyword_results F seen cs)
  unfolding add_keyword_results
  add_keyword_results-Once seen [] h = h
  add_keyword_results-Once seen (c ∷ cs) h =
      add_keyword_results-Once (put F c seen) cs (put-Once c seen h)

  add_vector_results-Once :
      (seen cs : List (Candidate F)) → Once seen → Once (add_vector_results F seen cs)
  unfolding add_vector_results
  add_vector_results-Once seen [] h = h
  add_vector_results-Once seen (c ∷ cs) h =
      let c' = record c { relevance = F.decimal 0 1 } in
      add_vector_results-Once (add F c' seen) cs (add-Once c' seen h)

  add_entity_results-Once :
      (seen : List (Candidate F)) (ns : List Node) → Once seen → Once (add_entity_results F seen ns)
  unfolding add_entity_results
  add_entity_results-Once seen [] h = h
  add_entity_results-Once seen (n ∷ ns) h =
      add_entity_results-Once (add F (of_node F n) seen) ns (add-Once (of_node F n) seen h)

  -- The order of the merged list.
  abbrev Above : ℕ → List (Candidate F) → Type 0
  Above i cs = All (λ (d : Candidate F). i < d.id) cs

  abbrev pub Increasing : List (Candidate F) → Type 0
  Increasing [] = Unit
  Increasing (c ∷ cs) = Above c.id cs × Increasing cs

  insert_by_id-has :
      (i : ℕ) (c : Candidate F) (cs : List (Candidate F))
      → has i (insert_by_id F c cs) ≡ ((i == c.id) || has i cs)
  unfolding insert_by_id id_in ids_of
  insert_by_id-has i c [] = refl
  insert_by_id-has i c (d ∷ cs) = ground (arith, insert_by_id-has i c cs)

  sort_by_id-has : (i : ℕ) (cs : List (Candidate F)) → has i (sort_by_id F cs) ≡ has i cs
  unfolding sort_by_id id_in ids_of
  sort_by_id-has i [] = refl
  sort_by_id-has i (c ∷ cs) =
      ground (arith, insert_by_id-has i c (sort_by_id F cs), sort_by_id-has i cs)

  insert_by_id-Above :
      (i : ℕ) (c : Candidate F) (cs : List (Candidate F))
      → i < c.id
      → Above i cs
      → Above i (insert_by_id F c cs)
  unfolding insert_by_id
  insert_by_id-Above i c [] p h = (p, tt)
  insert_by_id-Above i c (d ∷ cs) p h =
      let rest = insert_by_id-Above i c cs p h.1 in
      elim (Bool-cases (ltb d.id c.id)) [ inl e ↦ rw e (h.0, rest) | inr e ↦ rw e (p, h) ]

  insert_by_id-Increasing :
      (c : Candidate F) (cs : List (Candidate F))
      → has c.id cs ≡ false
      → Increasing cs
      → Increasing (insert_by_id F c cs)
  unfolding insert_by_id id_in ids_of
  insert_by_id-Increasing c [] n h = (tt, tt)
  insert_by_id-Increasing c (d ∷ cs) n h =
      let rest : has c.id cs ≡ false → Increasing (insert_by_id F c cs) =
        λ e. insert_by_id-Increasing c cs e h.1 in
      elim (Bool-cases (ltb d.id c.id)) [
        | inl e ↦
            rw e (insert_by_id-Above d.id c cs (ground (arith, e)) h.0, rest (ground (arith, n)))
        | inr e ↦
            let p : c.id < d.id = ground (arith, e, n, ==_iff c.id d.id) in
            rw e ((p, All-imp _ _ (λ x q. ground (arith, p, q)) cs h.0), h)
      ]

  sort_by_id-Increasing : (cs : List (Candidate F)) → Once cs → Increasing (sort_by_id F cs)
  unfolding sort_by_id
  sort_by_id-Increasing [] h = tt
  sort_by_id-Increasing (c ∷ cs) h =
      insert_by_id-Increasing c (sort_by_id F cs) (sort_by_id-has c.id cs ∙ h.0)
        (sort_by_id-Increasing cs h.1)

  module _ (graph vector : List (Candidate F)) (entity : List Node)
      (entity_overlap : List (ℕ × F.Float)) (full_match : F.Float) (fusion : Fusion F) where
    abbrev gate : ℕ → Bool
    gate i = passes F graph vector entity entity_overlap full_match fusion i

    abbrev kept : List (Candidate F) → List (Candidate F)
    kept cs = gated F graph vector entity entity_overlap full_match fusion cs

    gated-has : (i : ℕ) (cs : List (Candidate F)) → has i (kept cs) ≡ (has i cs && gate i)
    unfolding gated id_in ids_of
    gated-has i [] = refl
    gated-has i (c ∷ cs) =
        let rest = gated-has i cs in
        elim (Bool-cases (i == c.id)) [
          | inl e ↦ ground (arith, e, rest, ap gate ((==_iff i c.id).0 e))
          | inr e ↦ ground (arith, e, rest)
        ]

    gated-Once : (cs : List (Candidate F)) → Once cs → Once (kept cs)
    unfolding gated
    gated-Once [] h = tt
    gated-Once (c ∷ cs) h = elim (Bool-cases (gate c.id)) [
      | inl e ↦ rw e (ground (arith, gated-has c.id cs, h.0), gated-Once cs h.1)
      | inr e ↦ rw e (gated-Once cs h.1)
    ]

    -- The list is in the order of the ids, each of them once, and has exactly those that a retriever
    -- found and that pass the semantic gate.
    abbrev pub Merges : List (Candidate F) → Type 0
    Merges results =
        Increasing results
        × ((i : ℕ)
            → id_in i (ids_of results) ≡ (
                (id_in i (ids_of graph) || id_in i (ids_of vector) || id_in i (node_ids entity))
                && passes F graph vector entity entity_overlap full_match fusion i))

    -- The merged list is in the order of the ids, each of them once, and has exactly those that a
    -- retriever found and that pass the semantic gate.
    pub merge_results-Merges :
        Merges (merge_results F graph vector entity entity_overlap full_match fusion)
    unfolding merge_results
    merge_results-Merges =
        let seen = union F graph vector entity in
        (
          sort_by_id-Increasing (kept seen) (
              gated-Once seen (
                unfold union in
                add_entity_results-Once _ entity
                  (add_vector_results-Once _ vector (add_keyword_results-Once [] graph tt)))),
          λ i. ground (
            arith,
            sort_by_id-has i (kept seen),
            gated-has i seen,
            union-has i graph vector entity,
          ),
        )

-- ===== src/Ingest/Supersede.antt =====
-- Which edges a stored memory draws to what it contradicts.
use context.Prelude.{
  ℕ, ◌≤◌, ◌≡◌, ◌⊎◌, true, false, refl, List, [], ◌∷◌, ok, Member, Bool-cases, Result-cases, ap, inl,
  inr, arith, All, All-take, length, length-take, ltb, none, some, All-of_members,
}
use context.Text.{Unicode}
use context.Model.Memory.{Memory, semantic, type_eq, supersedes}
use context.Ranking.{Floats}
use context.Extraction.Contradiction.{Contradiction, detect_contradictions}
use context.Extraction.Contradiction.Evidence.{detect_pair-Supports}
use context.Extraction.Contradiction.Detection.{Comparable, Found, detect_contradictions-Member_iff}
use context.Ingest.{
  Edge, Embedder, Engine, max_supersedes_per_store, contradiction_candidates, insert_edge,
  sort_edges, supersedes_edges, cap, write_edges, detect_and_supersede,
}

module _ {F : Floats} where
  insert_edge-All :
      (P : Edge F → Type 0) (e : Edge F) (es : List (Edge F))
      → P e
      → All P es
      → All P (insert_edge e es)
  unfolding insert_edge
  insert_edge-All P e [] p h = (p, tt)
  insert_edge-All P e (x ∷ es) p h = elim (Bool-cases (F.gt x.weight e.weight)) [
    | inl y ↦ rw y (h.0, insert_edge-All P e es p h.1)
    | inr y ↦ rw y (p, h)
  ]

  sort_edges-All : (P : Edge F → Type 0) (es : List (Edge F)) → All P es → All P (sort_edges es)
  unfolding sort_edges
  sort_edges-All P [] h = tt
  sort_edges-All P (e ∷ es) h = insert_edge-All P e (sort_edges es) h.0 (sort_edges-All P es h.1)

  cap-All : (P : Edge F → Type 0) (es : List (Edge F)) → All P es → All P (cap es)
  unfolding cap
  cap-All P es h = elim (Bool-cases (ltb max_supersedes_per_store (length (sort_edges es)))) [
    | inl y ↦ rw (y, cap) (All-take P max_supersedes_per_store _ (sort_edges-All P es h))
    | inr y ↦ rw (y, cap) (sort_edges-All P es h)
  ]

  length-cap : (es : List (Edge F)) → length (cap es) ≤ max_supersedes_per_store
  unfolding cap
  length-cap es = ground (arith, length-take max_supersedes_per_store (sort_edges es))

abbrev noted_embedder : {L W E Vector : Type 0} → Embedder W E Vector → Embedder (W × L) E Vector
noted_embedder e = record {
  embed = λ (w, log) t. let (w', r) = e.embed w t in ((w', log), r);
  embed_batch = elim e.embed_batch [
    | none ↦ none
    | some f ↦ some (λ (w, log) ts. let (w', r) = f w ts in ((w', log), r))
  ];
}

-- The repository with a log of the lists of edges that it was given, the latest first.
abbrev pub noted :
    {F : Floats} {W E Vector : Type 0}
    → Engine F W E Vector
    → Engine F (W × List (List (Edge F))) E Vector
noted eng = record {
  create_memory = λ (w, log) m. let (w', r) = eng.create_memory w m in ((w', log), r);
  query_memories = λ (w, log) filter. let (w', r) = eng.query_memories w filter in ((w', log), r);
  rows_by_content_hash =
      λ (w, log) p hs. let (w', r) = eng.rows_by_content_hash w p hs in ((w', log), r);
  search_by_vector = λ (w, log) v p k. let (w', r) = eng.search_by_vector w v p k in ((w', log), r);
  create_edges = λ (w, log) es. let (w', r) = eng.create_edges w es in ((w', es ∷ log), r);
  update_memory_content =
      λ (w, log) i h t. let (w', r) = eng.update_memory_content w i h t in ((w', log), r);
  increment_access_counts =
      λ (w, log) ids. let (w', r) = eng.increment_access_counts w ids in ((w', log), r);
  store_embedding = λ (w, log) i p v. let (w', r) = eng.store_embedding w i p v in ((w', log), r);
  link_memory_to_session =
      λ (w, log) s m. let (w', r) = eng.link_memory_to_session w s m in ((w', log), r);
  link_entities = λ (w, log) m ns. let (w', r) = eng.link_entities w m ns in ((w', log), r);
  extractor = λ (w, log) t. let (w', r) = eng.extractor w t in ((w', log), r);
  embedder = elim eng.embedder [ none ↦ none | some e ↦ some (noted_embedder e) ];
  extract_entities = eng.extract_entities;
  now = λ (w, log). let (w', t) = eng.now w in ((w', log), t);
  new_id = λ (w, log). let (w', i) = eng.new_id w in ((w', log), i);
}

module _ {F : Floats} {W E Vector : Type 0} (eng : Engine F W E Vector) (u : Unicode) where
  -- An edge from the memory to another one that was read, semantic and of its project, with a
  -- confidence of one half at least.
  pub record Supersedes (mem : Memory) (existing : List Memory) (e : Edge F) : Type 0 where
    pub old : Memory
    pub member : Member old existing
    pub comparable : Comparable u mem old
    pub from : e.from_id ≡ mem.id
    pub to : e.to_id ≡ old.id
    pub relationship : e.relationship ≡ supersedes
    pub confidence : ℕ
    pub confident : 50 ≤ confidence
    pub weight : e.weight ≡ F.decimal confidence 100

  supersedes_edges-Supersedes :
      (mem : Memory) (existing : List Memory) (w : W × List (List (Edge F)))
      (cs : List Contradiction)
      → All (Found u mem existing) cs
      → All (Supersedes mem existing) (supersedes_edges (noted eng) w cs).1
        × ((supersedes_edges (noted eng) w cs).0.1 ≡ w.1)
  unfolding supersedes_edges
  supersedes_edges-Supersedes mem existing w [] h = (tt, refl)
  supersedes_edges-Supersedes mem existing w (c ∷ cs) h =
      let (old, x, y, found) = h.0 in
      let (same_new, same_old, evidence) = detect_pair-Supports u mem old c found in
      let here_w = supersedes_edges-Supersedes mem existing w cs h.1 in
      let (w1, id) = (noted eng).new_id w in
      let (w2, at) = (noted eng).now w1 in
      let later = supersedes_edges-Supersedes mem existing w2 cs h.1 in
      elim (Bool-cases (ltb c.confidence 50)) [
        | inl e ↦ rw e here_w
        | inr e ↦ rw e (
          (
            record {
              old = old;
              member = x;
              comparable = y;
              from = ap (λ (m : Memory). m.id) same_new;
              to = ap (λ (m : Memory). m.id) same_old;
              relationship = refl;
              confidence = c.confidence;
              confident = ground (arith, e);
              weight = refl;
            },
            later.0,
          ),
          later.1,
        )
      ]

  abbrev AllFound : Memory → List Memory → List Contradiction → Type 0
  AllFound mem existing cs = All (Found u mem existing) cs

  detected-Found :
      (mem : Memory) (existing : List Memory)
      → AllFound mem existing (detect_contradictions u mem existing)
  detected-Found mem existing =
      All-of_members _ _ (λ c x. ((detect_contradictions-Member_iff u mem existing c).0 x).1)

  -- One list of edges, when nothing had been written.
  abbrev pub Drawn : Memory → List Memory → List (List (Edge F)) → Type 0
  Drawn mem existing log =
      (es : List (Edge F)) × (log ≡ es ∷ [])
      × (length es ≤ max_supersedes_per_store)
      × All (Supersedes mem existing) es

  -- That for a semantic memory, and nothing for any other.
  abbrev pub Written : Memory → List Memory → List (List (Edge F)) → Type 0
  Written mem existing log =
      ((type_eq mem.type semantic ≡ false) × (log ≡ []))
      ⊎ ((type_eq mem.type semantic ≡ true) × Drawn mem existing log)

  write_edges-Drawn :
      (mem : Memory) (existing : List Memory) (s : (W × List (List (Edge F))) × List (Edge F))
      → All (Supersedes mem existing) s.1
      → s.0.1 ≡ []
      → Drawn mem existing (write_edges (noted eng) s).0.1
  unfolding write_edges
  write_edges-Drawn mem existing ((w, log), es) h e =
      let drawn : Drawn mem existing (cap es ∷ log) =
        (cap es, ap (λ l. cap es ∷ l) e, length-cap es, cap-All _ es h) in
      elim (Result-cases (eng.create_edges w (cap es)).1) [
        | inl (x, f) ↦ rw (f, write_edges) drawn
        | inr (x, f) ↦ rw (f, write_edges) drawn
      ]

  module _ (w : W) (mem : Memory) (existing : List Memory) where
    abbrev Read : Type 0
    Read =
        (eng.query_memories w (record {
          project_id = mem.project_id;
          types = semantic ∷ [];
          top_k = contradiction_candidates;
        })).1
        ≡ ok existing

    detect_and_supersede-Drawn :
        Read
        → type_eq mem.type semantic ≡ true
        → Drawn mem existing (detect_and_supersede (noted eng) u (w, []) mem).0.1
    unfolding detect_and_supersede
    detect_and_supersede-Drawn e t =
        let edges = supersedes_edges-Supersedes mem existing _ _ (detected-Found mem existing) in
        rw (t, e, detect_and_supersede) (write_edges-Drawn mem existing _ edges.0 edges.1)

    detect_and_supersede-other :
        type_eq mem.type semantic ≡ false
        → (detect_and_supersede (noted eng) u (w, []) mem).0.1 ≡ []
    unfolding detect_and_supersede
    detect_and_supersede-other t = rw (t, detect_and_supersede) refl

    -- If the memories can be read, a stored semantic memory is given edges to what it contradicts once:
    -- at most five, each from the memory to another one that was read, is semantic and is of its
    -- project, with a confidence of one half at least. A memory of another type is given none.
    pub detect_and_supersede-Written :
        (eng.query_memories w (record {
          project_id = mem.project_id;
          types = semantic ∷ [];
          top_k = contradiction_candidates;
        })).1
          ≡ ok existing
        → Written mem existing (detect_and_supersede (noted eng) u (w, []) mem).0.1
    detect_and_supersede-Written e = elim (Bool-cases (type_eq mem.type semantic)) [
      | inl t ↦ inr (t, detect_and_supersede-Drawn e t)
      | inr t ↦ inl (t, detect_and_supersede-other t)
    ]

-- ===== src/Service/Handlers/Calls.antt =====
-- What each handler does with a request.
use context.Prelude.{
  ℕ, List, [], ◌∷◌, Bool, true, false, ◌&&◌, ◌||◌, if◌then◌else◌, ltb, length, map, none, some,
  Result, ok, failed,
}
use context.Prelude.Int.{ℤ}
use context.Text.{Text, is_empty}
use context.Model.Memory.{MemoryType, RelationshipType, episodic, semantic, procedural}
use context.Ranking.{Floats}
use context.Service.Proto.{
  ProtoType, ProtoRelation, Memory, ContextEdge, MemoryWithContext, Edge, Session, ProfileFact,
  memory_type_to_proto, proto_to_memory_type, proto_to_rel_type, memory_to_proto,
  memory_with_context_to_proto, edge_to_proto, session_to_proto,
}
use context.Service.Handlers.{
  Code, invalid_argument, not_found, aborted, internal, SessionError, already_ended,
  session_not_found, session_failed, Backend, Request, Response, store_request, query_request,
  connect_request, delete_request, get_graph_request, extract_request, get_profile_request,
  start_session_request, end_session_request, stored, results, connected, deleted, graph, extracted,
  profile, session, max_int32, profile_memory_budget, profile_recency_days, clamp_request,
  known_types, edges_at,
}

module _ {F : Floats} {W E : Type 0} (b : Backend F W E) where
  abbrev pub Answer : Type 0
  Answer = W × Result Code (Response F)

  -- An error of the repository or of an engine.
  unfoldable pub or_internal : {A : Type 0} → (W → A → Answer) → W × Result E A → Answer
  or_internal f (w, failed e) = (w, failed internal)
  or_internal f (w, ok a) = f w a

  unfoldable pub respond : {A : Type 0} → (A → Response F) → W × Result E A → Answer
  respond f (w, failed e) = (w, failed internal)
  respond f (w, ok a) = (w, ok (f a))

  abbrev pub refuse : W → Answer
  refuse w = (w, failed invalid_argument)

  -- A session id that is given and is malformed refuses the request; one that is not given is the nil
  -- UUID.
  unfoldable pub with_session : W → Text → (ℕ → Answer) → Answer
  with_session w session_id f =
      if is_empty session_id
      then f 0
      else (elim (b.parse_id session_id) [ none ↦ refuse w | some id ↦ f id ])

  unfoldable pub store_memory : W → Text → MemoryType → Text → List Text → Text → Answer
  unfolding with_session memory_to_proto
  store_memory w content type project_id tags session_id =
      let (w1, id) = b.new_id w in
      let (w2, created_at) = b.now w1 in
      let mem : Memory F = record {
        id = id;
        content = content;
        type = type;
        project_id = project_id;
        tags = tags;
        created_at = created_at;
        access_count = 0;
        decay_score = F.decimal 1 1;
      } in
      with_session w2 session_id
        (λ s. respond (λ done. stored (memory_to_proto b.id_text mem)) (b.store w2 mem s))

  unfoldable pub handle_store : W → Text → ProtoType → Text → List Text → Text → Answer
  unfolding proto_to_memory_type store_memory
  handle_store w content type project_id tags session_id =
      if is_empty content
      then refuse w
      else if is_empty project_id
      then refuse w
      else (elim (proto_to_memory_type type) [
        | none ↦ refuse w
        | some t ↦ store_memory w content t project_id tags session_id
      ])

  -- An error of the context edges is an empty map.
  unfoldable pub or_no_context :
      W × Result E (List (ℕ × List (ContextEdge F))) → W × List (ℕ × List (ContextEdge F))
  or_no_context (w, failed e) = (w, [])
  or_no_context (w, ok edges) = (w, edges)

  unfoldable pub with_context :
      List (ℕ × List (ContextEdge F)) → MemoryWithContext F → MemoryWithContext F
  unfolding edges_at
  with_context table r = record r { context_edges = edges_at r.memory.id table }

  unfoldable pub serve_results : W → List (MemoryWithContext F) → Answer
  unfolding or_no_context with_context memory_with_context_to_proto
  serve_results w rs =
      let ids = map (λ (r : MemoryWithContext F). r.memory.id) rs in
      let (w1, table) = or_no_context (b.get_context_edges w ids) in
      let w2 = (b.increment_access_counts w1 ids).0 in
      (
        w2,
        ok (results (map (memory_with_context_to_proto b.id_text) (map (with_context table) rs))),
      )

  unfoldable pub handle_query : W → Text → Text → List ProtoType → ℤ → Answer
  unfolding known_types or_internal serve_results
  handle_query w query project_id types top_k =
      or_internal serve_results (b.retrieve w query project_id (known_types types) top_k)

  unfoldable pub or_not_found : (W → Answer) → W × Result E (Memory F) → Answer
  or_not_found f (w, failed e) = (w, failed not_found)
  or_not_found f (w, ok m) = f w

  unfoldable pub connect_memories : W → ℕ → ℕ → F.Float → RelationshipType → Answer
  unfolding respond edge_to_proto
  connect_memories w from_id to_id weight relationship =
      let (w1, id) = b.new_id w in
      let (w2, created_at) = b.now w1 in
      let edge : Edge F = record {
        id = id;
        from_id = from_id;
        to_id = to_id;
        relationship = relationship;
        weight = if F.ge (F.decimal 0 1) weight then F.decimal 1 1 else weight;
        created_at = created_at;
      } in
      respond (λ e. connected (edge_to_proto b.id_text e)) (b.create_edge w2 edge)

  unfoldable pub connect_related : W → ℕ → ℕ → F.Float → ProtoRelation → Answer
  unfolding proto_to_rel_type connect_memories
  connect_related w from_id to_id weight relation = elim (proto_to_rel_type relation) [
    | none ↦ refuse w
    | some r ↦ connect_memories w from_id to_id weight r
  ]

  unfoldable pub connect_existing : W → ℕ → ℕ → F.Float → ProtoRelation → Answer
  unfolding or_not_found connect_related
  connect_existing w from_id to_id weight relation =
      or_not_found
        (λ w1.
          or_not_found (λ w2. connect_related w2 from_id to_id weight relation)
            (b.get_memory w1 to_id))
        (b.get_memory w from_id)

  -- An id that is malformed refuses the request.
  unfoldable pub with_id : W → Text → (ℕ → Answer) → Answer
  with_id w text f = elim (b.parse_id text) [ none ↦ refuse w | some id ↦ f id ]

  unfoldable pub handle_connect : W → Text → Text → ProtoRelation → F.Float → Answer
  unfolding with_id connect_existing
  handle_connect w from_id to_id relation weight =
      if is_empty from_id || is_empty to_id
      then refuse w
      else with_id w from_id
          (λ from. with_id w to_id (λ to. connect_existing w from to weight relation))

  unfoldable pub handle_delete : W → Text → Answer
  unfolding with_id respond
  handle_delete w id =
      if is_empty id
      then refuse w
      else with_id w id (λ i. respond (λ done. deleted) (b.delete_memory w i))

  unfoldable pub handle_get_graph : W → Text → Answer
  unfolding with_id respond memory_to_proto edge_to_proto
  handle_get_graph w center_id =
      if is_empty center_id
      then refuse w
      else with_id w center_id (λ center.
        respond
          (λ (sub : List (Memory F) × List (Edge F)).
            graph (map (memory_to_proto b.id_text) sub.0) (map (edge_to_proto b.id_text) sub.1))
          (b.get_subgraph w center))

  -- A malformed session id is the nil UUID here.
  unfoldable pub session_or_nil : Text → ℕ
  session_or_nil session_id =
      if is_empty session_id then 0 else (elim (b.parse_id session_id) [ none ↦ 0 | some id ↦ id ])

  unfoldable pub handle_extract : W → Text → Text → Text → Answer
  unfolding session_or_nil respond memory_to_proto
  handle_extract w conversation project_id session_id =
      if is_empty conversation
      then refuse w
      else if is_empty project_id
      then refuse w
      else respond
          (λ (r : List (Memory F) × ℕ).
            extracted (map (memory_to_proto b.id_text) r.0)
              (if ltb max_int32 r.1 then max_int32 else r.1))
          (b.extract w conversation project_id (session_or_nil session_id))

  abbrev pub fact_of : Memory F → ProfileFact F
  fact_of m = record {
    content = m.content;
    type = memory_type_to_proto m.type;
    confidence = m.decay_score;
    tags = m.tags;
  }

  abbrev pub is_static : MemoryType → Bool
  is_static semantic = true
  is_static procedural = true
  is_static _ = false

  abbrev pub is_episodic : MemoryType → Bool
  is_episodic episodic = true
  is_episodic _ = false

  unfoldable pub static_facts : List (Memory F) → List (ProfileFact F)
  static_facts [] = []
  static_facts (m ∷ ms) =
      let rest = static_facts ms in if is_static m.type then fact_of m ∷ rest else rest

  unfoldable pub dynamic_facts : ℕ → List (Memory F) → List (ProfileFact F)
  dynamic_facts cutoff [] = []
  dynamic_facts cutoff (m ∷ ms) =
      let rest = dynamic_facts cutoff ms in
      if is_episodic m.type && ltb cutoff m.created_at then fact_of m ∷ rest else rest

  unfoldable pub serve_profile : ℤ → W → List (Memory F) → Answer
  unfolding static_facts dynamic_facts clamp_request
  serve_profile recency_days w ms =
      let (w1, now) = b.now w in
      let cutoff = b.days_before now (profile_recency_days recency_days) in
      (w1, ok (profile (static_facts ms) (dynamic_facts cutoff ms) (length ms)))

  unfoldable pub handle_get_profile : W → Text → ℤ → ℤ → Answer
  unfolding or_internal serve_profile clamp_request
  handle_get_profile w project_id max_memories recency_days =
      if is_empty project_id
      then refuse w
      else or_internal (serve_profile recency_days) (
          b.query_memories w
            (record { project_id = project_id; top_k = profile_memory_budget max_memories }))

  unfoldable pub handle_start_session : W → Text → Text → Answer
  unfolding respond session_to_proto
  handle_start_session w project_id agent_id =
      let (w1, id) = b.new_id w in
      let (w2, started_at) = b.now w1 in
      let sess : Session = record {
        id = id;
        project_id = project_id;
        agent_id = agent_id;
        started_at = started_at;
        ended_at = none;
      } in
      if is_empty project_id
      then refuse w
      else if is_empty agent_id
      then refuse w
      else respond (λ done. session (session_to_proto b.id_text sess)) (b.create_session w2 sess)

  unfoldable pub after_end : W × Result (SessionError E) Session → Answer
  unfolding session_to_proto
  after_end (w, failed already_ended) = (w, failed aborted)
  after_end (w, failed session_not_found) = (w, failed not_found)
  after_end (w, failed (session_failed e)) = (w, failed internal)
  after_end (w, ok sess) = (w, ok (session (session_to_proto b.id_text sess)))

  unfoldable pub handle_end_session : W → Text → Answer
  unfolding with_id after_end
  handle_end_session w id =
      if is_empty id then refuse w else with_id w id (λ i. after_end (b.end_session w i))

  -- The handler of each request.
  unfoldable pub handle : W → Request F → Answer
  unfolding handle_store handle_query handle_connect handle_delete handle_get_graph handle_extract
      handle_get_profile handle_start_session handle_end_session
  handle w (store_request content type project_id tags session_id) =
      handle_store w content type project_id tags session_id
  handle w (query_request query project_id types top_k) =
      handle_query w query project_id types top_k
  handle w (connect_request from_id to_id relation weight) =
      handle_connect w from_id to_id relation weight
  handle w (delete_request id) = handle_delete w id
  handle w (get_graph_request center_id) = handle_get_graph w center_id
  handle w (extract_request conversation project_id session_id) =
      handle_extract w conversation project_id session_id
  handle w (get_profile_request project_id max_memories recency_days) =
      handle_get_profile w project_id max_memories recency_days
  handle w (start_session_request project_id agent_id) = handle_start_session w project_id agent_id
  handle w (end_session_request id) = handle_end_session w id

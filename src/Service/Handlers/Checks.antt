-- ===== src/Service/Handlers/Checks.antt =====
-- Which requests are refused for their arguments.
use context.Prelude.{
  ℕ, ◌≡◌, ◌≢◌, refl, List, Bool, true, false, ◌&&◌, ◌||◌, not, Bool-cases, inl, inr, arith, Option,
  none, some, Result, ok, failed,
}
use context.Prelude.Int.{ℤ}
use context.Text.{Text, is_empty}
use context.Model.Memory.{MemoryType}
use context.Ranking.{Floats}
use context.Service.Proto.{
  ProtoRelation, Memory, MemoryWithContext, Session, proto_to_memory_type, proto_to_rel_type,
}
use context.Service.Handlers.{
  Code, invalid_argument, not_found, aborted, internal, SessionError, already_ended,
  session_not_found, session_failed, Backend, Request, Response, store_request, query_request,
  connect_request, delete_request, get_graph_request, extract_request, get_profile_request,
  start_session_request, end_session_request,
}
use context.Service.Handlers.Calls.{
  Answer, respond, or_internal, with_session, store_memory, handle_store, serve_results,
  handle_query, or_not_found, connect_memories, connect_related, connect_existing, with_id,
  handle_connect, handle_delete, handle_get_graph, handle_extract, serve_profile,
  handle_get_profile, handle_start_session, after_end, handle_end_session, handle,
}

abbrev pub is_some {ℓ} : {A : Type ℓ} → Option A → Bool
is_some none = false
is_some (some a) = true

module _ {F : Floats} {W E : Type 0} (b : Backend F W E) where
  abbrev pub parses : Text → Bool
  parses t = not (is_empty t) && is_some (b.parse_id t)

  -- The required texts are there, the ids are ids, and the types are known. A session id may be left
  -- out, and that of `Extract` may be anything.
  abbrev pub is_well_formed : Request F → Bool
  is_well_formed (store_request content type project_id tags session_id) =
      not (is_empty content)
      && not (is_empty project_id)
      && is_some (proto_to_memory_type type)
      && (is_empty session_id || is_some (b.parse_id session_id))
  is_well_formed (query_request query project_id types top_k) = true
  is_well_formed (connect_request from_id to_id relation weight) =
      parses from_id && parses to_id && is_some (proto_to_rel_type relation)
  is_well_formed (delete_request id) = parses id
  is_well_formed (get_graph_request center_id) = parses center_id
  is_well_formed (extract_request conversation project_id session_id) =
      not (is_empty conversation) && not (is_empty project_id)
  is_well_formed (get_profile_request project_id max_memories recency_days) =
      not (is_empty project_id)
  is_well_formed (start_session_request project_id agent_id) =
      not (is_empty project_id) && not (is_empty agent_id)
  is_well_formed (end_session_request id) = parses id

  -- The arguments are not what the answer finds fault with.
  abbrev pub Served : W × Result Code (Response F) → Type 0
  Served a = a.1 ≢ failed invalid_argument

  ok-Served : (w : W) (r : Response F) → Served (w, ok r)
  ok-Served w r = λ (x : ok r ≡ failed invalid_argument). cc

  internal-Served : (w : W) → Served (w, failed internal)
  internal-Served w = λ (x : failed internal ≡ failed invalid_argument). cc

  not_found-Served : (w : W) → Served (w, failed not_found)
  not_found-Served w = λ (x : failed not_found ≡ failed invalid_argument). cc

  respond-Served : {A : Type 0} (f : A → Response F) (r : W × Result E A) → Served (respond b f r)
  unfolding respond
  respond-Served f (w, failed e) = internal-Served w
  respond-Served f (w, ok a) = ok-Served w (f a)

  some_of : {A : Type 0} (r : Option A) → is_some r ≡ true → (a : A) × (r ≡ some a)
  some_of none h = cc
  some_of (some a) h = (a, refl)

  id_of : (t : Text) → parses t ≡ true → (is_empty t ≡ false) × (i : ℕ) × (b.parse_id t ≡ some i)
  id_of t h = let (i, p) = some_of (b.parse_id t) (ground (arith, h)) in (ground (arith, h), i, p)

  store_memory-Served :
      (w : W) (content : Text) (type : MemoryType) (project_id : Text) (tags : List Text)
      (session_id : Text)
      → (is_empty session_id || is_some (b.parse_id session_id)) ≡ true
      → Served (store_memory b w content type project_id tags session_id)
  unfolding store_memory with_session
  store_memory-Served w content type project_id tags session_id h =
      elim (Bool-cases (is_empty session_id)) [
        | inl e ↦ rw e (respond-Served _ _)
        | inr e ↦
            let (i, p) = some_of (b.parse_id session_id) (ground (arith, h, e)) in
            rw (e, p) (respond-Served _ _)
      ]

  serve_results-Served :
      (r : W × Result E (List (MemoryWithContext F))) → Served (or_internal b (serve_results b) r)
  unfolding or_internal serve_results
  serve_results-Served (w, failed e) = internal-Served w
  serve_results-Served (w, ok rs) = ok-Served (serve_results b w rs).0 _

  serve_profile-Served :
      (n : ℤ) (r : W × Result E (List (Memory F))) → Served (or_internal b (serve_profile b n) r)
  unfolding or_internal serve_profile
  serve_profile-Served n (w, failed e) = internal-Served w
  serve_profile-Served n (w, ok ms) = ok-Served (serve_profile b n w ms).0 _

  connect_related-Served :
      (w : W) (i j : ℕ) (v : F.Float) (r : ProtoRelation)
      → is_some (proto_to_rel_type r) ≡ true
      → Served (connect_related b w i j v r)
  unfolding connect_related connect_memories
  connect_related-Served w i j v r p =
      let (rel, e) = some_of (proto_to_rel_type r) p in rw (e, connect_related) (respond-Served _ _)

  or_not_found-Served :
      (f : W → Answer b) (r : W × Result E (Memory F))
      → ((w : W) → Served (f w))
      → Served (or_not_found b f r)
  unfolding or_not_found
  or_not_found-Served f (w, failed e) h = not_found-Served w
  or_not_found-Served f (w, ok m) h = h w

  connect_existing-Served :
      (w : W) (i j : ℕ) (v : F.Float) (r : ProtoRelation)
      → is_some (proto_to_rel_type r) ≡ true
      → Served (connect_existing b w i j v r)
  unfolding connect_existing
  connect_existing-Served w i j v r p =
      let related : W → Answer b = λ w1. connect_related b w1 i j v r in
      or_not_found-Served (λ w1. or_not_found b related (b.get_memory w1 j)) (b.get_memory w i)
        (λ w1.
          or_not_found-Served related (b.get_memory w1 j)
            (λ w2. connect_related-Served w2 i j v r p))

  after_end-Served : (r : W × Result (SessionError E) Session) → Served (after_end b r)
  unfolding after_end
  after_end-Served (w, failed already_ended) = λ (x : failed aborted ≡ failed invalid_argument). cc
  after_end-Served (w, failed session_not_found) = not_found-Served w
  after_end-Served (w, failed (session_failed e)) = internal-Served w
  after_end-Served (w, ok s) = ok-Served w _

  pub handle-Served :
      (w : W) (req : Request F) → is_well_formed req ≡ true → Served (handle b w req)
  unfolding handle handle_store handle_query handle_connect handle_delete handle_get_graph
      handle_extract handle_get_profile handle_start_session handle_end_session with_id
  handle-Served w (store_request content type project_id tags session_id) h =
      let e1 : is_empty content ≡ false = ground (arith, h) in
      let e2 : is_empty project_id ≡ false = ground (arith, h) in
      let (t, e3) = some_of (proto_to_memory_type type) (ground (arith, h)) in
      rw (e1, e2, e3)
        (store_memory-Served w content t project_id tags session_id (ground (arith, h)))
  handle-Served w (query_request query project_id types top_k) h = serve_results-Served _
  handle-Served w (connect_request from_id to_id relation weight) h =
      let (e1, i, p) = id_of from_id (ground (arith, h)) in
      let (e2, j, q) = id_of to_id (ground (arith, h)) in
      rw (e1, e2, p, with_id, q, with_id)
        (connect_existing-Served w i j weight relation (ground (arith, h)))
  handle-Served w (delete_request id) h =
      let (e, i, p) = id_of id h in rw (e, p, with_id) (respond-Served _ _)
  handle-Served w (get_graph_request center_id) h =
      let (e, i, p) = id_of center_id h in rw (e, p, with_id) (respond-Served _ _)
  handle-Served w (extract_request conversation project_id session_id) h =
      let e1 : is_empty conversation ≡ false = ground (arith, h) in
      let e2 : is_empty project_id ≡ false = ground (arith, h) in rw (e1, e2) (respond-Served _ _)
  handle-Served w (get_profile_request project_id max_memories recency_days) h =
      let e : is_empty project_id ≡ false = ground (arith, h) in
      rw e (serve_profile-Served recency_days _)
  handle-Served w (start_session_request project_id agent_id) h =
      let e1 : is_empty project_id ≡ false = ground (arith, h) in
      let e2 : is_empty agent_id ≡ false = ground (arith, h) in rw (e1, e2) (respond-Served _ _)
  handle-Served w (end_session_request id) h =
      let (e, i, p) = id_of id h in rw (e, p, with_id) (after_end-Served _)

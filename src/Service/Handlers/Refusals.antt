-- ===== src/Service/Handlers/Refusals.antt =====
-- What a refused request leaves behind.
use context.Prelude.{
  ℕ, suc, ◌≡◌, ◌≢◌, ◌⊎◌, refl, List, true, false, ◌||◌, Bool-cases, Option-cases, inl, inr, arith,
  Option, none, some, Result, ok, failed, if◌then◌else◌,
}
use context.Text.{Text, is_empty}
use context.Model.Memory.{MemoryType}
use context.Ranking.{Floats}
use context.Service.Proto.{
  ProtoType, ProtoRelation, Memory, proto_to_memory_type, proto_to_rel_type,
}
use context.Service.Handlers.{
  Code, invalid_argument, not_found, Backend, Request, Response, store_request, query_request,
  connect_request, delete_request, get_graph_request, extract_request, get_profile_request,
  start_session_request, end_session_request,
}
use context.Service.Handlers.Calls.{
  refuse, with_session, store_memory, handle_store, or_not_found, connect_related, connect_existing,
  with_id, handle_connect, handle_delete, handle_get_graph, handle_extract, handle_get_profile,
  handle_start_session, handle_end_session, handle,
}
use context.Service.Handlers.Checks.{is_some, parses, is_well_formed, handle-Served}

-- The backend with a count of the calls that can write.
abbrev pub counted : {F : Floats} {W E : Type 0} → Backend F W E → Backend F (W × ℕ) E
counted b = record {
  parse_id = b.parse_id;
  id_text = b.id_text;
  days_before = b.days_before;
  new_id = λ (w, n). let (w', i) = b.new_id w in ((w', n), i);
  now = λ (w, n). let (w', t) = b.now w in ((w', n), t);
  store = λ (w, n) m s. let (w', r) = b.store w m s in ((w', suc n), r);
  extract = λ (w, n) c p s. let (w', r) = b.extract w c p s in ((w', suc n), r);
  retrieve = λ (w, n) q p ts k. let (w', r) = b.retrieve w q p ts k in ((w', n), r);
  get_context_edges = λ (w, n) is. let (w', r) = b.get_context_edges w is in ((w', n), r);
  increment_access_counts =
      λ (w, n) is. let (w', r) = b.increment_access_counts w is in ((w', suc n), r);
  get_memory = λ (w, n) i. let (w', r) = b.get_memory w i in ((w', n), r);
  create_edge = λ (w, n) e. let (w', r) = b.create_edge w e in ((w', suc n), r);
  delete_memory = λ (w, n) i. let (w', r) = b.delete_memory w i in ((w', suc n), r);
  get_subgraph = λ (w, n) i. let (w', r) = b.get_subgraph w i in ((w', n), r);
  query_memories = λ (w, n) filter. let (w', r) = b.query_memories w filter in ((w', n), r);
  create_session = λ (w, n) s. let (w', r) = b.create_session w s in ((w', suc n), r);
  end_session = λ (w, n) i. let (w', r) = b.end_session w i in ((w', suc n), r);
}

module _ {F : Floats} {W E : Type 0} (b : Backend F W E) where
  abbrev Counted : Type 0
  Counted = (W × ℕ) × Result Code (Response F)

  -- Nothing was written, and the answer says that an argument is wrong or that a memory is not there.
  abbrev pub Refused : Counted → Type 0
  Refused a = (a.0.1 ≡ 0) × ((a.1 ≡ failed invalid_argument) ⊎ (a.1 ≡ failed not_found))

  refuse-Refused : (w : W) → Refused (refuse (counted b) (w, 0))
  refuse-Refused w = (refl, inl refl)

  none_of : {A : Type 0} (r : Option A) → is_some r ≡ false → r ≡ none
  none_of none h = refl
  none_of (some a) h = cc

  with_id-Refused :
      (w : W) (t : Text) (f : ℕ → Counted)
      → is_some (b.parse_id t) ≡ false
      → Refused (with_id (counted b) (w, 0) t f)
  unfolding with_id
  with_id-Refused w t f h = rw (none_of (b.parse_id t) h, with_id) (refuse-Refused w)

  unless_id-Refused :
      (w : W) (t : Text) (f : ℕ → Counted)
      → parses b t ≡ false
      → Refused (if is_empty t then refuse (counted b) (w, 0) else with_id (counted b) (w, 0) t f)
  unless_id-Refused w t f h = elim (Bool-cases (is_empty t)) [
    | inl e ↦ rw e (refuse-Refused w)
    | inr e ↦ rw e (with_id-Refused w t f (ground (arith, h, e)))
  ]

  store_memory-Refused :
      (w : W) (content : Text) (type : MemoryType) (project_id : Text) (tags : List Text)
      (session_id : Text)
      → (is_empty session_id || is_some (b.parse_id session_id)) ≡ false
      → Refused (store_memory (counted b) (w, 0) content type project_id tags session_id)
  unfolding store_memory with_session
  store_memory-Refused w content type project_id tags session_id h =
      let e : is_empty session_id ≡ false = ground (arith, h) in
      rw (e, none_of (b.parse_id session_id) (ground (arith, h)), store_memory) (refl, inl refl)

  or_not_found-Refused :
      (f : W × ℕ → Counted) (r : (W × ℕ) × Result E (Memory F))
      → r.0.1 ≡ 0
      → ((w : W) → Refused (f (w, 0)))
      → Refused (or_not_found (counted b) f r)
  unfolding or_not_found
  or_not_found-Refused f ((w, n), failed e) z h = (z, inr refl)
  or_not_found-Refused f ((w, n), ok m) z h = rw z (h w)

  connect_existing-Refused :
      (w : W) (i j : ℕ) (v : F.Float) (r : ProtoRelation)
      → is_some (proto_to_rel_type r) ≡ false
      → Refused (connect_existing (counted b) (w, 0) i j v r)
  unfolding connect_existing connect_related
  connect_existing-Refused w i j v r p =
      let c = counted b in
      let related : W × ℕ → Counted = λ w1. connect_related c w1 i j v r in
      let unrelated : (w1 : W) → Refused (related (w1, 0)) =
        λ w1. rw (none_of (proto_to_rel_type r) p, connect_related) (refuse-Refused w1) in
      or_not_found-Refused (λ w1. or_not_found c related (c.get_memory w1 j))
        (c.get_memory (w, 0) i) refl
        (λ w1. or_not_found-Refused related (c.get_memory (w1, 0) j) refl unrelated)

  handle_store-Refused :
      (w : W) (content : Text) (type : ProtoType) (project_id : Text) (tags : List Text)
      (session_id : Text)
      → is_well_formed b (store_request content type project_id tags session_id) ≡ false
      → Refused (handle_store (counted b) (w, 0) content type project_id tags session_id)
  unfolding handle_store
  handle_store-Refused w content type project_id tags session_id h =
      elim (Bool-cases (is_empty content)) [
        | inl e ↦ rw e (refuse-Refused w)
        | inr e ↦ (elim (Bool-cases (is_empty project_id)) [
          | inl e' ↦ rw (e, e') (refuse-Refused w)
          | inr e' ↦ (elim (Option-cases (proto_to_memory_type type)) [
            | inl t ↦ rw (e, e', t) (refuse-Refused w)
            | inr (mt, t) ↦
                rw (e, e', t)
                  (store_memory-Refused w content mt project_id tags session_id
                    (ground (arith, rw (e, e', t) at h)))
          ])
        ])
      ]

  handle_connect-Refused :
      (w : W) (from_id to_id : Text) (r : ProtoRelation) (v : F.Float)
      → is_well_formed b (connect_request from_id to_id r v) ≡ false
      → Refused (handle_connect (counted b) (w, 0) from_id to_id r v)
  unfolding handle_connect with_id
  handle_connect-Refused w from_id to_id r v h =
      elim (Bool-cases (is_empty from_id || is_empty to_id)) [
        | inl e ↦ rw e (refuse-Refused w)
        | inr e ↦ (elim (Option-cases (b.parse_id from_id)) [
          | inl p ↦ rw (e, p, with_id) (refuse-Refused w)
          | inr (i, p) ↦ (elim (Option-cases (b.parse_id to_id)) [
            | inl q ↦ rw (e, p, with_id, q, with_id) (refuse-Refused w)
            | inr (j, q) ↦
                rw (e, p, with_id, q, with_id)
                  (connect_existing-Refused w i j v r (ground (arith, rw (p, q) at h, e)))
          ])
        ])
      ]

  handle-Refused :
      (w : W) (req : Request F)
      → is_well_formed b req ≡ false
      → Refused (handle (counted b) (w, 0) req)
  unfolding handle handle_delete handle_get_graph handle_extract handle_get_profile
      handle_start_session handle_end_session
  handle-Refused w (store_request content type project_id tags session_id) h =
      handle_store-Refused w content type project_id tags session_id h
  handle-Refused w (query_request query project_id types top_k) h = cc
  handle-Refused w (connect_request from_id to_id relation weight) h =
      handle_connect-Refused w from_id to_id relation weight h
  handle-Refused w (delete_request id) h = unless_id-Refused w id _ h
  handle-Refused w (get_graph_request center_id) h = unless_id-Refused w center_id _ h
  handle-Refused w (extract_request conversation project_id session_id) h =
      elim (Bool-cases (is_empty conversation)) [
        | inl e ↦ rw e (refuse-Refused w)
        | inr e ↦
            let e' : is_empty project_id ≡ true = ground (arith, h, e) in
            rw (e, e') (refuse-Refused w)
      ]
  handle-Refused w (get_profile_request project_id max_memories recency_days) h =
      let e : is_empty project_id ≡ true = ground (arith, h) in rw e (refuse-Refused w)
  handle-Refused w (start_session_request project_id agent_id) h =
      elim (Bool-cases (is_empty project_id)) [
        | inl e ↦ rw e (refuse-Refused w)
        | inr e ↦
            let e' : is_empty agent_id ≡ true = ground (arith, h, e) in
            rw (e, e') (refuse-Refused w)
      ]
  handle-Refused w (end_session_request id) h = unless_id-Refused w id _ h

  -- A request is served or refused by its form: the required texts, ids, types and relation. A
  -- well-formed one is never answered with InvalidArgument; on any other nothing is written, and the
  -- answer is InvalidArgument or NotFound.
  pub handle-Checked :
      (w : W) (req : Request F)
      → if is_well_formed b req
        then ((handle b w req).1 ≢ failed invalid_argument)
        else (((handle (counted b) (w, 0) req).0.1 ≡ 0)
            × (((handle (counted b) (w, 0) req).1 ≡ failed invalid_argument)
                ⊎ ((handle (counted b) (w, 0) req).1 ≡ failed not_found)))
  handle-Checked w req = elim (Bool-cases (is_well_formed b req)) [
    | inl e ↦ rw e (handle-Served b w req e)
    | inr e ↦ rw e (handle-Refused w req e)
  ]

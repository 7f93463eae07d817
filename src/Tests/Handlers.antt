-- ===== src/Tests/Handlers.antt =====
-- Tests of the handlers.
use context.Prelude.{ℕ, suc, ◌≡◌, ◌≢◌, ◌⊎◌, refl, [], none, some, ok, failed, if◌then◌else◌}
use context.Prelude.Int.{pos}
use context.Text.{codes, is_empty}
use context.Service.Proto.{relation_unspecified, proto_to_rel_type}
use context.Service.Handlers.{
  Backend, Request, connect_request, invalid_argument, not_found, session_failed, clamp_request,
  profile_memory_budget, profile_recency_days,
}
use context.Service.Handlers.Calls.{handle}
use context.Service.Handlers.Checks.{is_well_formed}
use context.Service.Handlers.Refusals.{counted, handle-Checked}
use context.Tests.Ranking.{thousandths}

abbrev backend : Backend thousandths ℕ (Unit {0})
backend = record {
  parse_id = λ t. if is_empty t then none else some 7;
  id_text = λ i. codes "7";
  days_before = λ t d. t;
  new_id = λ w. (w, 9);
  now = λ w. (w, 5);
  store = λ w m s. (suc w, ok tt);
  extract = λ w c p s. (suc w, ok ([], 0));
  retrieve = λ w q p ts k. (w, ok []);
  get_context_edges = λ w is. (w, ok []);
  increment_access_counts = λ w is. (suc w, ok tt);
  get_memory = λ w i. (w, failed tt);
  create_edge = λ w e. (suc w, ok e);
  delete_memory = λ w i. (suc w, ok tt);
  get_subgraph = λ w i. (w, ok ([], []));
  query_memories = λ w filter. (w, ok []);
  create_session = λ w s. (suc w, ok tt);
  end_session = λ w i. (suc w, failed (session_failed tt));
}

abbrev unrelated : Request thousandths
unrelated = connect_request (codes "a") (codes "b") relation_unspecified 500

program : Unit {0}
unfolding clamp_request is_empty proto_to_rel_type
program = tt

budget_test : profile_memory_budget (pos 5000) ≡ 1000
unfolding program
budget_test = refl

recency_test : profile_recency_days (pos 0) ≡ 7
unfolding program
recency_test = refl

handle-Checked_example :
    if is_well_formed backend unrelated
    then ((handle backend 0 unrelated).1 ≢ failed invalid_argument)
    else (((handle (counted backend) (0, 0) unrelated).0.1 ≡ 0)
        × (((handle (counted backend) (0, 0) unrelated).1 ≡ failed invalid_argument)
            ⊎ ((handle (counted backend) (0, 0) unrelated).1 ≡ failed not_found)))
handle-Checked_example = handle-Checked backend 0 unrelated

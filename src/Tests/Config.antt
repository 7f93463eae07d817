-- ===== src/Tests/Config.antt =====
-- Tests of the settings.
use context.Prelude.{◌≡◌, refl, List, [], ◌∷◌, none, some, if◌then◌else◌}
use context.Prelude.Int.{negsuc}
use context.Text.{Text, codes, text_eq, is_empty, trim_space, index, has_prefix}
use context.Tests.{ascii}
use context.Config.{
  Env, atoi, digits, digits_from, positive, negative, renamed, not_an_integer,
  unknown_graph_signals, load, validate, get_env, get_env_int, check_renamed_env, renamed_line,
  renamed_name, split, split_env, trimmed_parts, port_problem, same_port_problem, int_eq,
  limit_problem, signals_problem, dim_problem,
}
use context.Config.Usable.{Usable}

abbrev variable_of : List (Text × Text) → Text → Text
variable_of [] key = []
variable_of ((k, v) ∷ vars) key =
    let rest = variable_of vars key in if text_eq k key then v else rest

abbrev moved : Env
moved = record {
  environ = codes "KORA_GRPC_PORT=6001" ∷ [];
  getenv = variable_of ((codes "KORA_GRPC_PORT", codes "6001") ∷ []);
}

abbrev mistaken : Env
mistaken = record {
  environ = codes "KORA_GRPC_PORT=80a" ∷ codes "CONTEXT0_X=1" ∷ codes "KORA_GRAPH_SIGNALS=of" ∷ [];
  getenv =
      variable_of
        ((codes "KORA_GRPC_PORT", codes "80a") ∷ (codes "KORA_GRAPH_SIGNALS", codes "of") ∷ []);
}

program : Unit {0}
unfolding load validate get_env get_env_int check_renamed_env renamed_line renamed_name split
    split_env trimmed_parts port_problem same_port_problem int_eq limit_problem signals_problem
    dim_problem atoi digits digits_from positive negative text_eq is_empty trim_space index
    has_prefix
program = tt

atoi_test : atoi (codes "-12") ≡ some (negsuc 11)
unfolding program
atoi_test = refl

atoi_limit_test : atoi (codes "9223372036854775808") ≡ none
unfolding program
atoi_limit_test = refl

mistaken_test :
    validate (load ascii [] mistaken).1 (load ascii [] mistaken).0
    ≡ some (
        renamed (codes "CONTEXT0_X") (codes "KORA_X")
        ∷ not_an_integer (codes "KORA_GRPC_PORT") (codes "80a")
        ∷ unknown_graph_signals (codes "of")
        ∷ [])
unfolding program
mistaken_test = refl

-- ===== src/Budget/Cli.antt =====
-- crates/token-budget-engine/src/main.rs: the command that reads a prompt and prints its budget. The
-- parsed command line, the file and JSON are arguments.
use inference_data_plane.Prelude.{ℕ, Option, none, some, List, Result, ok, err}
use inference_data_plane.Text.{Text, codes}
use inference_data_plane.Budget.{
  ChatMessage, Prompt, text, chat, BudgetPolicy, strict_reject, truncate_oldest,
  reserve_output_first, BudgetRequest, BudgetDecision, BudgetError, approx_token_counter,
  decide_budget,
}

pub data CliPolicy : Type 0 where
  cli_strict_reject cli_truncate_oldest cli_reserve_output_first : CliPolicy

-- The arguments, without the path of the input.
pub record Cli : Type 0 where
  pub model : Text
  pub context_limit : ℕ
  pub default_max_tokens : ℕ
  pub model_max_output_tokens : ℕ
  pub max_tokens : Option ℕ
  pub policy : CliPolicy

-- The arguments when none is given.
abbrev pub default_cli : Cli
default_cli = record {
  model = codes "local-vllm";
  context_limit = 4096;
  default_max_tokens = 256;
  model_max_output_tokens = 1024;
  max_tokens = none;
  policy = cli_strict_reject;
}

-- `BudgetPolicy::from`
unfoldable pub policy_from : CliPolicy → BudgetPolicy
policy_from cli_strict_reject = strict_reject
policy_from cli_truncate_oldest = truncate_oldest
policy_from cli_reserve_output_first = reserve_output_first

-- A file that is not a list of messages is a prompt as it stands.
unfoldable pub parse_prompt : (Text → Option (List ChatMessage)) → Text → Prompt
parse_prompt from_str raw = elim (from_str raw) [ some messages ↦ chat messages | none ↦ text raw ]

unfoldable pub request_of : (Text → Option (List ChatMessage)) → Cli → Text → BudgetRequest
unfolding parse_prompt policy_from
request_of from_str cli raw = record {
  prompt = parse_prompt from_str raw;
  requested_max_tokens = cli.max_tokens;
  policy = policy_from cli.policy;
  model = record {
    model = cli.model;
    context_limit = cli.context_limit;
    default_max_tokens = cli.default_max_tokens;
    max_output_tokens = cli.model_max_output_tokens;
  };
}

-- `main`: the text that is printed, or the error.
unfoldable pub run_cli :
    (Text → Option (List ChatMessage))
    → (BudgetDecision → Text)
    → (BudgetError → Text)
    → Cli
    → Result Text Text
    → Result Text Text
unfolding request_of
run_cli from_str to_string_pretty error_text cli (err e) = err e
run_cli from_str to_string_pretty error_text cli (ok raw) =
    elim (decide_budget approx_token_counter (request_of from_str cli raw)) [
      | ok decision ↦ ok (to_string_pretty decision)
      | err e ↦ err (error_text e)
    ]

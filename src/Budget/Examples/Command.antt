-- ===== src/Budget/Examples/Command.antt =====
-- Runs of the command of crates/token-budget-engine/src/main.rs.
use inference_data_plane.Prelude.{◌≡◌, refl, none, [], ok, err}
use inference_data_plane.Text.{codes}
use inference_data_plane.Budget.{by_policy, requested_tokens, strict_decision, decide_budget}
use inference_data_plane.Budget.Cli.{default_cli, policy_from, parse_prompt, request_of, run_cli}

unreadable :
    run_cli
      (λ raw. none)
      (λ decision. decision.reason)
      (λ e. [])
      default_cli
      (err (codes "no file"))
    ≡ err (codes "no file")
unfolding run_cli
unreadable = refl

plain_prompt :
    run_cli (λ raw. none) (λ decision. decision.model) (λ e. []) default_cli (ok (codes "one two"))
    ≡ ok (codes "local-vllm")
unfolding run_cli request_of parse_prompt policy_from decide_budget by_policy requested_tokens
    strict_decision codes
plain_prompt = refl

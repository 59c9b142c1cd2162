-- ===== src/Budget.antt =====
-- crates/token-budget-engine/src/lib.rs: the decision whether a prompt and its output fit the
-- model's context. `usize` is a 64-bit word.
pub mod Count
pub mod Policies
pub mod Truncation
pub mod Cli
pub mod Examples
use inference_data_plane.Prelude.{
  ℕ, ◌+◌, ◌-◌, min, String, ◌≡◌, Bool, true, false, ◌&&◌, Option, none, some, List, [], ◌∷◌, ◌++◌,
  map, ltb, leb, eqb, length, unwrap_or, add_u64, div_ceil_four, max, Result, ok, err,
  if◌then◌else◌,
}
use inference_data_plane.Text.{Text, codes}
use inference_data_plane.Text.Space.{split_whitespace}
use inference_data_plane.Text.Decimal.{show}

pub record ChatMessage : Type 0 where
  pub role : Text
  pub content : Text

pub data Prompt : Type 0 where
  text : Text → Prompt
  chat : List ChatMessage → Prompt

pub record ModelBudget : Type 0 where
  pub model : Text
  pub context_limit : ℕ
  pub default_max_tokens : ℕ
  pub max_output_tokens : ℕ

pub local_vllm : Text → ModelBudget
local_vllm model = record {
  model = model;
  context_limit = 4096;
  default_max_tokens = 256;
  max_output_tokens = 1024;
}

pub data BudgetPolicy : Type 0 where
  strict_reject truncate_oldest reserve_output_first : BudgetPolicy

pub record BudgetRequest : Type 0 where
  pub prompt : Prompt
  pub requested_max_tokens : Option ℕ
  pub policy : BudgetPolicy
  pub model : ModelBudget

pub record BudgetDecision : Type 0 where
  pub admitted : Bool
  pub reason : Text
  pub model : Text
  pub prompt_tokens : ℕ
  pub requested_max_tokens : ℕ
  pub admitted_max_tokens : ℕ
  pub available_generation_tokens : ℕ
  pub truncated_messages : ℕ
  pub prompt : Prompt

pub data BudgetError : Type 0 where
  invalid_context_limit invalid_max_output_tokens : BudgetError

-- The trait `TokenCounter`.
pub record TokenCounter : Type 0 where
  pub count_prompt : Prompt → ℕ
  pub count_text : Text → ℕ

-- `ApproxTokenCounter::count_text`
unfoldable pub count_text : Text → ℕ
count_text s = max (max (length (split_whitespace s)) (div_ceil_four (length s))) 1

-- One message of a chat costs four tokens more than its two texts.
unfoldable pub count_message : ChatMessage → ℕ
count_message m = add_u64 (add_u64 (count_text m.role) (count_text m.content)) 4

-- `Iterator::sum` on `usize`
unfoldable pub sum_from : ℕ → List ℕ → ℕ
sum_from acc [] = acc
sum_from acc (x ∷ xs) = sum_from (add_u64 acc x) xs

-- `ApproxTokenCounter::count_prompt`
unfoldable pub count_prompt : Prompt → ℕ
count_prompt (text s) = count_text s
count_prompt (chat messages) = add_u64 (sum_from 0 (map count_message messages)) 2

abbrev pub approx_token_counter : TokenCounter
approx_token_counter = record { count_prompt = count_prompt; count_text = count_text }

abbrev pub admit_when : Bool → ℕ → ℕ
admit_when admitted requested = if admitted then requested else 0

module _ (counter : TokenCounter) where
  pub strict_reason : Bool → ℕ → ℕ → ℕ → Text
  strict_reason admitted prompt_tokens requested limit =
      if admitted
      then codes "admitted"
      else codes "prompt_tokens ("
        ++ show prompt_tokens
        ++ codes ") + max_tokens ("
        ++ show requested
        ++ codes ") exceeds context_limit ("
        ++ show limit
        ++ codes ")"

  unfoldable pub strict_decision : BudgetRequest → ℕ → BudgetDecision
  strict_decision request requested =
      let prompt_tokens = counter.count_prompt request.prompt in
      let limit = request.model.context_limit in
      let admitted = leb (add_u64 prompt_tokens requested) limit in
      record {
        admitted = admitted;
        reason = strict_reason admitted prompt_tokens requested limit;
        model = request.model.model;
        prompt_tokens = prompt_tokens;
        requested_max_tokens = requested;
        admitted_max_tokens = admit_when admitted requested;
        available_generation_tokens = limit - prompt_tokens;
        truncated_messages = 0;
        prompt = request.prompt;
      }

  reserve_reason : Bool → ℕ → ℕ → Text
  reserve_reason admitted prompt_tokens prompt_budget =
      if admitted
      then codes "admitted with requested output reserved"
      else codes "prompt_tokens ("
        ++ show prompt_tokens
        ++ codes ") exceeds prompt budget after reserving output ("
        ++ show prompt_budget
        ++ codes ")"

  pub reserve_output_first_decision : BudgetRequest → ℕ → BudgetDecision
  reserve_output_first_decision request requested =
      let prompt_tokens = counter.count_prompt request.prompt in
      let limit = request.model.context_limit in
      let prompt_budget = limit - requested in
      let admitted = leb prompt_tokens prompt_budget in
      record {
        admitted = admitted;
        reason = reserve_reason admitted prompt_tokens prompt_budget;
        model = request.model.model;
        prompt_tokens = prompt_tokens;
        requested_max_tokens = requested;
        admitted_max_tokens = admit_when admitted requested;
        available_generation_tokens = limit - prompt_tokens;
        truncated_messages = 0;
        prompt = request.prompt;
      }

  -- The loop of `truncate_oldest`: the messages that are left, and how many were removed. The
  -- count stays below the number of messages, so it cannot wrap.
  pub truncate_loop : ℕ → ℕ → List ChatMessage → ℕ → List ChatMessage × ℕ
  truncate_loop requested limit [] truncated = ([], truncated)
  truncate_loop requested limit (m ∷ ms) truncated =
      let rest = truncate_loop requested limit ms (truncated + 1) in
      if ltb limit (add_u64 (counter.count_prompt (chat (m ∷ ms))) requested)
      then rest
      else (m ∷ ms, truncated)

  truncate_reason : Bool → ℕ → Text
  truncate_reason admitted truncated =
      if admitted && ltb 0 truncated
      then codes "admitted after truncating " ++ show truncated ++ codes " oldest messages"
      else if admitted
      then codes "admitted"
      else codes "request still exceeds context limit after truncating all messages"

  pub truncate_chat : BudgetRequest → ℕ → List ChatMessage × ℕ → BudgetDecision
  truncate_chat request requested (messages, truncated) =
      let limit = request.model.context_limit in
      let prompt_tokens = counter.count_prompt (chat messages) in
      let admitted = leb (add_u64 prompt_tokens requested) limit in
      record {
        admitted = admitted;
        reason = truncate_reason admitted truncated;
        model = request.model.model;
        prompt_tokens = prompt_tokens;
        requested_max_tokens = requested;
        admitted_max_tokens = admit_when admitted requested;
        available_generation_tokens = limit - prompt_tokens;
        truncated_messages = truncated;
        prompt = chat messages;
      }

  truncate_prompt : Prompt → BudgetRequest → ℕ → BudgetDecision
  truncate_prompt (text s) request requested = strict_decision request requested
  truncate_prompt (chat messages) request requested =
      truncate_chat request requested
        (truncate_loop requested request.model.context_limit messages 0)

  pub truncate_oldest_decision : BudgetRequest → ℕ → BudgetDecision
  unfolding truncate_prompt
  truncate_oldest_decision request requested = truncate_prompt request.prompt request requested

  unfoldable pub by_policy : BudgetPolicy → BudgetRequest → ℕ → BudgetDecision
  by_policy strict_reject request requested = strict_decision request requested
  by_policy reserve_output_first request requested = reserve_output_first_decision request requested
  by_policy truncate_oldest request requested = truncate_oldest_decision request requested

  -- The output that is asked for, at most what the model gives.
  unfoldable pub requested_tokens : BudgetRequest → ℕ
  requested_tokens request =
      min (unwrap_or request.requested_max_tokens request.model.default_max_tokens)
        request.model.max_output_tokens

  unfoldable pub decide_budget : BudgetRequest → Result BudgetError BudgetDecision
  unfolding by_policy
  decide_budget request =
      if eqb request.model.context_limit 0
      then err invalid_context_limit
      else if eqb request.model.max_output_tokens 0
      then err invalid_max_output_tokens
      else ok (by_policy request.policy request (requested_tokens request))

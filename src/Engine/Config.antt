-- ===== src/Engine/Config.antt =====
-- engine/loop_config.go. The bounds are natural numbers.
use ai_desktop_assistant.Common.{ℕ, String, Bool, true, ◌||◌, if◌then◌else◌, ltb, str_eq}

pub data AgentMode : Type 0 where
  mode_chat mode_agent : AgentMode

pub record LoopConfig : Type 0 where
  pub mode : AgentMode
  pub max_rounds : ℕ
  pub max_tool_calls_per_round : ℕ
  pub max_total_tool_calls : ℕ
  pub max_ai_retries : ℕ
  pub max_tool_retries : ℕ
  pub retry_delay_base_ms : ℕ
  pub max_token_budget : ℕ
  pub auto_continue : Bool
  pub diminishing_returns_threshold : ℕ

unfoldable pub default_loop_config : LoopConfig
default_loop_config = record {
  mode = mode_agent;
  max_rounds = 15;
  max_tool_calls_per_round = 3;
  max_total_tool_calls = 50;
  max_ai_retries = 2;
  max_tool_retries = 1;
  retry_delay_base_ms = 500;
  max_token_budget = 16000;
  auto_continue = true;
  diminishing_returns_threshold = 2;
}

unfoldable pub loop_config_from_intent : String → LoopConfig → LoopConfig
loop_config_from_intent intent base =
    if str_eq intent "CHAT" || str_eq intent "UNKNOWN" || str_eq intent ""
    then record base {
      mode = mode_chat;
      max_rounds = if ltb base.max_rounds 5 then base.max_rounds else 5;
      max_total_tool_calls =
          if ltb base.max_total_tool_calls 5 then base.max_total_tool_calls else 5;
    }
    else if str_eq intent "TASK_PLAN"
    then record base {
      mode = mode_agent;
      max_rounds = if ltb base.max_rounds 20 then 20 else base.max_rounds;
    }
    else record base { mode = mode_agent }

-- `NewAgentEngine`: a configuration with no rounds is replaced by the default.
unfoldable pub base_loop_config : LoopConfig → LoopConfig
base_loop_config cfg = if ltb 0 cfg.max_rounds then cfg else default_loop_config

-- The configuration of a run: the agent's own number of steps, where it has one, replaces the rounds.
unfoldable pub run_loop_config : String → ℕ → LoopConfig → LoopConfig
unfolding loop_config_from_intent
run_loop_config intent max_steps base =
    let cfg = loop_config_from_intent intent base in
    if ltb 0 max_steps then record cfg { max_rounds = max_steps } else cfg

-- ===== src/Lib.antt =====
-- The AI desktop assistant: an agent that plans a request, asks a language model for tool calls
-- and runs them.
--
-- How the parts interact: a run of the Engine takes the plan that Breakdown made for the session
-- (TaskPlan) and the history that Reducer trimmed. In each round it asks the model, which Router
-- may choose, and runs the tool calls of the answer one by one, each behind the permission guard
-- (Security); every result advances the plan, is recorded by Milestones and is saved in the
-- repositories (Repository). Skill narrows the tools that the model is told of.
--
-- Files:
-- - Common: lists and their predicates, maps as association lists, signed integers, and Go's
--   operations on strings over runes, which the parts share.
-- - TaskPlan: internal/domain/agent/model/valobj/task_plan.go, the plan and its sub-tasks.
-- - History and Reducer: internal/domain/agent/service/context/reducer, the estimate of tokens and
--   the trimming of the history.
-- - Values and Security: internal/domain/agent/service/security/permission_guard.go, the
--   permission guard.
-- - Engine: internal/domain/agent/service/engine, the ReAct loop: its state and surroundings
--   (Types), its configuration (Config), the reading of tool calls from an answer (Parse), a tool
--   call behind the permission gate (Calls), a round (Round) and a run (Run). The model port, the
--   tools, the clock, JSON and hashes are fields of an environment. The loop runs on the number of
--   rounds left, and the reading of calls on the depth of its recursion, where one more than the
--   text's runes is enough whenever any depth is.
-- - Router: internal/domain/agent/service/orchestrator/model_router.go, which model serves a
--   scenario.
-- - Repository: internal/infrastructure/repository, the memory_*.go files, with the entities of
--   internal/domain/agent/model that they hold.
-- - Breakdown: internal/domain/agent/service/task/breakdown.go, the plan of a request, by rules or
--   by the model.
-- - Skill: internal/domain/skill, which skill a request calls for, the tools that a skill leaves,
--   and the ids (Match, Ids); what a SKILL.md says (Parse), and the directory of the skills,
--   installing and uninstalling included, over a disk that is a parameter (Directory,
--   Uninstalled).
-- - Milestones: internal/domain/agent/service/prompt/milestone_tracker.go, the milestones of the
--   sessions.
-- - Desktop: internal/domain/desktop/service, the files confined to a workspace (Paths, Files),
--   commands behind denied patterns (Commands), the sandbox (Sandbox), the ports over them
--   (Service) and what is kept of web pages (Pages). The operating system, regular expressions and
--   Chrome are parameters.
-- - Intent: internal/domain/agent/service/intent, what a request asks for: the keywords (Rules,
--   Extract), the model's classifier (Llm), and the service with its cache and the contexts of the
--   sessions (Service). The tables of package unicode, the hash and the model are parameters.
-- - Mcp: internal/infrastructure/mcp/manager.go and internal/domain/mcp/service, the servers of
--   tools (Manager, Calls), internal/domain/agent/service/tool_registry.go and the service over
--   both (Service, Views), and the catalog (Market). The connections are a parameter.
--
-- What surrounds these parts is not modelled: the HTTP and WebSocket servers, the MCP and model
-- clients, MySQL and Redis, and the start of the program do input and output. The steps of the
-- engine before its loop, which build the prompt, the plan and the history of messages, are not
-- modelled either. A run has the guard to itself: approvals that arrive while it goes on are not
-- modelled. The bounds of the loop are natural numbers, and counters and scores have no upper
-- bound.
pub mod Desktop
pub mod Intent
pub mod Mcp
pub mod Common
pub mod TaskPlan
pub mod History
pub mod Reducer
pub mod Values
pub mod Security
pub mod Engine
pub mod Router
pub mod Repository
pub mod Skill
pub mod Breakdown
pub mod Milestones

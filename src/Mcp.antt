-- ===== src/Mcp.antt =====
-- internal/infrastructure/mcp/manager.go and internal/domain/mcp: the servers of tools, how their tools come to
-- the agent, and how a call finds its server. The connections are a parameter over the state `W` of the world;
-- the maps are walked in the order of their lists.
pub mod Manager
pub mod Calls
pub mod Service
pub mod Views
pub mod Market
pub mod Route
pub mod Synced
pub mod Served
pub mod Lost
mod Samples
use ai_desktop_assistant.Common.{ℕ, String, Char, Bool, Option, List}
use ai_desktop_assistant.Common.Map.{Map}
use ai_desktop_assistant.Common.Outcome.{Outcome}
use ai_desktop_assistant.Values.{Value, Fields}
use ai_desktop_assistant.Repository.Entities.{ServerConfig}

pub record ToolDef : Type 0 where
  pub name : String
  pub description : String
  pub input_schema : Map Value
  pub server_name : String

pub data TransportKind : Type 0 where
  stdio sse : TransportKind

-- A connection: its kind and what it was made of.
pub record Client : Type 0 where
  pub kind : TransportKind
  pub config : ServerConfig

-- What the clients do: each gives an error's text, if any.
pub record Connections (W : Type 0) : Type 0 where
  pub initialize : Client → W → Option String × W
  pub close : Client → W → W
  pub list_tools : Client → W → Outcome (List ToolDef) × W
  pub call_tool : Client → String → Map Value → W → Outcome String × W

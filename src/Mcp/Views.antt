-- ===== src/Mcp/Views.antt =====
-- mcp_service.go: what the service shows of its servers.
use ai_desktop_assistant.Common.{
  ℕ, String, Bool, Option, none, some, List, [], ◌∷◌, ◌++◌, map, if◌then◌else◌, str_eq, length, any,
}
use ai_desktop_assistant.Common.Map.{Map, lookup, lookup_or, insert}
use ai_desktop_assistant.Repository.Entities.{ServerConfig}
use ai_desktop_assistant.Repository.Servers as Servers
use ai_desktop_assistant.Mcp.{ToolDef, Connections}
use ai_desktop_assistant.Mcp.Calls.{ServerView, is_online, list_server_views}
use ai_desktop_assistant.Mcp.Service.{McpService, Local, list_tools_by_server, upsert_server}

pub record HealthStatus : Type 0 where
  pub name : String
  pub online : Bool
  pub transport : String
  pub tool_count : ℕ
  pub last_error : String
  pub enabled : Bool

-- An entry of `ListServers`. Of a server that only the repository knows, no tools are given.
pub record ServerEntry : Type 0 where
  pub config : ServerConfig
  pub online : Bool
  pub tools : Option (List String)
  pub last_error : String

-- What an installation tells of the server.
pub record Installed : Type 0 where
  pub name : String
  pub online : Bool
  pub tools : List String

module _ {W : Type 0} (net : Connections W) (env : Local) where
  -- The views of the manager, each with the server's tools.
  unfoldable pub with_tools :
      List ServerView → McpService W → List (ServerView × List ToolDef) × McpService W
  with_tools [] s = ([], s)
  with_tools (v ∷ vs) s =
      let first = list_tools_by_server net env v.config.name s in
      let rest = with_tools vs first.1 in ((v, first.0) ∷ rest.0, rest.1)

  abbrev error_of : String → McpService W → String
  error_of name s = lookup_or "" name s.last_errors

  unfoldable pub health_of : McpService W → ServerView × List ToolDef → HealthStatus
  health_of s (v, ts) = record {
    name = v.config.name;
    online = v.online;
    transport = v.config.transport;
    tool_count = length ts;
    last_error = error_of v.config.name s;
    enabled = v.config.enabled;
  }

  abbrev is_seen : List HealthStatus → String → Bool
  is_seen views name = any (λ h. str_eq h.name name) views

  -- The configurations of the repository that the manager does not know.
  unfoldable pub health_stored :
      List HealthStatus → McpService W → List ServerConfig → List HealthStatus
  health_stored seen s [] = []
  health_stored seen s (c ∷ cs) =
      let rest = health_stored seen s cs in
      if is_seen seen c.name
      then rest
      else record {
        name = c.name;
        online = is_online c.name s.host.manager;
        transport = c.transport;
        tool_count = 0;
        last_error = error_of c.name s;
        enabled = c.enabled;
      }
        ∷ rest

  -- `Health`
  unfoldable pub health : McpService W → List HealthStatus × McpService W
  health s =
      let r = with_tools (list_server_views s.host.manager) s in
      let views = map (health_of r.1) r.0 in
      (views ++ health_stored views r.1 (Servers.list_servers s.repo), r.1)

  unfoldable pub entry_of : McpService W → ServerView × List ToolDef → ServerEntry
  entry_of s (v, ts) = record {
    config = v.config;
    online = v.online;
    tools = some (map (λ t. t.name) ts);
    last_error = error_of v.config.name s;
  }

  unfoldable pub entries_by_name :
      McpService W → List (ServerView × List ToolDef) → Map ServerEntry → Map ServerEntry
  entries_by_name s [] m = m
  entries_by_name s ((v, ts) ∷ vs) m =
      entries_by_name s vs (insert v.config.name (entry_of s (v, ts)) m)

  abbrev add_stored :
      McpService W → ServerConfig → Option ServerEntry → Map ServerEntry → Map ServerEntry
  add_stored s c (some e) m = m
  add_stored s c none m =
      insert c.name
        (record {
          config = c;
          online = is_online c.name s.host.manager;
          tools = none;
          last_error = error_of c.name s;
        })
        m

  unfoldable pub entries_stored :
      McpService W → List ServerConfig → Map ServerEntry → Map ServerEntry
  entries_stored s [] m = m
  entries_stored s (c ∷ cs) m = entries_stored s cs (add_stored s c (lookup c.name m) m)

  -- `ListServers`
  unfoldable pub list_entries : McpService W → List ServerEntry × McpService W
  list_entries s =
      let r = with_tools (list_server_views s.host.manager) s in
      let m = entries_stored r.1 (Servers.list_servers s.repo) (entries_by_name r.1 r.0 []) in
      (map (λ e. e.1) m, r.1)

  abbrev told :
      ServerConfig
      → Option String × McpService W
      → (Option String × Option Installed) × McpService W
  told c (some e, s) = ((some e, none), s)
  told c (none, s) =
      let r = list_tools_by_server net env c.name s in
      (
        (
          none,
          some (record {
            name = c.name;
            online = is_online c.name r.1.host.manager;
            tools = map (λ t. t.name) r.0;
          }),
        ),
        r.1,
      )

  -- `InstallCustom`
  unfoldable pub install_custom :
      ServerConfig → McpService W → (Option String × Option Installed) × McpService W
  install_custom c s = told c (upsert_server net env c s)

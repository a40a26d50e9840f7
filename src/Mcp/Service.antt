-- ===== src/Mcp/Service.antt =====
-- tool_registry.go, mcp_tool.go and mcp_service.go: the tools of the agent, how those of the servers come among
-- them, and the servers that a user adds and takes away. The repository is the one in memory.
use Prim.Native.String.{◌++◌ as append}
use ai_desktop_assistant.Common.{
  String, Char, Bool, true, false, ◌&&◌, ◌||◌, Option, none, some, List, [], ◌∷◌, map,
  if◌then◌else◌, str_eq, any, select,
}
use ai_desktop_assistant.Common.Int.{pos, positive_or}
use ai_desktop_assistant.Common.Map.{Map, lookup, insert, delete}
use ai_desktop_assistant.Common.Outcome.{Outcome, done, failed}
use ai_desktop_assistant.Common.Text.{runes, is_blank, to_lower, is_prefix}
use ai_desktop_assistant.Values.{Args}
use ai_desktop_assistant.Repository.Entities.{ServerConfig}
use ai_desktop_assistant.Repository.Servers as Servers
use ai_desktop_assistant.Mcp.{ToolDef, Connections}
use ai_desktop_assistant.Mcp.Manager.{Manager, Host, remove}
use ai_desktop_assistant.Mcp.Calls.{
  add_or_update, reload_all, list_tools, is_online, list_servers, call_tool,
}

-- A tool of the agent: one of the program's own, by its name and its description, or one of a server.
pub data Tool : Type 0 where
  own : String → String → Tool
  served : ToolDef → Tool

abbrev described : String → String
described d = if is_blank d then "MCP tool" else d

-- `Name` and `Description`
unfoldable pub tool_name : Tool → String
tool_name (own n d) = n
tool_name (served t) = t.name

unfoldable pub tool_description : Tool → String
tool_description (own n d) = d
tool_description (served t) =
    if is_blank t.server_name
    then described t.description
    else append "[MCP:" (append t.server_name (append "] " (described t.description)))

-- `ToolRegistry`
abbrev pub Registry : Type 0
Registry = Map Tool

unfoldable pub register : Tool → Registry → Registry
register t r = insert (tool_name t) t r

unfoldable pub get_tool : String → Registry → Option Tool
get_tool n r = lookup n r

unfoldable pub unregister : String → Registry → Registry
unregister n r = delete n r

abbrev is_there : Option Tool → Bool
is_there none = false
is_there (some t) = true

unfoldable pub has_tool : String → Registry → Bool
has_tool n r = is_there (get_tool n r)

unfoldable pub registry_tools : Registry → List Tool
registry_tools r = map (λ e. e.1) r

-- `GetToolDescriptions`: names and descriptions.
unfoldable pub tool_descriptions : Registry → List (String × String)
tool_descriptions r = map (λ e. (tool_name e.1, tool_description e.1)) r

-- What the callback keeps: the registry, and the names of the servers' tools in it, a set.
pub record Registered : Type 0 where
  pub registry : Registry
  pub mcp_tool_names : List String

unfoldable pub unregister_each : List String → Registry → Registry
unregister_each [] r = r
unregister_each (n ∷ ns) r = unregister_each ns (unregister n r)

unfoldable pub register_each : List ToolDef → Registry → Registry
register_each [] r = r
register_each (d ∷ ds) r = register_each ds (register (served d) r)

-- `syncTools`, with a registry
unfoldable pub sync_tools : List ToolDef → Registered → Registered
sync_tools defs s = record {
  registry = register_each defs (unregister_each s.mcp_tool_names s.registry);
  mcp_tool_names = map (λ d. d.name) defs;
}

pub record McpService (W : Type 0) : Type 0 where
  pub host : Host W Registered
  pub repo : Servers.Servers
  pub last_errors : Map String

-- What the world adds: the tables of package `unicode`, and `findMCPDemoBinary`.
pub record Local : Type 0 where
  pub lower : Char → Char
  pub fold : Char → Char
  pub demo_binary : String

module _ (env : Local) where
  -- `strings.EqualFold`
  abbrev equal_fold : String → String → Bool
  equal_fold a b = str_eq (to_lower env.fold a) (to_lower env.fold b)

  -- A configuration with its defaults.
  unfoldable pub with_defaults : ServerConfig → ServerConfig
  with_defaults c = record c {
    transport = if is_blank c.transport then "stdio" else c.transport;
    timeout_sec = pos (positive_or 60 c.timeout_sec);
    command = if equal_fold c.name "demo" && is_blank c.command then env.demo_binary else c.command;
  }

  -- The error of a configuration, if any.
  unfoldable pub config_error : ServerConfig → Option String
  config_error c =
      if equal_fold c.transport "stdio" && is_blank c.command && is_blank c.url
      then some "stdio transport requires command"
      else if (equal_fold c.transport "sse" || equal_fold c.transport "http") && is_blank c.url
      then some "sse/http transport requires url"
      else none

module _ {W : Type 0} (net : Connections W) (env : Local) where
  -- What the start of a server leaves behind.
  abbrev pub noted :
      McpService W → String → Option String × Host W Registered → Option String × McpService W
  noted s name (some e, h) =
      (some e, record s { host = h; last_errors = insert name e s.last_errors })
  noted s name (none, h) = (none, record s { host = h; last_errors = delete name s.last_errors })

  abbrev pub upsert_checked :
      ServerConfig → Option String → McpService W → Option String × McpService W
  upsert_checked c (some e) s = (some e, s)
  upsert_checked c none s =
      noted (record s { repo = Servers.save_server (some c) s.repo }) c.name
        (add_or_update net sync_tools env.lower c s.host)

  -- `UpsertServer`: the error, if any.
  unfoldable pub upsert_server : ServerConfig → McpService W → Option String × McpService W
  upsert_server cfg s =
      let c = with_defaults env cfg in
      if is_blank cfg.name
      then (some "name required", s)
      else upsert_checked c (config_error env c) s

  -- `DeleteServer`
  unfoldable pub delete_server : String → McpService W → Option String × McpService W
  delete_server name s = if is_blank name then (some "name required", s) else (
    none,
    record {
      repo = Servers.delete_server name s.repo;
      last_errors = delete name s.last_errors;
      host = remove net sync_tools env.lower name s.host;
    },
  )

  -- The errors of the servers that are online again are forgotten.
  unfoldable pub clear_online : List ServerConfig → Manager → Map String → Map String
  clear_online [] m errors = errors
  clear_online (c ∷ cs) m errors =
      clear_online cs m (if is_online c.name m then delete c.name errors else errors)

  -- `ReloadFromDB`
  unfoldable pub reload_from_db : McpService W → McpService W
  reload_from_db s =
      let enabled = Servers.list_enabled s.repo in
      let h = reload_all net sync_tools env.lower enabled s.host in
      record s { host = h; last_errors = clear_online enabled h.manager s.last_errors }

  -- The tools of one server.
  unfoldable pub is_of_server : String → ToolDef → Bool
  is_of_server server t =
      str_eq t.server_name server || is_prefix (runes (append server "__")) (runes t.name)

  -- `ListToolsByServer`
  unfoldable pub list_tools_by_server : String → McpService W → List ToolDef × McpService W
  list_tools_by_server server s =
      let r = list_tools net sync_tools env.lower s.host in
      (if is_blank server then r.0 else select (is_of_server server) r.0, record s { host = r.1 })

  -- `IsServerInstalled`
  unfoldable pub is_server_installed : String → McpService W → Bool
  is_server_installed name s =
      any (λ c. str_eq c.name name) (list_servers s.host.manager)
      || any (λ c. str_eq c.name name) (Servers.list_servers s.repo)

  -- `MCPTool.Execute`: a failure becomes the text of the result.
  abbrev executed : String → Outcome String × W → String × W
  executed name (done t, w) = (t, w)
  executed name (failed e, w) = (append "MCP tool " (append name (append " failed: " e)), w)

  unfoldable pub execute_tool : Manager → ToolDef → Args → W → String × W
  execute_tool m d args w =
      executed d.name (call_tool net m d.name (elim args [ none ↦ [] | some a ↦ a ]) w)

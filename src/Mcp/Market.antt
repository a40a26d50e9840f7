-- ===== src/Mcp/Market.antt =====
-- internal/domain/mcp/service/marketplace.go: the catalog of servers that can be installed by name.
use ai_desktop_assistant.Common.{
  String, Bool, true, false, Option, none, some, List, [], ◌∷◌, ◌++◌, map, if◌then◌else◌, str_eq,
}
use ai_desktop_assistant.Common.Int.{pos}
use ai_desktop_assistant.Common.Map.{Map, lookup, insert}
use ai_desktop_assistant.Repository.Entities.{ServerConfig}
use ai_desktop_assistant.Mcp.{Connections}
use ai_desktop_assistant.Mcp.Calls.{is_online}
use ai_desktop_assistant.Mcp.Service.{McpService, Local, is_server_installed, delete_server}
use ai_desktop_assistant.Mcp.Views.{Installed, install_custom}

pub record MarketPlugin : Type 0 where
  pub id : String
  pub name : String
  pub description : String
  pub transport : String
  pub command : String
  pub args : List String
  pub env : Map String
  pub url : String
  pub tags : List String
  pub installed : Bool
  pub online : Bool

abbrev npx : String → String → String → List String → List String → Map String → MarketPlugin
npx i n d args tags env = record {
  id = i;
  name = n;
  description = d;
  transport = "stdio";
  command = "npx";
  args = args;
  env = env;
  url = "";
  tags = tags;
  installed = false;
  online = false;
}

-- The plugins of `seed`.
abbrev pub plugins : List MarketPlugin
plugins =
    record (npx "demo" "Demo Tools" "内置 get_time/echo/workspace_info" [] ("demo" ∷ "local" ∷ [])
      []) { command = "" }
    ∷ npx "fs" "Filesystem MCP" "官方 filesystem（需 npx）"
        ("-y" ∷ "@modelcontextprotocol/server-filesystem" ∷ "./workspace" ∷ [])
        ("files" ∷ "official" ∷ []) []
    ∷ npx "fetch" "Fetch MCP" "HTTP fetch 工具（需 npx）"
        ("-y" ∷ "@modelcontextprotocol/server-fetch" ∷ []) ("http" ∷ "official" ∷ []) []
    ∷ npx "memory" "Memory MCP" "知识图谱记忆（需 npx）" ("-y" ∷ "@modelcontextprotocol/server-memory" ∷ [])
        ("memory" ∷ []) []
    ∷ npx "brave-search" "Brave Search MCP" "网页搜索（需 BRAVE_API_KEY + npx）"
        ("-y" ∷ "@modelcontextprotocol/server-brave-search" ∷ []) ("search" ∷ "official" ∷ [])
        (("BRAVE_API_KEY", "") ∷ [])
    ∷ []

abbrev pub Catalog : Type 0
Catalog = Map MarketPlugin

-- `RegisterCatalog`
unfoldable pub register_catalog : MarketPlugin → Catalog → Catalog
register_catalog p c = insert p.id p c

-- `seed`
unfoldable pub seed : List MarketPlugin → Catalog → Catalog
seed [] c = c
seed (p ∷ ps) c = seed ps (register_catalog p c)

-- `serverNameFor`
unfoldable pub server_name_for : MarketPlugin → String
server_name_for p = if str_eq p.id "demo" then "demo" else p.id

-- The configuration of a plugin that is installed.
unfoldable pub config_for : MarketPlugin → ServerConfig
config_for p = record {
  name = server_name_for p;
  transport = p.transport;
  command = p.command;
  args = p.args;
  env = p.env;
  url = p.url;
  enabled = true;
  timeout_sec = pos 60;
}

module _ {W : Type 0} (net : Connections W) (env : Local) where
  unfoldable pub plugin_view : McpService W → MarketPlugin → MarketPlugin
  plugin_view s p =
      let there = is_server_installed net env (server_name_for p) s in
      record p {
        installed = there;
        online = is_online (server_name_for p) s.host.manager;
        tags = if there then p.tags ++ ("installed" ∷ []) else p.tags;
      }

  -- `List`
  unfoldable pub list_plugins : Catalog → McpService W → List MarketPlugin
  list_plugins c s = map (λ e. plugin_view s e.1) c

  abbrev installed_found :
      Option MarketPlugin → McpService W → (Option String × Option Installed) × McpService W
  installed_found none s = ((some "plugin not found", none), s)
  installed_found (some p) s = install_custom net env (config_for p) s

  -- `Install`
  unfoldable pub install :
      String → Catalog → McpService W → (Option String × Option Installed) × McpService W
  install id c s = installed_found (lookup id c) s

  abbrev uninstalled_found : Option MarketPlugin → McpService W → Option String × McpService W
  uninstalled_found none s = (some "plugin not found", s)
  uninstalled_found (some p) s = delete_server net env (server_name_for p) s

  -- `Uninstall`
  unfoldable pub uninstall : String → Catalog → McpService W → Option String × McpService W
  uninstall id c s = uninstalled_found (lookup id c) s

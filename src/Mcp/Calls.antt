-- ===== src/Mcp/Calls.antt =====
-- manager.go: servers that come and go while the program runs, and the calls of their tools.
use Prim.Native.String.{◌++◌ as append}
use ai_desktop_assistant.Common.{
  ℕ, String, Char, Bool, true, false, Option, none, some, List, [], ◌∷◌, map, if◌then◌else◌, str_eq,
  length, any, is_empty,
}
use ai_desktop_assistant.Common.Int.{pos, positive_or}
use ai_desktop_assistant.Common.Map.{Map, lookup, insert}
use ai_desktop_assistant.Common.Outcome.{Outcome, done, failed}
use ai_desktop_assistant.Common.Text.{runes, of_runes, is_blank, split_at}
use ai_desktop_assistant.Values.{Value}
use ai_desktop_assistant.Repository.Entities.{ServerConfig}
use ai_desktop_assistant.Mcp.{ToolDef, Client, Connections}
use ai_desktop_assistant.Mcp.Manager.{
  Manager, Host, start_one, refresh_tools, remove, drop_client, clients_of, configs_of,
}

abbrev pub with_config : ServerConfig → Manager → Manager
with_config cfg m = record m { configs = insert cfg.name cfg m.configs }

-- `if cfg.TimeoutSec <= 0 { cfg.TimeoutSec = 60 }`
abbrev pub with_timeout : ServerConfig → ServerConfig
with_timeout cfg = record cfg { timeout_sec = pos (positive_or 60 cfg.timeout_sec) }

-- `ListServers`
unfoldable pub list_servers : Manager → List ServerConfig
list_servers m = configs_of m.configs

abbrev has_client : Option Client → Bool
has_client none = false
has_client (some c) = true

-- `IsOnline`
unfoldable pub is_online : String → Manager → Bool
is_online name m = has_client (lookup name m.clients)

-- `ServerView`
pub record ServerView : Type 0 where
  pub config : ServerConfig
  pub online : Bool

-- `ListServerViews`
unfoldable pub list_server_views : Manager → List ServerView
list_server_views m =
    map (λ c. record { config = c; online = is_online c.name m }) (configs_of m.configs)

-- `ClientCount`
unfoldable pub client_count : Manager → ℕ
client_count m = length m.clients

-- Where the text is cut at its first zero byte: the server and the tool.
abbrev pub parts_of : Option (List Char × List Char) → Option (String × String)
parts_of none = none
parts_of (some p) = some (of_runes p.0, of_runes p.1)

-- `strings.SplitN(route, "\x00", 2)`, where it has two parts
unfoldable pub route_parts : String → Option (String × String)
route_parts route = parts_of (split_at (runes "\0") (runes route))

module _ {W S : Type 0} (net : Connections W) (on_change : List ToolDef → S → S)
    (lower : Char → Char) where
  -- What follows the start of a server.
  abbrev pub refreshed : Option String × Host W S → Option String × Host W S
  refreshed (some e, h) = (some e, h)
  refreshed (none, h) = (none, refresh_tools net on_change lower h)

  -- `AddOrUpdate`: the error, if any.
  unfoldable pub add_or_update : ServerConfig → Host W S → Option String × Host W S
  add_or_update cfg h =
      let c = with_timeout cfg in
      let k = record h { manager = with_config c h.manager } in
      if is_blank cfg.name
      then (some "mcp server name required", h)
      else if c.enabled
      then refreshed (start_one net on_change lower c k)
      else (none, remove net on_change lower c.name k)

  unfoldable pub remove_each : List String → Host W S → Host W S
  remove_each [] h = h
  remove_each (n ∷ ns) h = remove_each ns (remove net on_change lower n h)

  abbrev is_wanted : List ServerConfig → String → Bool
  is_wanted cs n = any (λ c. str_eq c.name n) cs

  -- The clients that a list of configurations leaves out.
  unfoldable pub unwanted : List ServerConfig → Map Client → List String
  unwanted cs [] = []
  unwanted cs ((n, c) ∷ m) = if is_wanted cs n then unwanted cs m else n ∷ unwanted cs m

  -- One configuration of a reload.
  unfoldable pub reload_one : ServerConfig → Host W S → Host W S
  reload_one c h =
      let k = record h { manager = with_config c h.manager } in
      if c.enabled
      then (start_one net on_change lower c k).1
      else drop_client net on_change lower c.name k

  unfoldable pub reload_each : List ServerConfig → Host W S → Host W S
  reload_each [] h = h
  reload_each (c ∷ cs) h = reload_each cs (reload_one c h)

  -- `ReloadAll`
  unfoldable pub reload_all : List ServerConfig → Host W S → Host W S
  reload_all cs h =
      refresh_tools net on_change lower
        (reload_each cs (remove_each (unwanted cs h.manager.clients) h))

  -- `ListTools`: the table is made again while it is empty.
  unfoldable pub list_tools : Host W S → List ToolDef × Host W S
  list_tools h =
      let r = refresh_tools net on_change lower h in
      if is_empty h.manager.tool_defs then (r.manager.tool_defs, r) else (h.manager.tool_defs, h)

  -- `Close`
  unfoldable pub close_each : List Client → W → W
  close_each [] w = w
  close_each (c ∷ cs) w = close_each cs (net.close c w)

  unfoldable pub close_all : Host W S → Host W S
  close_all h = record h {
    manager = record h.manager { clients = [] };
    world = close_each (clients_of h.manager.clients) h.world;
  }

module _ {W : Type 0} (net : Connections W) where
  abbrev or_next : Outcome String × W → (W → Outcome String × W) → Outcome String × W
  or_next (done t, w) k = (done t, w)
  or_next (failed e, w) k = k w

  -- A tool that no route leads to is tried with every client.
  unfoldable pub try_each : List Client → String → Map Value → W → Outcome String × W
  try_each [] name args w = (failed (append "mcp tool not found: " name), w)
  try_each (c ∷ cs) name args w = or_next (net.call_tool c name args w) (try_each cs name args)

  abbrev pub call_client : Option Client → String → String → Map Value → W → Outcome String × W
  call_client none server tool args w = (failed (append "mcp server not found: " server), w)
  call_client (some c) server tool args w = net.call_tool c tool args w

  abbrev pub call_parts :
      Manager → String → Option (String × String) → Map Value → W → Outcome String × W
  call_parts m name none args w = (failed (append "invalid route for " name), w)
  call_parts m name (some (server, tool)) args w =
      call_client (lookup server m.clients) server tool args w

  abbrev pub call_route : Manager → String → Option String → Map Value → W → Outcome String × W
  call_route m name none args w = try_each (clients_of m.clients) name args w
  call_route m name (some route) args w = call_parts m name (route_parts route) args w

  -- `CallTool`
  unfoldable pub call_tool : Manager → String → Map Value → W → Outcome String × W
  call_tool m name args w = call_route m name (lookup name m.tool_route) args w

-- ===== src/Mcp/Manager.antt =====
-- manager.go: the clients of the servers, and the table that finds the server of a tool.
use Prim.Native.String.{◌++◌ as append}
use ai_desktop_assistant.Common.{
  ℕ, suc, ◌+◌, String, Char, Option, none, some, List, [], ◌∷◌, ◌++◌, if◌then◌else◌, ltb, str_eq,
}
use ai_desktop_assistant.Common.Map.{Map, lookup, insert, delete}
use ai_desktop_assistant.Common.Outcome.{Outcome, done, failed}
use ai_desktop_assistant.Common.Text.{to_lower}
use ai_desktop_assistant.Repository.Entities.{ServerConfig}
use ai_desktop_assistant.Mcp.{ToolDef, TransportKind, stdio, sse, Client, Connections}

pub record Manager : Type 0 where
  pub clients : Map Client
  pub configs : Map ServerConfig
  pub tool_route : Map String
  pub tool_defs : List ToolDef

-- `NewManager`
unfoldable pub configs_from : List ServerConfig → Map ServerConfig → Map ServerConfig
configs_from [] m = m
configs_from (c ∷ cs) m = configs_from cs (insert c.name c m)

unfoldable pub new_manager : List ServerConfig → Manager
new_manager cs = record {
  clients = [];
  configs = configs_from cs [];
  tool_route = [];
  tool_defs = [];
}

-- The manager, what its callback keeps, and the world.
pub record Host (W S : Type 0) : Type 0 where
  pub manager : Manager
  pub seen : S
  pub world : W

abbrev pub client_name : Client → String
client_name c = c.config.name

-- A client that listed its tools.
abbrev pub Pair : Type 0
Pair = Client × List ToolDef

-- How many tools of all clients have a name.
unfoldable pub count_name : String → List ToolDef → ℕ
count_name n [] = 0
count_name n (t ∷ ts) = if str_eq t.name n then suc (count_name n ts) else count_name n ts

unfoldable pub name_count : String → List Pair → ℕ
name_count n [] = 0
name_count n ((c, ts) ∷ ps) = count_name n ts + name_count n ps

-- The name that the agent sees: with the server's where two tools share a name.
unfoldable pub exposed_name : List Pair → Client → ToolDef → String
exposed_name ps c t =
    if ltb 1 (name_count t.name ps) then append (client_name c) (append "__" t.name) else t.name

unfoldable pub exposed : List Pair → Client → ToolDef → ToolDef
exposed ps c t =
    let n = exposed_name ps c t in
    record t {
      name = n;
      server_name = client_name c;
      description =
          if str_eq n t.name
          then t.description
          else append "[" (append (client_name c) (append "] " t.description));
    }

-- The server's name, a zero byte, and the tool's own name.
unfoldable pub route_text : String → String → String
route_text server tool = append server (append "\0" tool)

-- The loop over one client's tools: the routes and the definitions so far are extended.
unfoldable pub add_tools :
    List Pair → Client → List ToolDef → Map String × List ToolDef → Map String × List ToolDef
add_tools ps c [] r = r
add_tools ps c (t ∷ ts) (route, defs) = add_tools ps c ts (
  insert (exposed_name ps c t) (route_text (client_name c) t.name) route,
  defs ++ (exposed ps c t ∷ []),
)

unfoldable pub add_pairs :
    List Pair → List Pair → Map String × List ToolDef → Map String × List ToolDef
add_pairs ps [] r = r
add_pairs ps ((c, ts) ∷ qs) r = add_pairs ps qs (add_tools ps c ts r)

abbrev pub clients_of : Map Client → List Client
clients_of [] = []
clients_of ((n, c) ∷ m) = c ∷ clients_of m

abbrev pub configs_of : Map ServerConfig → List ServerConfig
configs_of [] = []
configs_of ((n, c) ∷ m) = c ∷ configs_of m

module _ {W S : Type 0} (net : Connections W) (on_change : List ToolDef → S → S)
    (lower : Char → Char) where
  -- A client's answer is kept where it is one.
  abbrev pub keep_pair : Client → Outcome (List ToolDef) → List Pair → List Pair
  keep_pair c (done ts) ps = (c, ts) ∷ ps
  keep_pair c (failed e) ps = ps

  -- The clients that list their tools, with them; the others are left out.
  unfoldable pub ask_all : List Client → W → List Pair × W
  ask_all [] w = ([], w)
  ask_all (c ∷ cs) w =
      let first = net.list_tools c w in
      let rest = ask_all cs first.1 in (keep_pair c first.0 rest.0, rest.1)

  -- `refreshTools`; the callback is told of the definitions.
  unfoldable pub refresh_tools : Host W S → Host W S
  refresh_tools h =
      let asked = ask_all (clients_of h.manager.clients) h.world in
      let table = add_pairs asked.0 asked.0 ([], []) in
      record {
        manager = record h.manager { tool_route = table.0; tool_defs = table.1 };
        seen = on_change table.1 h.seen;
        world = asked.1;
      }

  -- The kind of a configuration's transport.
  unfoldable pub kind_of : String → Option TransportKind
  kind_of transport =
      let t = to_lower lower transport in
      if str_eq t "stdio"
      then some stdio
      else if str_eq t "sse"
      then some sse
      else if str_eq t "http"
      then some sse
      else if str_eq t "streamable"
      then some sse
      else none

  -- A client that is there is closed and taken out.
  abbrev pub dropped : String → Option Client → Host W S → Host W S
  dropped name none h = h
  dropped name (some c) h = record h {
    manager = record h.manager { clients = delete name h.manager.clients };
    world = net.close c h.world;
  }

  unfoldable pub drop_client : String → Host W S → Host W S
  drop_client name h = dropped name (lookup name h.manager.clients) h

  -- What follows the initialization of a client.
  abbrev pub started : Client → Option String → Host W S → Option String × Host W S
  started c (some e) h = (some e, record h { world = net.close c h.world })
  started c none h = (
    none,
    record h {
      manager = record h.manager {
        clients = insert (client_name c) c h.manager.clients;
        configs = insert (client_name c) c.config h.manager.configs;
      };
    },
  )

  abbrev pub start_kind : ServerConfig → Option TransportKind → Host W S → Option String × Host W S
  start_kind cfg none h = (some (append "unknown transport " cfg.transport), h)
  start_kind cfg (some k) h =
      let c : Client = record { kind = k; config = cfg } in
      let first = net.initialize c h.world in started c first.0 (record h { world = first.1 })

  -- `startOne`: the error, if any.
  unfoldable pub start_one : ServerConfig → Host W S → Option String × Host W S
  start_one cfg h = start_kind cfg (kind_of cfg.transport) (drop_client cfg.name h)

  -- The loop of `Start`: a server that fails is left out.
  unfoldable pub start_each : List ServerConfig → Host W S → Host W S
  start_each [] h = h
  start_each (c ∷ cs) h = start_each cs (if c.enabled then (start_one c h).1 else h)

  -- `Start`
  unfoldable pub start : Host W S → Host W S
  start h = refresh_tools (start_each (configs_of h.manager.configs) h)

  -- `Remove`
  unfoldable pub remove : String → Host W S → Host W S
  remove name h =
      let d = drop_client name h in
      refresh_tools
        (record d { manager = record d.manager { configs = delete name d.manager.configs } })

-- ===== src/Mcp/Samples.antt =====
-- Two servers with a tool of one name, and the theorems about them.
use ai_desktop_assistant.Common.{ℕ, ◌≡◌, refl, true, none, some, [], ◌∷◌, Member, here, there}
use ai_desktop_assistant.Common.Int.{pos}
use ai_desktop_assistant.Common.Map.{Map, lookup}
use ai_desktop_assistant.Common.Outcome.{done}
use ai_desktop_assistant.Common.Text.{runes, of_runes, to_lower}
use ai_desktop_assistant.Repository.Entities.{ServerConfig}
use ai_desktop_assistant.Mcp.{ToolDef, Client, Connections, stdio}
use ai_desktop_assistant.Mcp.Manager.{
  Host, new_manager, refresh_tools, ask_all, exposed_name, name_count, count_name, start, kind_of,
}
use ai_desktop_assistant.Mcp.Calls.{call_tool, add_or_update}
use ai_desktop_assistant.Mcp.Service.{Tool, own, served, Registered, sync_tools}
use ai_desktop_assistant.Mcp.Synced.{IsSynced}
use ai_desktop_assistant.Mcp.Served.{created, started_all, Reached-IsSynced}
use ai_desktop_assistant.Mcp.Lost.{sync_each, sync_tools-lost, add_or_update-stale}
use ai_desktop_assistant.Mcp.Route.{call_tool-exposed}

abbrev echo : ToolDef
echo = record { name = "echo"; description = "says it again"; input_schema = []; server_name = "" }

-- Each server has the one tool, and answers by its own name and the tool's.
abbrev net : Connections ℕ
net = record {
  initialize = λ c w. (none, w);
  close = λ c w. w;
  list_tools = λ c w. (done (echo ∷ []), w);
  call_tool = λ c n args w. (done c.config.name, w);
}

abbrev demo : ServerConfig
demo = record {
  name = "demo";
  transport = "stdio";
  command = "mcp-demo";
  args = [];
  env = [];
  url = "";
  enabled = true;
  timeout_sec = pos 60;
}

abbrev local : Client
local = record { kind = stdio; config = demo }

abbrev other : Client
other = record { kind = stdio; config = record demo { name = "other" } }

abbrev host : Host ℕ Registered
host = record {
  manager = record (new_manager []) { clients = ("demo", local) ∷ ("other", other) ∷ [] };
  seen = record { registry = []; mcp_tool_names = [] };
  world = 0;
}

call_tool-exposed_example :
    let m = (refresh_tools net sync_tools (λ c. c) host).manager in
    (d : ToolDef) × Member d m.tool_defs
    × (d.server_name ≡ "other")
    × (d.input_schema ≡ echo.input_schema)
    × (call_tool net m d.name [] 7 ≡ (done "other", 7))
unfolding lookup ask_all exposed_name name_count count_name runes
call_tool-exposed_example =
    call_tool-exposed net sync_tools (λ c. c) host other (echo ∷ []) echo [] 7 (refl, (refl, tt))
      (there here) here refl refl

abbrev own_tools : Map Tool
own_tools = ("echo", own "echo" "the program's own") ∷ []

abbrev running : Host ℕ Registered
unfolding start new_manager
running =
    start net sync_tools (λ c. c)
      (record {
        manager = new_manager (demo ∷ []);
        seen = record { registry = own_tools; mcp_tool_names = [] };
        world = 0;
      })

Reached-IsSynced_example : IsSynced running.manager.tool_defs running.seen
unfolding running
Reached-IsSynced_example =
    Reached-IsSynced net (λ c. c) own_tools running (tt, tt) (started_all _ (created (demo ∷ []) 0))

abbrev seen_first : Registered
seen_first = record { registry = own_tools; mcp_tool_names = [] }

sync_tools-lost_example :
    (lookup "echo" (sync_tools (echo ∷ []) seen_first).registry ≡ some (served echo))
    × (lookup "echo"
          (sync_each ([] ∷ []) (sync_tools [] (sync_tools (echo ∷ []) seen_first))).registry
        ≡ none)
unfolding lookup
sync_tools-lost_example =
    sync_tools-lost echo "echo" "the program's own" seen_first [] ([] ∷ []) refl refl (refl, tt)

-- Connections of which none is made.
abbrev no_net : Connections ℕ
no_net = record net { initialize = λ c w. (some "refused", w) }

add_or_update-stale_example :
    let r = add_or_update no_net sync_tools (λ c. c) demo host in
    (r.0 ≡ some "refused")
    × (lookup "demo" r.1.manager.clients ≡ none)
    × (r.1.manager.tool_defs ≡ [])
    × (r.1.manager.tool_route ≡ [])
    × (r.1.seen ≡ record { registry = []; mcp_tool_names = [] })
unfolding new_manager kind_of to_lower runes of_runes
add_or_update-stale_example =
    add_or_update-stale no_net sync_tools (λ c. c) demo host stdio "refused" refl refl refl
      (λ w. refl)

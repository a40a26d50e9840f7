-- ===== src/Repository/Servers.antt =====
-- memory_mcp_repo.go
use ai_desktop_assistant.Common.{String, Option, none, some, List, [], ◌∷◌, if◌then◌else◌}
use ai_desktop_assistant.Common.Map.{Map, lookup, insert, delete}
use ai_desktop_assistant.Repository.Entities.{ServerConfig}

-- The map `data`.
abbrev pub Servers : Type 0
Servers = Map ServerConfig

-- A nil configuration is `none`.
unfoldable pub save_server : Option ServerConfig → Servers → Servers
save_server none r = r
save_server (some cfg) r = insert cfg.name cfg r

unfoldable pub delete_server : String → Servers → Servers
delete_server name r = delete name r

unfoldable pub find_server : String → Servers → Option ServerConfig
find_server name r = lookup name r

unfoldable pub list_servers : Servers → List ServerConfig
list_servers [] = []
list_servers ((name, cfg) ∷ r) = cfg ∷ list_servers r

-- The loop of `ListEnabled`.
unfoldable pub enabled_of : List ServerConfig → List ServerConfig
enabled_of [] = []
enabled_of (c ∷ cs) = if c.enabled then c ∷ enabled_of cs else enabled_of cs

unfoldable pub list_enabled : Servers → List ServerConfig
unfolding enabled_of list_servers
list_enabled r = enabled_of (list_servers r)

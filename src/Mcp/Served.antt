-- ===== src/Mcp/Served.antt =====
-- mcp_service.go and manager.go: the tools that the agent sees while servers come and go.
use ai_desktop_assistant.Common.{
  ◌≡◌, String, Char, true, false, Option, none, some, List, [], ◌∷◌, arith, All, if_ind, is_empty,
}
use ai_desktop_assistant.Common.Map.{lookup}
use ai_desktop_assistant.Common.Text.{is_blank}
use ai_desktop_assistant.Repository.Entities.{ServerConfig}
use ai_desktop_assistant.Mcp.{ToolDef, Client, Connections, TransportKind}
use ai_desktop_assistant.Mcp.Manager.{
  Host, new_manager, refresh_tools, drop_client, dropped, start_one, start_kind, started,
  start_each, start, remove, kind_of,
}
use ai_desktop_assistant.Mcp.Calls.{
  add_or_update, refreshed, remove_each, reload_one, reload_each, reload_all, list_tools, close_all,
}
use ai_desktop_assistant.Mcp.Service.{Tool, own, served, Registry, Registered, sync_tools}
use ai_desktop_assistant.Mcp.Synced.{IsSynced, Backed, sync_tools-IsSynced}

abbrev pub IsOwn : String × Tool → Type 0
IsOwn (k, own n d) = Unit
IsOwn (k, served d) = false ≡ true

IsOwn-Backed : (o : Registry) → All IsOwn o → All (Backed [] []) o
IsOwn-Backed [] h = tt
IsOwn-Backed ((k, own n d) ∷ o) (q, h) = (tt, IsOwn-Backed o h)
IsOwn-Backed ((k, served d) ∷ o) (q, h) = ground (arith, q)

-- A manager and the registry that its callback keeps.
module _ {W : Type 0} (net : Connections W) (lower : Char → Char) where
  abbrev pub Pairing : Type 0
  Pairing = Host W Registered

  abbrev pub IsPaired : Pairing → Type 0
  IsPaired h = IsSynced h.manager.tool_defs h.seen

  refresh_tools-IsPaired :
      (h : Pairing) → IsPaired h → IsPaired (refresh_tools net sync_tools lower h)
  unfolding refresh_tools
  refresh_tools-IsPaired h S = sync_tools-IsSynced _ h.manager.tool_defs h.seen S

  drop_client-IsPaired :
      (n : String) (h : Pairing) → IsPaired h → IsPaired (drop_client net sync_tools lower n h)
  unfolding drop_client
  drop_client-IsPaired n h S = dropped_lem (lookup n h.manager.clients)
    where
      dropped_lem : (o : Option Client) → IsPaired (dropped net sync_tools lower n o h)
      dropped_lem none = S
      dropped_lem (some c) = S

  started-IsPaired :
      (c : Client) (o : Option String) (h : Pairing)
      → IsPaired h
      → IsPaired (started net sync_tools lower c o h).1
  started-IsPaired c none h S = S
  started-IsPaired c (some e) h S = S

  start_kind-IsPaired :
      (c : ServerConfig) (o : Option TransportKind) (h : Pairing)
      → IsPaired h
      → IsPaired (start_kind net sync_tools lower c o h).1
  start_kind-IsPaired c none h S = S
  start_kind-IsPaired c (some k) h S = started-IsPaired _ _ _ S

  start_one-IsPaired :
      (c : ServerConfig) (h : Pairing)
      → IsPaired h
      → IsPaired (start_one net sync_tools lower c h).1
  unfolding start_one
  start_one-IsPaired c h S =
      start_kind-IsPaired c (kind_of net sync_tools lower c.transport) _
        (drop_client-IsPaired c.name h S)

  start_each-IsPaired :
      (cs : List ServerConfig) (h : Pairing)
      → IsPaired h
      → IsPaired (start_each net sync_tools lower cs h)
  unfolding start_each
  start_each-IsPaired [] h S = S
  start_each-IsPaired (c ∷ cs) h S =
      start_each-IsPaired cs _ (if_ind IsPaired c.enabled (λ e. start_one-IsPaired c h S) (λ e. S))

  remove-IsPaired :
      (n : String) (h : Pairing) → IsPaired h → IsPaired (remove net sync_tools lower n h)
  unfolding remove
  remove-IsPaired n h S = refresh_tools-IsPaired _ (drop_client-IsPaired n h S)

  refreshed-IsPaired :
      (r : Option String × Pairing) → IsPaired r.1 → IsPaired (refreshed net sync_tools lower r).1
  refreshed-IsPaired (none, h) S = refresh_tools-IsPaired h S
  refreshed-IsPaired (some e, h) S = S

  add_or_update-IsPaired :
      (c : ServerConfig) (h : Pairing)
      → IsPaired h
      → IsPaired (add_or_update net sync_tools lower c h).1
  unfolding add_or_update
  add_or_update-IsPaired c h S =
      if_ind (λ (r : Option String × Pairing). IsPaired r.1) (is_blank c.name) (λ e. S)
        (λ e.
          if_ind (λ (r : Option String × Pairing). IsPaired r.1) c.enabled
            (λ f. refreshed-IsPaired _ (start_one-IsPaired _ _ S))
            (λ f. remove-IsPaired c.name _ S))

  remove_each-IsPaired :
      (ns : List String) (h : Pairing)
      → IsPaired h
      → IsPaired (remove_each net sync_tools lower ns h)
  unfolding remove_each
  remove_each-IsPaired [] h S = S
  remove_each-IsPaired (n ∷ ns) h S = remove_each-IsPaired ns _ (remove-IsPaired n h S)

  reload_one-IsPaired :
      (c : ServerConfig) (h : Pairing) → IsPaired h → IsPaired (reload_one net sync_tools lower c h)
  unfolding reload_one
  reload_one-IsPaired c h S =
      if_ind IsPaired c.enabled (λ e. start_one-IsPaired c _ S)
        (λ e. drop_client-IsPaired c.name _ S)

  reload_each-IsPaired :
      (cs : List ServerConfig) (h : Pairing)
      → IsPaired h
      → IsPaired (reload_each net sync_tools lower cs h)
  unfolding reload_each
  reload_each-IsPaired [] h S = S
  reload_each-IsPaired (c ∷ cs) h S = reload_each-IsPaired cs _ (reload_one-IsPaired c h S)

  -- What a new manager and a registry of the program's own tools become: servers are started, added, changed,
  -- removed and reloaded, their tools are listed, and all are closed, while the connections do what they like.
  pub data Reached (own_tools : Registry) : Pairing → Type 0 where
    created :
        (cs : List ServerConfig) (w : W)
        → Reached own_tools (record {
          manager = new_manager cs;
          seen = record { registry = own_tools; mcp_tool_names = [] };
          world = w;
        })
    started_all :
        (h : Pairing) → Reached own_tools h → Reached own_tools (start net sync_tools lower h)
    updated :
        (c : ServerConfig) (h : Pairing)
        → Reached own_tools h
        → Reached own_tools (add_or_update net sync_tools lower c h).1
    removed :
        (n : String) (h : Pairing)
        → Reached own_tools h
        → Reached own_tools (remove net sync_tools lower n h)
    reloaded :
        (cs : List ServerConfig) (h : Pairing)
        → Reached own_tools h
        → Reached own_tools (reload_all net sync_tools lower cs h)
    listed :
        (h : Pairing)
        → Reached own_tools h
        → Reached own_tools (list_tools net sync_tools lower h).1
    closed :
        (h : Pairing) → Reached own_tools h → Reached own_tools (close_all net sync_tools lower h)

  -- Whatever has become of the servers since the program started with tools of its own alone, each tool of a server
  -- in the agent's registry is one of the definitions that the manager holds at that time, under a name that is noted
  -- to be taken out, and each definition's name leads to a tool of a server.
  pub Reached-IsSynced :
      (own_tools : Registry) (h : Pairing)
      → All IsOwn own_tools
      → Reached own_tools h
      → IsSynced h.manager.tool_defs h.seen
  unfolding start reload_all list_tools close_all new_manager
  Reached-IsSynced o _ a (created cs w) = record { backed = IsOwn-Backed o a; offered = tt }
  Reached-IsSynced o _ a (started_all h R) =
      refresh_tools-IsPaired _ (start_each-IsPaired _ h (Reached-IsSynced o h a R))
  Reached-IsSynced o _ a (updated c h R) = add_or_update-IsPaired c h (Reached-IsSynced o h a R)
  Reached-IsSynced o _ a (removed n h R) = remove-IsPaired n h (Reached-IsSynced o h a R)
  Reached-IsSynced o _ a (reloaded cs h R) =
      refresh_tools-IsPaired _
        (reload_each-IsPaired cs _ (remove_each-IsPaired _ h (Reached-IsSynced o h a R)))
  Reached-IsSynced o _ a (listed h R) =
      let S = Reached-IsSynced o h a R in
      if_ind (λ (r : List ToolDef × Pairing). IsPaired r.1) (is_empty h.manager.tool_defs)
        (λ e. refresh_tools-IsPaired h S) (λ e. S)
  Reached-IsSynced o _ a (closed h R) = Reached-IsSynced o h a R

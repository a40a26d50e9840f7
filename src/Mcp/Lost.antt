-- ===== src/Mcp/Lost.antt =====
-- mcp_service.go and manager.go: tools that the agent loses, and tools of a server that is gone.
use ai_desktop_assistant.Common.{
  ◌≡◌, refl, ◌∙◌, String, Char, true, false, Option, none, some, List, [], ◌∷◌, map, arith, All,
  str_eq, str_eq_refl, Bool-cases, subst, sym, if_ind, inl, inr, ◌⊎◌,
}
use ai_desktop_assistant.Common.Map.{
  lookup, delete, lookup-insert, lookup-insert_self, lookup-delete, lookup-delete_self,
}
use ai_desktop_assistant.Common.Text.{is_blank}
use ai_desktop_assistant.Repository.Entities.{ServerConfig}
use ai_desktop_assistant.Mcp.{ToolDef, Client, Connections, TransportKind}
use ai_desktop_assistant.Mcp.Manager.{
  Host, drop_client, dropped, start_one, start_kind, started, kind_of,
}
use ai_desktop_assistant.Mcp.Calls.{add_or_update, refreshed, with_config, with_timeout}
use ai_desktop_assistant.Mcp.Service.{
  own, served, Registry, Registered, register, unregister, tool_name, unregister_each,
  register_each, sync_tools,
}
use ai_desktop_assistant.Mcp.Synced.{is_name}

abbrev tool_names : List ToolDef → List String
tool_names ds = map (λ d. d.name) ds

-- One synchronization after the other.
abbrev pub sync_each : List (List ToolDef) → Registered → Registered
sync_each [] s = s
sync_each (ds ∷ dss) s = sync_each dss (sync_tools ds s)

-- A name that is noted, or that leads to nothing, leads to nothing once the noted names are taken out.
lookup-unregister_each :
    (n : String) (ns : List String) (r : Registry)
    → (is_name n ns ≡ true) ⊎ (lookup n r ≡ none)
    → lookup n (unregister_each ns r) ≡ none
unfolding unregister_each unregister
lookup-unregister_each n [] r (inl h) = ground (arith, h)
lookup-unregister_each n [] r (inr h) = h
lookup-unregister_each n (k ∷ ns) r h =
    lookup-unregister_each n ns (delete k r) (left_lem (Bool-cases (str_eq k n)) h)
  where
    left_lem :
        (str_eq k n ≡ true) ⊎ (str_eq k n ≡ false)
        → (is_name n (k ∷ ns) ≡ true) ⊎ (lookup n r ≡ none)
        → (is_name n ns ≡ true) ⊎ (lookup n (delete k r) ≡ none)
    left_lem (inl e) g = inr (rw (lookup-delete k n r, e) refl)
    left_lem (inr e) (inl g) = inl (ground (arith, e, g))
    left_lem (inr e) (inr g) = inr (rw (lookup-delete k n r, e) g)

lookup-register_each :
    (n : String) (ds : List ToolDef) (r : Registry)
    → is_name n (tool_names ds) ≡ false
    → lookup n (register_each ds r) ≡ lookup n r
unfolding register_each register tool_name
lookup-register_each n [] r h = refl
lookup-register_each n (d ∷ ds) r h =
    lookup-register_each n ds _ (ground (arith, h))
    ∙ rw (lookup-insert d.name n (served d) r) (ground (arith, h))

lookup-sync_tools :
    (n : String) (ds : List ToolDef) (s : Registered)
    → is_name n (tool_names ds) ≡ false
    → (is_name n s.mcp_tool_names ≡ true) ⊎ (lookup n s.registry ≡ none)
    → lookup n (sync_tools ds s).registry ≡ none
unfolding sync_tools
lookup-sync_tools n ds s h k =
    lookup-register_each n ds _ h ∙ lookup-unregister_each n s.mcp_tool_names s.registry k

lookup-sync_each :
    (n : String) (dss : List (List ToolDef)) (s : Registered)
    → All (λ ds. is_name n (tool_names ds) ≡ false) dss
    → lookup n s.registry ≡ none
    → lookup n (sync_each dss s).registry ≡ none
lookup-sync_each n [] s h k = k
lookup-sync_each n (ds ∷ dss) s (p, h) k =
    lookup-sync_each n dss (sync_tools ds s) h (lookup-sync_tools n ds s p (inr k))

-- A tool of the program's own is lost to a server's tool of the same name: the synchronization puts the server's tool
-- in its place, and after the next one that has no tool of that name, and after any number of further ones of that
-- kind, the name leads to no tool.
pub sync_tools-lost :
    (d : ToolDef) (k about : String) (s : Registered) (ds : List ToolDef)
    (dss : List (List ToolDef))
    → lookup d.name s.registry ≡ some (own k about)
    → is_name d.name (tool_names ds) ≡ false
    → All (λ es. is_name d.name (tool_names es) ≡ false) dss
    → (lookup d.name (sync_tools (d ∷ []) s).registry ≡ some (served d))
      × (lookup d.name (sync_each dss (sync_tools ds (sync_tools (d ∷ []) s))).registry ≡ none)
unfolding sync_tools register_each register tool_name
sync_tools-lost d k about s ds dss o h hs = (
  lookup-insert_self d.name (served d) (unregister_each s.mcp_tool_names s.registry),
  lookup-sync_each d.name dss _ hs
      (lookup-sync_tools d.name ds _ h (inl (ground (arith, str_eq_refl d.name)))),
)

module _ {W S : Type 0} (net : Connections W) (on_change : List ToolDef → S → S)
    (lower : Char → Char) where
  -- The error of such a call, and what is gone and what is left after it.
  abbrev IsStale : String → String → Host W S → Option String × Host W S → Type 0
  IsStale n e h r =
      (r.0 ≡ some e)
      × (lookup n r.1.manager.clients ≡ none)
      × (r.1.manager.tool_defs ≡ h.manager.tool_defs)
      × (r.1.manager.tool_route ≡ h.manager.tool_route)
      × (r.1.seen ≡ h.seen)

  drop_client-IsStale :
      (n e : String) (h : Host W S) → IsStale n e h (some e, drop_client net on_change lower n h)
  unfolding drop_client
  drop_client-IsStale n e h = dropped_lem (lookup n h.manager.clients) refl
    where
      dropped_lem :
          (o : Option Client)
          → lookup n h.manager.clients ≡ o
          → IsStale n e h (some e, dropped net on_change lower n o h)
      dropped_lem none q = (refl, q, refl, refl, refl)
      dropped_lem (some c) q = (refl, lookup-delete_self n h.manager.clients, refl, refl, refl)

  start_kind-IsStale :
      (n e : String) (h g : Host W S) (c : ServerConfig) (k : TransportKind)
      → IsStale n e h (some e, g)
      → ((w : W) → (net.initialize (record { kind = k; config = c }) w).0 ≡ some e)
      → IsStale n e h (refreshed net on_change lower (start_kind net on_change lower c (some k) g))
  start_kind-IsStale n e h g c k (_, gone, defs, routes, seen) fails =
      let cl : Client = record { kind = k; config = c } in
      let tried = record g { world = (net.initialize cl g.world).1 } in
      subst
        (λ o.
          IsStale n e h (refreshed net on_change lower (started net on_change lower cl o tried)))
        (sym (fails g.world)) (refl, gone, defs, routes, seen)

  -- Where a server is added or changed that can not be initialized, its client is gone, and yet the manager's
  -- definitions and routes, and what its callback keeps, the agent's tools, stay as they were. (The server has a
  -- name and a known transport, and is enabled.)
  pub add_or_update-stale :
      (c : ServerConfig) (h : Host W S) (k : TransportKind) (e : String)
      → is_blank c.name ≡ false
      → c.enabled ≡ true
      → kind_of net on_change lower c.transport ≡ some k
      → ((w : W) → (net.initialize (record { kind = k; config = with_timeout c }) w).0 ≡ some e)
      → let r = add_or_update net on_change lower c h in
        (r.0 ≡ some e)
        × (lookup c.name r.1.manager.clients ≡ none)
        × (r.1.manager.tool_defs ≡ h.manager.tool_defs)
        × (r.1.manager.tool_route ≡ h.manager.tool_route)
        × (r.1.seen ≡ h.seen)
  unfolding add_or_update start_one
  add_or_update-stale c h k e named on known fails =
      let P = IsStale c.name e h in
      let k' = record h { manager = with_config (with_timeout c) h.manager } in
      let g = drop_client net on_change lower c.name k' in
      if_ind P (is_blank c.name) (λ blank. absurd (ground (arith, named, blank)))
        (λ _.
          if_ind P c.enabled
            (λ _.
              subst
                (λ o. P (
                  refreshed net on_change lower
                    (start_kind net on_change lower (with_timeout c) o g)))
                (sym known)
                (start_kind-IsStale c.name e h g (with_timeout c) k
                  (drop_client-IsStale c.name e k') fails))
            (λ off. absurd (ground (arith, on, off))))

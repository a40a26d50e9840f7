-- ===== src/Mcp/Synced.antt =====
-- mcp_service.go and manager.go: the servers' tools among the agent's.
use ai_desktop_assistant.Common.{
  ◌≡◌, refl, String, Bool, true, false, some, List, [], ◌∷◌, map, arith, All, if_ind, str_eq,
  str_eq_iff, str_eq_refl, any, Bool-cases, inl, inr, ◌⊎◌, Member, here, there,
}
use ai_desktop_assistant.Common.Map.{lookup, insert, delete, lookup-insert}
use ai_desktop_assistant.Mcp.{ToolDef}
use ai_desktop_assistant.Mcp.Service.{
  Tool, own, served, Registry, Registered, register, unregister, tool_name, unregister_each,
  register_each, sync_tools,
}

abbrev pub is_name : String → List String → Bool
is_name n ns = any (λ m. str_eq m n) ns

-- An entry of a server's tool is one of the definitions, under a name that is noted.
abbrev pub Backed : List ToolDef → List String → String × Tool → Type 0
Backed ds ns (k, own n d) = Unit
Backed ds ns (k, served d) = Member d ds × (is_name k ns ≡ true)

-- A name of the registry that leads to a tool of a server.
abbrev pub Offered : Registry → ToolDef → Type 0
Offered r d = (e : ToolDef) × (lookup d.name r ≡ some (served e))

-- The tools of servers in the registry are of the manager's definitions, under names that are noted, and each
-- definition's name leads to such a tool.
pub record IsSynced (ds : List ToolDef) (s : Registered) : Type 0 where
  pub backed : All (Backed ds s.mcp_tool_names) s.registry
  pub offered : All (Offered s.registry) ds

All-insert :
    (P : String × Tool → Type 0) (k : String) (t : Tool) (r : Registry)
    → P (k, t)
    → All P r
    → All P (insert k t r)
unfolding insert
All-insert P k t [] p h = (p, tt)
All-insert P k t ((j, u) ∷ r) p (q, h) =
    if_ind (All P) (str_eq j k) (λ e. (p, h)) (λ e. (q, All-insert P k t r p h))

-- An entry that is the program's own or whose name is still to be taken out.
abbrev Left : List String → String × Tool → Type 0
Left ns (k, own n d) = Unit
Left ns (k, served d) = is_name k ns ≡ true

delete-Left :
    (n : String) (ns : List String) (r : Registry)
    → All (Left (n ∷ ns)) r
    → All (Left ns) (delete n r)
unfolding delete
delete-Left n ns [] h = tt
delete-Left n ns ((j, own m d) ∷ r) (q, h) =
    if_ind (All (Left ns)) (str_eq j n) (λ e. delete-Left n ns r h)
      (λ e. (tt, delete-Left n ns r h))
delete-Left n ns ((j, served d) ∷ r) (q, h) =
    if_ind (All (Left ns)) (str_eq j n) (λ e. delete-Left n ns r h)
      (λ e. (ground (arith, e, q, str_eq_iff n j, str_eq_refl j), delete-Left n ns r h))

unregister_each-Left :
    (ns : List String) (r : Registry) → All (Left ns) r → All (Left []) (unregister_each ns r)
unfolding unregister_each unregister
unregister_each-Left [] r h = h
unregister_each-Left (n ∷ ns) r h = unregister_each-Left ns (delete n r) (delete-Left n ns r h)

Backed-Left :
    (ds : List ToolDef) (ns : List String) (r : Registry) → All (Backed ds ns) r → All (Left ns) r
Backed-Left ds ns [] h = tt
Backed-Left ds ns ((k, own n d) ∷ r) (q, h) = (tt, Backed-Left ds ns r h)
Backed-Left ds ns ((k, served d) ∷ r) (q, h) = (q.1, Backed-Left ds ns r h)

Left-Backed :
    (ds : List ToolDef) (ns : List String) (r : Registry) → All (Left []) r → All (Backed ds ns) r
Left-Backed ds ns [] h = tt
Left-Backed ds ns ((k, own n d) ∷ r) (q, h) = (tt, Left-Backed ds ns r h)
Left-Backed ds ns ((k, served d) ∷ r) (q, h) = ground (arith, q)

-- What is registered is backed.
register_each-Backed :
    (ds : List ToolDef) (ns : List String) (es : List ToolDef) (r : Registry)
    → All (λ d. Member d ds × (is_name d.name ns ≡ true)) es
    → All (Backed ds ns) r
    → All (Backed ds ns) (register_each es r)
unfolding register_each register tool_name
register_each-Backed ds ns [] r h k = k
register_each-Backed ds ns (e ∷ es) r (p, h) k =
    register_each-Backed ds ns es _ h (All-insert (Backed ds ns) e.name (served e) r p k)

members_lem :
    (ds : List ToolDef) → All (λ d. Member d ds × (is_name d.name (map (λ e. e.name) ds) ≡ true)) ds
members_lem [] = tt
members_lem (d ∷ ds) =
    ((here, ground (arith, str_eq_refl d.name)), weaken_lem ds ds _ (members_lem ds))
  where
    weaken_lem :
        (es fs : List ToolDef) (ns : List String)
        → All (λ e. Member e fs × (is_name e.name ns ≡ true)) es
        → All (λ e. Member e (d ∷ fs) × (is_name e.name (d.name ∷ ns) ≡ true)) es
    weaken_lem [] fs ns h = tt
    weaken_lem (e ∷ es) fs ns ((m, q), h) = ((there m, ground (arith, q)), weaken_lem es fs ns h)

-- A name that leads to a tool of a server does so after more are registered.
register_each-Offered :
    (es : List ToolDef) (r : Registry) (d : ToolDef) → Offered r d → Offered (register_each es r) d
unfolding register_each register tool_name
register_each-Offered [] r d h = h
register_each-Offered (e ∷ es) r d h =
    register_each-Offered es (insert e.name (served e) r) d
      (insert_lem (Bool-cases (str_eq e.name d.name)))
  where
    insert_lem :
        (str_eq e.name d.name ≡ true) ⊎ (str_eq e.name d.name ≡ false)
        → Offered (insert e.name (served e) r) d
    insert_lem (inl q) = (e, rw (lookup-insert e.name d.name (served e) r, q) refl)
    insert_lem (inr q) = (h.0, rw (lookup-insert e.name d.name (served e) r, q) h.1)

registered-Offered : (es : List ToolDef) (r : Registry) → All (Offered (register_each es r)) es
unfolding register_each register tool_name
registered-Offered [] r = tt
registered-Offered (e ∷ es) r = (
  register_each-Offered es _ e
      (e, rw (lookup-insert e.name e.name (served e) r, str_eq_refl e.name) refl),
  registered-Offered es (insert e.name (served e) r),
)

-- Whatever the definitions were before, after a synchronization those in the registry are the new ones.
pub sync_tools-IsSynced :
    (ds es : List ToolDef) (s : Registered) → IsSynced es s → IsSynced ds (sync_tools ds s)
unfolding sync_tools
sync_tools-IsSynced ds es s S =
    let ns = map (λ d. d.name) ds in
    record {
      backed = register_each-Backed ds ns ds _ (members_lem ds) (
          Left-Backed ds ns _ (
            unregister_each-Left s.mcp_tool_names s.registry
              (Backed-Left es s.mcp_tool_names s.registry S.backed)));
      offered = registered-Offered ds _;
    }

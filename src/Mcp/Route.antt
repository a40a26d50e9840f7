-- ===== src/Mcp/Route.antt =====
-- manager.go: the call of a tool by the name that the agent sees.
use Prim.Native.String.{◌++◌ as append}
use ai_desktop_assistant.Common.{
  ◌≡◌, refl, sym, ap, ◌∙◌, String, Char, Bool, false, some, List, [], ◌∷◌, ◌++◌, arith, str_eq, any,
  Member, here, there, char_eq,
}
use ai_desktop_assistant.Common.Map.{Map, lookup, insert, lookup-insert, lookup-insert_self}
use ai_desktop_assistant.Common.Text.{runes, of_runes, split_at, is_prefix}
use ai_desktop_assistant.Common.TextLaws.{runes-append}
use ai_desktop_assistant.Values.{Value}
use ai_desktop_assistant.Mcp.{ToolDef, Client, Connections}
use ai_desktop_assistant.Mcp.Manager.{
  Host, Pair, client_name, clients_of, exposed_name, exposed, route_text, add_tools, add_pairs,
  ask_all, refresh_tools,
}
use ai_desktop_assistant.Mcp.Calls.{
  route_parts, parts_of, call_route, call_parts, call_client, call_tool,
}

-- A name and its route.
abbrev Row : Type 0
Row = String × String

put_all : List Row → Map String → Map String
put_all [] m = m
put_all ((n, r) ∷ rows) m = put_all rows (insert n r m)

abbrev row : List Pair → Client → ToolDef → Row
row ps c t = (exposed_name ps c t, route_text (client_name c) t.name)

abbrev rows : List Pair → Client → List ToolDef → List Row
rows ps c [] = []
rows ps c (t ∷ ts) = row ps c t ∷ rows ps c ts

-- The rows of all clients, in order.
abbrev pub all_rows : List Pair → List Pair → List Row
all_rows ps [] = []
all_rows ps ((c, ts) ∷ qs) = rows ps c ts ++ all_rows ps qs

abbrev is_named : String → List Row → Bool
is_named n rs = any (λ r. str_eq r.0 n) rs

-- No two tools are seen under one name.
abbrev pub IsDistinct : List Row → Type 0
IsDistinct [] = Unit
IsDistinct (r ∷ rs) = (is_named r.0 rs ≡ false) × IsDistinct rs

add_tools-route :
    (ps : List Pair) (c : Client) (ts : List ToolDef) (r : Map String × List ToolDef)
    → (add_tools ps c ts r).0 ≡ put_all (rows ps c ts) r.0
unfolding add_tools put_all
add_tools-route ps c [] r = refl
add_tools-route ps c (t ∷ ts) r = add_tools-route ps c ts _

put_all-append :
    (xs ys : List Row) (m : Map String) → put_all (xs ++ ys) m ≡ put_all ys (put_all xs m)
unfolding put_all
put_all-append [] ys m = refl
put_all-append ((n, r) ∷ xs) ys m = put_all-append xs ys (insert n r m)

add_pairs-route :
    (ps qs : List Pair) (r : Map String × List ToolDef)
    → (add_pairs ps qs r).0 ≡ put_all (all_rows ps qs) r.0
unfolding add_pairs put_all
add_pairs-route ps [] r = refl
add_pairs-route ps ((c, ts) ∷ qs) r =
    add_pairs-route ps qs (add_tools ps c ts r)
    ∙ ap (put_all (all_rows ps qs)) (add_tools-route ps c ts r)
    ∙ sym (put_all-append (rows ps c ts) (all_rows ps qs) r.0)

put_all-other :
    (n : String) (rs : List Row) (m : Map String)
    → is_named n rs ≡ false
    → lookup n (put_all rs m) ≡ lookup n m
unfolding put_all
put_all-other n [] m h = refl
put_all-other n ((k, r) ∷ rs) m h =
    put_all-other n rs (insert k r m) (ground (arith, h))
    ∙ rw (lookup-insert k n r m) (ground (arith, h))

put_all-Member :
    (n r : String) (rs : List Row) (m : Map String)
    → IsDistinct rs
    → Member (n, r) rs
    → lookup n (put_all rs m) ≡ some r
unfolding put_all
put_all-Member n r _ m d here = put_all-other n _ (insert n r m) d.0 ∙ lookup-insert_self n r m
put_all-Member n r _ m d (there k) = put_all-Member n r _ _ d.1 k

Member-left {ℓ} : {A : Type ℓ} (x : A) (xs ys : List A) → Member x xs → Member x (xs ++ ys)
Member-left x _ ys here = here
Member-left x _ ys (there k) = there (Member-left x _ ys k)

Member-right {ℓ} : {A : Type ℓ} (x : A) (xs ys : List A) → Member x ys → Member x (xs ++ ys)
Member-right x [] ys k = k
Member-right x (z ∷ xs) ys k = there (Member-right x xs ys k)

rows-Member :
    (ps : List Pair) (c : Client) (t : ToolDef) (ts : List ToolDef)
    → Member t ts
    → Member (row ps c t) (rows ps c ts)
rows-Member ps c t _ here = here
rows-Member ps c t _ (there k) = there (rows-Member ps c t _ k)

all_rows-Member :
    (ps : List Pair) (c : Client) (ts : List ToolDef) (t : ToolDef) (qs : List Pair)
    → Member (c, ts) qs
    → Member t ts
    → Member (row ps c t) (all_rows ps qs)
all_rows-Member ps c ts t _ here k = Member-left _ (rows ps c ts) _ (rows-Member ps c t ts k)
all_rows-Member ps c ts t _ (there q) k = Member-right _ _ _ (all_rows-Member ps c ts t _ q k)

-- The text of a route is read back.
abbrev zero_rune : Char
zero_rune = "\0"

abbrev pub has_zero : List Char → Bool
has_zero cs = any (λ c. char_eq zero_rune c) cs

split_at_zero :
    (cs ds : List Char)
    → has_zero cs ≡ false
    → split_at (zero_rune ∷ []) (cs ++ (zero_rune ∷ ds)) ≡ some (cs, ds)
unfolding split_at is_prefix
split_at_zero [] ds h = refl
split_at_zero (c ∷ cs) ds h = ground (arith, h, split_at_zero cs ds)

of_runes-runes : (s : String) → of_runes (runes s) ≡ s
unfolding of_runes runes
of_runes-runes String.[] = refl
of_runes-runes (String.◌∷◌ c s) = ap (String.◌∷◌ c) (of_runes-runes s)

route_parts-route_text :
    (server tool : String)
    → has_zero (runes server) ≡ false
    → route_parts (route_text server tool) ≡ some (server, tool)
unfolding route_parts route_text runes
route_parts-route_text server tool h =
    let whole : runes (append server (append "\0" tool))
        ≡ runes server ++ (zero_rune ∷ runes tool) =
      runes-append server (append "\0" tool)
      ∙ ap (λ l. runes server ++ l) (runes-append "\0" tool) in
    ap (λ l. parts_of (split_at (zero_rune ∷ []) l)) whole
    ∙ ap parts_of (split_at_zero (runes server) (runes tool) h)
    ∙ pair_lem
  where
    pair_lem : parts_of (some (runes server, runes tool)) ≡ some (server, tool)
    pair_lem = λ i. some (of_runes-runes server i, of_runes-runes tool i)

add_tools-kept :
    (ps : List Pair) (c : Client) (ts : List ToolDef) (r : Map String × List ToolDef) (d : ToolDef)
    → Member d r.1
    → Member d (add_tools ps c ts r).1
unfolding add_tools
add_tools-kept ps c [] r d h = h
add_tools-kept ps c (t ∷ ts) r d h =
    add_tools-kept ps c ts _ d (Member-left d r.1 (exposed ps c t ∷ []) h)

add_pairs-kept :
    (ps qs : List Pair) (r : Map String × List ToolDef) (d : ToolDef)
    → Member d r.1
    → Member d (add_pairs ps qs r).1
unfolding add_pairs
add_pairs-kept ps [] r d h = h
add_pairs-kept ps ((c, ts) ∷ qs) r d h =
    add_pairs-kept ps qs (add_tools ps c ts r) d (add_tools-kept ps c ts r d h)

add_tools-Member :
    (ps : List Pair) (c : Client) (t : ToolDef) (ts : List ToolDef) (r : Map String × List ToolDef)
    → Member t ts
    → Member (exposed ps c t) (add_tools ps c ts r).1
unfolding add_tools
add_tools-Member ps c t (_ ∷ us) r here =
    add_tools-kept ps c us
      (
        insert (exposed_name ps c t) (route_text (client_name c) t.name) r.0,
        r.1 ++ exposed ps c t ∷ [],
      )
      (exposed ps c t) (Member-right _ r.1 (exposed ps c t ∷ []) here)
add_tools-Member ps c t _ r (there k) = add_tools-Member ps c t _ _ k

add_pairs-Member :
    (ps : List Pair) (c : Client) (ts : List ToolDef) (t : ToolDef) (qs : List Pair)
    (r : Map String × List ToolDef)
    → Member (c, ts) qs
    → Member t ts
    → Member (exposed ps c t) (add_pairs ps qs r).1
unfolding add_pairs
add_pairs-Member ps c ts t (_ ∷ us) r here k =
    add_pairs-kept ps us (add_tools ps c ts r) (exposed ps c t) (add_tools-Member ps c t ts r k)
add_pairs-Member ps c ts t _ r (there q) k = add_pairs-Member ps c ts t _ _ q k

-- After the tables are made again, each tool of each client that listed its tools has a definition among those that
-- the agent is shown, with its server's name and its own schema, and a call by that definition's name is the call of the tool's own name at its
-- own client; where no two tools are seen under one name, the client stands under its own name, and that name has
-- no zero byte.
pub call_tool-exposed :
    {W S : Type 0} (net : Connections W) (on_change : List ToolDef → S → S) (lower : Char → Char)
    (h : Host W S) (c : Client) (ts : List ToolDef) (t : ToolDef) (args : Map Value) (w : W)
    → let asked = (ask_all net on_change lower (clients_of h.manager.clients) h.world).0 in
      IsDistinct (all_rows asked asked)
      → Member (c, ts) asked
      → Member t ts
      → lookup (client_name c) h.manager.clients ≡ some c
      → has_zero (runes (client_name c)) ≡ false
      → let m = (refresh_tools net on_change lower h).manager in
        (d : ToolDef) × Member d m.tool_defs
        × (d.server_name ≡ client_name c)
        × (d.input_schema ≡ t.input_schema)
        × (call_tool net m d.name args w ≡ net.call_tool c t.name args w)
unfolding call_tool refresh_tools exposed
call_tool-exposed net on_change lower h c ts t args w d p q k z =
    let asked = (ask_all net on_change lower (clients_of h.manager.clients) h.world).0 in
    let m = (refresh_tools net on_change lower h).manager in
    let name = exposed_name asked c t in
    let found = add_pairs-route asked asked ([], []) in
    let led =
      put_all-Member name _ (all_rows asked asked) [] d (all_rows-Member asked c ts t asked p q) in
    (
      exposed asked c t,
      add_pairs-Member asked c ts t asked ([], []) p q,
      refl,
      refl,
      ap (λ o. call_route net m name o args w) (ap (lookup name) found ∙ led)
          ∙ ap (λ o. call_parts net m name o args w)
              (route_parts-route_text (client_name c) t.name z)
          ∙ ap (λ o. call_client net o (client_name c) t.name args w) k,
    )

-- ===== src/Router.antt =====
-- internal/domain/agent/service/orchestrator/model_router.go: which model serves a scenario. Each method
-- holds the router's lock, so it is one step. A counter does not overflow.
pub mod Rotation
mod Samples
use ai_desktop_assistant.Common.{
  ℕ, zero, suc, ◌+◌, ◌%◌, String, Char, Bool, true, false, Option, none, some, List, [], ◌∷◌, ◌++◌,
  map, if◌then◌else◌, str_eq, is_empty, length, get_elem?,
}
use ai_desktop_assistant.Common.Int.{ℤ, pos, negsuc, pos_part, positive_or}
use ai_desktop_assistant.Common.Map.{Map, lookup, lookup_or, insert}
use ai_desktop_assistant.Common.Text.{is_blank, to_lower}

pub record ModelProfile : Type 0 where
  pub name : String
  pub api_base : String
  pub api_key : String
  pub weight : ℤ
  pub scenarios : List String

pub record ModelRouter : Type 0 where
  pub default_model : String
  pub profiles : Map ModelProfile
  pub routes : Map (List String)
  pub counter : Map ℕ

unfoldable pub new_model_router : String → ModelRouter
new_model_router default_model = record {
  default_model = default_model;
  profiles = [];
  routes =
      ("chat", "fast" ∷ "default" ∷ [])
      ∷ ("complex", "strong" ∷ "default" ∷ [])
      ∷ ("code", "strong" ∷ "default" ∷ [])
      ∷ ("browser", "fast" ∷ "default" ∷ [])
      ∷ ("file", "fast" ∷ [])
      ∷ ("command", "fast" ∷ [])
      ∷ [];
  counter = [];
}

unfoldable pub append_unique : List String → String → List String
append_unique [] v = v ∷ []
append_unique (s ∷ ss) v = if str_eq s v then s ∷ ss else s ∷ append_unique ss v

-- `pool[i]`
abbrev pub nth : List String → ℕ → String
nth names i = elim (get_elem? names i) [ none ↦ "" | some name ↦ name ]

-- `for i := 0; i < w; i++ { pool = append(pool, name) }`
unfoldable pub repeat : ℕ → String → List String
repeat zero name = []
repeat (suc n) name = name ∷ repeat n name

unfoldable pub weight_of : Map ModelProfile → String → ℤ
weight_of profiles name = elim (lookup name profiles) [ none ↦ pos 1 | some p ↦ p.weight ]

-- The candidates, each as often as its weight.
unfoldable pub expand : Map ModelProfile → List String → List String
unfolding repeat weight_of
expand profiles [] = []
expand profiles (name ∷ names) =
    repeat (pos_part (weight_of profiles name)) name ++ expand profiles names

module _ (lower : Char → Char) where
  -- The loop of `Register` over the scenarios.
  unfoldable pub add_routes : String → List String → Map (List String) → Map (List String)
  unfolding append_unique
  add_routes name [] routes = routes
  add_routes name (sc ∷ scenarios) routes =
      let key = to_lower lower sc in
      add_routes name scenarios (insert key (append_unique (lookup_or [] key routes) name) routes)

  unfoldable pub register : ModelProfile → ModelRouter → ModelRouter
  unfolding add_routes
  register p r =
      if is_blank p.name
      then r
      else (let p' = record p { weight = pos (positive_or 1 p.weight) } in
          record r {
            profiles = insert p.name p' r.profiles;
            routes = add_routes p.name p.scenarios r.routes;
          })

  unfoldable pub select : String → ModelRouter → ModelRouter × String
  unfolding expand
  select scenario r =
      let key = to_lower lower scenario in
      let cands = lookup_or [] key r.routes in
      if is_empty cands
      then (r, if is_blank r.default_model then "default" else r.default_model)
      else (let pool = expand r.profiles cands in
          if is_empty pool
          then (r, r.default_model)
          else (let n = lookup_or 0 key r.counter in
              (record r { counter = insert key (n + 1) r.counter }, nth pool (n % length pool))))

unfoldable pub set_default : String → ModelRouter → ModelRouter
set_default name r = record r { default_model = name }

-- `Routes`, a copy.
unfoldable pub routes_of : ModelRouter → Map (List String)
routes_of r = r.routes

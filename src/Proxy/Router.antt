-- ===== src/Proxy/Router.antt =====
-- proxy/proxy.go: the router's table with its age. A call that finds no fresh entry looks again after one
-- rebuild, its own or one in flight that it joins (`Flight`); that another request forgets a name or
-- stores a further table between is not modelled here.
use llm_server_manager.Base.{
  String, Bool, false, Option, none, some, List, [], ℕ, ◌-◌, ltb, if◌then◌else◌, lookup, erase,
}
use llm_server_manager.Proxy.Table.{Target, PublishedModel, Source, build, empty_build}

-- `built_at` is `none` for the zero time.
pub record Router : Type 0 where
  pub table : List (String × List Target)
  pub entries : List PublishedModel
  pub built_at : Option ℕ
  pub ttl : ℕ

-- DefaultRouteTTL, two seconds.
abbrev pub default_route_ttl : ℕ
default_route_ttl = 2000000000

unfoldable pub new_router : Router
new_router = record { table = []; entries = []; built_at = none; ttl = default_route_ttl }

unfoldable pub is_fresh : Router → ℕ → Bool
is_fresh r now = elim r.built_at [ none ↦ false | some t ↦ ltb (now - t) r.ttl ]

-- lookup: the targets of a name, if the table is fresh.
unfoldable pub lookup_route : Router → String → ℕ → Option (List Target)
unfolding is_fresh
lookup_route r name now = if is_fresh r now then lookup name r.table else none

-- A rebuild: the running models as it saw them, and when it was done. Where refresh joins a rebuild in
-- flight, this is that rebuild, which may have looked before the call.
pub record View : Type 0 where
  pub sources : List Source
  pub done : ℕ

unfoldable pub rebuild : Router → View → Router
unfolding build
rebuild r v =
    let b = build v.sources empty_build in
    record r { table = b.table; entries = b.entries; built_at = some v.done }

-- resolve: the table's answer, or if it has none at `now`, that of the table which the rebuild `v` that
-- refresh runs or joins has stored. `later` is the time of the second look.
unfoldable pub resolve : Router → String → ℕ → View → ℕ → Router × Option (List Target)
unfolding lookup_route rebuild
resolve r name now v later = elim (lookup_route r name now) [
  | some ts ↦ (r, some ts)
  | none ↦ let r' = rebuild r v in (r', lookup_route r' name later)
]

unfoldable pub invalidate : Router → String → Router
invalidate r name = record r { table = erase name r.table; built_at = none }

-- ListModels: the published models, from a table that is fresh or was just rebuilt.
unfoldable pub list_entries : Router → ℕ → View → Router × List PublishedModel
unfolding is_fresh rebuild
list_entries r now v =
    if is_fresh r now then (r, r.entries) else (let r' = rebuild r v in (r', r'.entries))

-- ===== src/Proxy/Routes.antt =====
-- proxy/proxy.go: the routing table against its meaning, the list of running models.
use llm_server_manager.Base.{
  ◌≡◌, refl, ap, ◌∙◌, String, ◌==◌, eq_iff, Bool, true, false, ◌&&◌, ◌||◌, not, Option, none, some,
  List, [], ◌∷◌, ◌++◌, ℕ, if◌then◌else◌, lookup, lookup-insert, from_option, inl, inr, arith,
  Option-cases, Bool-cases, sym,
}
use mathlib.Core.List.{append_assoc, append-nil}
use llm_server_manager.Models.{ModelConfig, ModelItem, RunningServer}
use llm_server_manager.Fleet.Worker.{Url}
use llm_server_manager.Fleet.Registry.{WorkerSnapshot}
use llm_server_manager.Fleet.Port.{routable_port}
use llm_server_manager.Proxy.Table.{
  Target, Source, Build, keys, claim_name, append_target, add_keys, publish, target_of, add_target,
  empty_build, build, sources, snapshot_sources, item_sources, local_sources, is_online,
  is_starting, hostname,
}

-- A model is reached under its name and under its alias, if it has one.
abbrev pub publishes : String → ModelConfig → Bool
publishes k c = c.name == k || not (c.alias == "") && c.alias == k

-- The target of one running model for a name.
abbrev pub route : String → Source → List Target
route k s = elim (routable_port s.config) [
  | none ↦ []
  | some port ↦ if publishes k s.config then target_of s port ∷ [] else []
]

-- The targets of a name: those of the running models that publish it and are routable, in order.
abbrev pub routes : String → List Source → List Target
routes k [] = []
routes k (s ∷ ss) = route k s ++ routes k ss

-- An entry of the table, with targets added behind those it has.
abbrev pub add_routes : Option (List Target) → List Target → Option (List Target)
add_routes o [] = o
add_routes o (t ∷ ts) = some (from_option [] o ++ t ∷ ts)

add_routes-append :
    (o : Option (List Target)) (xs ys : List Target)
    → add_routes (add_routes o xs) ys ≡ add_routes o (xs ++ ys)
add_routes-append o [] ys = refl
add_routes-append o (x ∷ xs) [] = rw append-nil
add_routes-append o (x ∷ xs) (y ∷ ys) = ap some (append_assoc (from_option [] o) (x ∷ xs) (y ∷ ys))

claim_name-table : (m : String) (k : String × Bool) (b : Build) → (claim_name m k b).table ≡ b.table
unfolding claim_name
claim_name-table m k b = ground arith

pub publish-table : (c : ModelConfig) (n : ℕ) (b : Build) → (publish c n b).table ≡ b.table
unfolding publish
publish-table c n b = ground arith

-- One key more.
key-lookup :
    (k j : String) (alias : Bool) (t : Target) (b : Build)
    → lookup k (append_target j t (claim_name t.machine (j, alias) b)).table
      ≡ (if j == k then some (from_option [] (lookup j b.table) ++ t ∷ []) else lookup k b.table)
unfolding append_target
key-lookup k j alias t b =
    lookup-insert j k
      (from_option [] (lookup j (claim_name t.machine (j, alias) b).table) ++ t ∷ [])
      (claim_name t.machine (j, alias) b).table
    ∙ rw (claim_name-table t.machine (j, alias) b)

pub add_keys-lookup :
    (k : String) (t : Target) (c : ModelConfig) (b : Build)
    → lookup k (add_keys t (keys c) b).table
      ≡ add_routes (lookup k b.table) (if publishes k c then t ∷ [] else [])
unfolding add_keys keys
add_keys-lookup k t c b =
    let named = append_target c.name t (claim_name t.machine (c.name, false) b) in
    ground (
      arith,
      key-lookup k c.name false t b,
      key-lookup k c.alias true t named,
      key-lookup c.alias c.name false t b,
      eq_iff c.name k,
      eq_iff c.alias k,
      eq_iff c.alias c.name,
      eq_iff c.name c.alias,
    )

pub add_target-lookup :
    (k : String) (s : Source) (b : Build)
    → lookup k (add_target s b).table ≡ add_routes (lookup k b.table) (route k s)
unfolding add_target
add_target-lookup k s b = elim (Option-cases (routable_port s.config)) [
  | inl q ↦ ground arith
  | inr (port, q) ↦ ground (
    arith,
    publish-table s.config s.created (add_keys (target_of s port) (keys s.config) b),
    add_keys-lookup k (target_of s port) s.config b,
  )
]

build-lookup :
    (k : String) (ss : List Source) (b : Build)
    → lookup k (build ss b).table ≡ add_routes (lookup k b.table) (routes k ss)
unfolding build
build-lookup k [] b = refl
build-lookup k (s ∷ ss) b =
    build-lookup k ss (add_target s b)
    ∙ rw (add_target-lookup k s b) (add_routes-append (lookup k b.table) (route k s) (routes k ss))

-- The table of a list of models that run.
pub build-routes :
    (k : String) (ss : List Source)
    → lookup k (build ss empty_build).table ≡ add_routes none (routes k ss)
unfolding lookup
build-routes k ss = build-lookup k ss empty_build

-- The target for a name of a model on a host of a machine.
abbrev pub reached_at : String → String → String → Bool → ModelConfig → List Target
reached_at k machine host warming c = elim (routable_port c) [
  | none ↦ []
  | some port ↦
      if publishes k c
      then record { machine = machine; host = host; port = port; warming = warming } ∷ []
      else []
]

-- The targets for a name among a worker's models that are active.
abbrev pub active_routes : String → String → String → List ModelItem → List Target
active_routes k machine host [] = []
active_routes k machine host (i ∷ is) =
    (if i.active then reached_at k machine host false i.model_config else [])
    ++ active_routes k machine host is

-- The targets for a name on the workers that are online, in the order of the snapshots.
abbrev pub worker_routes : (String → Option Url) → String → List WorkerSnapshot → List Target
worker_routes parse_url k [] = []
worker_routes parse_url k (s ∷ ss) =
    (if is_online s.status
      then active_routes k s.worker.name (hostname parse_url s.worker.url) (from_option [] s.models)
      else [])
    ++ worker_routes parse_url k ss

-- The target for a name on this machine: the recorded server, whatever its status.
abbrev pub local_routes : String → Option RunningServer → List Target
local_routes k none = []
local_routes k (some s) = reached_at k "local" "127.0.0.1" (is_starting s.status) s.model_config

routes-append :
    (k : String) (xs ys : List Source) → routes k (xs ++ ys) ≡ routes k xs ++ routes k ys
routes-append k [] ys = refl
routes-append k (x ∷ xs) ys = rw (routes-append k xs ys) (sym (append_assoc (route k x) _ _))

route-reached_at :
    (k : String) (s : Source) → route k s ≡ reached_at k s.machine s.host s.warming s.config
route-reached_at k s = refl

item_sources-routes :
    (k machine host : String) (is : List ModelItem)
    → routes k (item_sources machine host is) ≡ active_routes k machine host is
unfolding item_sources
item_sources-routes k machine host [] = refl
item_sources-routes k machine host (i ∷ is) = ground (arith, item_sources-routes k machine host is)

snapshot_sources-routes :
    (parse_url : String → Option Url) (k : String) (ss : List WorkerSnapshot)
    → routes k (snapshot_sources parse_url ss) ≡ worker_routes parse_url k ss
unfolding snapshot_sources
snapshot_sources-routes parse_url k [] = refl
snapshot_sources-routes parse_url k (s ∷ ss) = elim (Bool-cases (is_online s.status)) [
  | inl y ↦
      let here =
        item_sources s.worker.name (hostname parse_url s.worker.url) (from_option [] s.models) in
      rw y (
        routes-append k here (snapshot_sources parse_url ss)
        ∙ rw (
          item_sources-routes k s.worker.name (hostname parse_url s.worker.url)
              (from_option [] s.models),
          snapshot_sources-routes parse_url k ss,
        ))
  | inr n ↦ rw n (snapshot_sources-routes parse_url k ss)
]

-- A rebuilt table holds under every name exactly the targets of the routable models that run and have it
-- as name or alias: first the one of this machine's recorded server, then those of the active models
-- of the workers that are online, in the order of their snapshots; a name that none of them has is
-- not in the table.
pub sources-routes :
    (parse_url : String → Option Url) (k : String) (current : Option RunningServer)
    (snaps : List WorkerSnapshot)
    → lookup k (build (sources parse_url current snaps) empty_build).table
      ≡ add_routes none (local_routes k current ++ worker_routes parse_url k snaps)
unfolding sources local_sources
sources-routes parse_url k none snaps =
    build-routes k (snapshot_sources parse_url snaps)
    ∙ ap (add_routes none) (snapshot_sources-routes parse_url k snaps)
sources-routes parse_url k (some s) snaps =
    build-routes k (sources parse_url (some s) snaps)
    ∙ rw (snapshot_sources-routes parse_url k snaps)

-- ===== src/Proxy/Table.antt =====
-- proxy/proxy.go: rebuild, the routing table and the list of published models.
use llm_server_manager.Base.{
  String, ◌==◌, Bool, true, false, ◌&&◌, ◌||◌, not, Option, none, some, List, [], ◌∷◌, ◌++◌, ℕ, ◌/◌,
  if◌then◌else◌, lookup, insert, from_option, any,
}
use llm_server_manager.Models.{ModelConfig, ModelItem, RunningServer, ServerStatus, starting}
use llm_server_manager.Fleet.Port.{routable_port}
use llm_server_manager.Fleet.Worker.{Url, local_machine}
use llm_server_manager.Fleet.Registry.{MachineStatus, online, offline, WorkerSnapshot}

-- The base URL of a target is http://<host>:<port>.
pub record Target : Type 0 where
  pub machine : String
  pub host : String
  pub port : ℕ
  pub warming : Bool

pub record PublishedModel : Type 0 where
  pub id : String
  pub created : ℕ

pub record NameClaim : Type 0 where
  pub machine : String
  pub is_alias : Bool

-- A model that a machine runs: the arguments of addTarget. `created` counts seconds.
pub record Source : Type 0 where
  pub machine : String
  pub host : String
  pub warming : Bool
  pub config : ModelConfig
  pub created : ℕ

-- A collision that is warned about.
pub record Collision : Type 0 where
  pub name : String
  pub first : NameClaim
  pub second : NameClaim

pub record Build : Type 0 where
  pub table : List (String × List Target)
  pub entries : List PublishedModel
  pub claims : List (String × NameClaim)
  pub seen : List String
  pub warnings : List Collision

unfoldable pub publish_name : ModelConfig → String
publish_name c = if not (c.alias == "") then c.alias else c.name

-- The names that a model is routed under, and whether each is an alias.
unfoldable pub keys : ModelConfig → List (String × Bool)
keys c =
    (c.name, false)
    ∷ (if not (c.alias == "") && not (c.alias == c.name) then (c.alias, true) ∷ [] else [])

same_machine : NameClaim → String → Bool
same_machine claim machine = claim.machine == machine

-- The claim on a name, which stays with the first machine; and the warning, if there is one.
unfoldable pub claim_name : String → String × Bool → Build → Build
unfolding same_machine
claim_name machine (k, is_alias) b =
    let mine : NameClaim = record { machine = machine; is_alias = is_alias } in
    elim (lookup k b.claims) [
      | none ↦ record b { claims = insert k mine b.claims }
      | some claim ↦
          if (claim.is_alias || is_alias) && not (same_machine claim machine)
          then record b {
            warnings = b.warnings ++ record { name = k; first = claim; second = mine } ∷ [];
          }
          else b
    ]

-- table[k] = append(table[k], t).
unfoldable pub append_target : String → Target → Build → Build
append_target k t b = record b {
  table = insert k (from_option [] (lookup k b.table) ++ t ∷ []) b.table;
}

unfoldable pub add_keys : Target → List (String × Bool) → Build → Build
add_keys t [] b = b
add_keys t ((k, is_alias) ∷ ks) b =
    add_keys t ks (append_target k t (claim_name t.machine (k, is_alias) b))

-- The entry of the model list, once for each name.
unfoldable pub publish : ModelConfig → ℕ → Build → Build
publish c created b =
    let id = publish_name c in
    if not (id == "") && not (any (λ s. s == id) b.seen)
    then record b {
      seen = b.seen ++ id ∷ [];
      entries = b.entries ++ record { id = id; created = created } ∷ [];
    }
    else b

abbrev pub target_of : Source → ℕ → Target
target_of s port = record { machine = s.machine; host = s.host; port = port; warming = s.warming }

-- addTarget.
unfoldable pub add_target : Source → Build → Build
unfolding add_keys publish
add_target s b = elim (routable_port s.config) [
  | none ↦ b
  | some port ↦ publish s.config s.created (add_keys (target_of s port) (keys s.config) b)
]

abbrev pub empty_build : Build
empty_build = record { table = []; entries = []; claims = []; seen = []; warnings = [] }

unfoldable pub build : List Source → Build → Build
build [] b = b
build (s ∷ ss) b = build ss (add_target s b)

-- hostname: the host that a worker's llama ports live on.
unfoldable pub hostname : (String → Option Url) → String → String
hostname parse_url url = elim (parse_url url) [
  | none ↦ "127.0.0.1"
  | some u ↦ if u.hostname == "" then "127.0.0.1" else u.hostname
]

abbrev pub is_starting : ServerStatus → Bool
is_starting starting = true
is_starting _ = false

unfoldable pub local_sources : Option RunningServer → List Source
local_sources none = []
local_sources (some s) =
    record {
      machine = local_machine;
      host = "127.0.0.1";
      warming = is_starting s.status;
      config = s.model_config;
      created = s.start_time / 1000000000;
    }
    ∷ []

unfoldable pub item_sources : String → String → List ModelItem → List Source
item_sources machine host [] = []
item_sources machine host (item ∷ items) =
    let rest = item_sources machine host items in
    if item.active
    then record {
      machine = machine;
      host = host;
      warming = false;
      config = item.model_config;
      created = 0;
    }
      ∷ rest
    else rest

abbrev pub is_online : MachineStatus → Bool
is_online online = true
is_online offline = false

unfoldable pub snapshot_sources : (String → Option Url) → List WorkerSnapshot → List Source
unfolding item_sources hostname
snapshot_sources parse_url [] = []
snapshot_sources parse_url (s ∷ ss) =
    let rest = snapshot_sources parse_url ss in
    if is_online s.status
    then item_sources s.worker.name (hostname parse_url s.worker.url) (from_option [] s.models)
      ++ rest
    else rest

-- The running models in the order that rebuild visits them: the local machine's, then the workers' in
-- config order.
unfoldable pub sources :
    (String → Option Url) → Option RunningServer → List WorkerSnapshot → List Source
unfolding local_sources snapshot_sources
sources parse_url current snaps = local_sources current ++ snapshot_sources parse_url snaps

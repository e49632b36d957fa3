-- ===== src/Fleet/Registry.antt =====
-- fleet/fleet.go: the registry of workers, its reload, the lookup of a worker and the cache of probes.
use llm_server_manager.Base.{
  String, ◌==◌, Bool, true, false, ◌&&◌, ◌||◌, not, Option, none, some, List, [], ◌∷◌, ℕ, ◌-◌, ltb,
  if◌then◌else◌, find_first, lookup, insert, inl, inr,
}
use llm_server_manager.Models.{ModelItem}
use llm_server_manager.Config.{WorkerConfig}
use llm_server_manager.Fleet.Worker.{
  Url, Worker, local_machine, new_worker, CallError, Reply, list_models,
}

pub data MachineStatus : Type 0 where
  online offline : MachineStatus

pub record WorkerSnapshot : Type 0 where
  pub worker : Worker
  pub status : MachineStatus
  pub models : Option (List ModelItem)
  pub error : Option CallError

pub record CacheEntry : Type 0 where
  pub snapshot : WorkerSnapshot
  pub at : ℕ

-- Times are nanoseconds; the cache is keyed by the worker's URL.
pub record Registry : Type 0 where
  pub workers : List Worker
  pub cache : List (String × CacheEntry)
  pub cache_ttl : ℕ

-- DefaultCacheTTL, two seconds.
abbrev pub default_cache_ttl : ℕ
default_cache_ttl = 2000000000

-- load: entries that make no worker, or one with the reserved name, are skipped with a warning. A
-- repeated name only causes a warning.
unfoldable pub load : (String → Option Url) → List WorkerConfig → List Worker
load parse_url [] = []
load parse_url (spec ∷ specs) = elim (new_worker parse_url spec) [
  | inl e ↦ load parse_url specs
  | inr w ↦ if w.name == local_machine then load parse_url specs else w ∷ load parse_url specs
]

unfoldable pub new_registry : (String → Option Url) → List WorkerConfig → Registry
unfolding load
new_registry parse_url specs = record {
  workers = load parse_url specs;
  cache = [];
  cache_ttl = default_cache_ttl;
}

unfoldable pub reload : (String → Option Url) → List WorkerConfig → Registry → Registry
unfolding load
reload parse_url specs r = record r { workers = load parse_url specs; cache = [] }

abbrev pub has_host : (String → Option Url) → String → Worker → Bool
has_host parse_url host w = elim (parse_url w.url) [
  | none ↦ false
  | some u ↦ u.hostname == host || u.host == host
]

-- Resolve: by name first, then by the URL's host, the first worker each time.
unfoldable pub resolve : (String → Option Url) → String → Registry → Option Worker
resolve parse_url name r = elim (find_first (λ w. w.name == name) r.workers) [
  | some w ↦ some w
  | none ↦ find_first (has_host parse_url name) r.workers
]

-- probe, from the reply to ListModels and from whether the caller's context has ended. The second
-- part says whether the snapshot may be cached.
unfoldable pub probe : Worker → Reply (List ModelItem) → Bool → WorkerSnapshot × Bool
probe w reply context_done = elim (list_models reply) [
  | inl e ↦
      (record { worker = w; status = offline; models = none; error = some e }, not context_done)
  | inr items ↦ (record { worker = w; status = online; models = some items; error = none }, true)
]

-- A cached snapshot that is younger than the TTL.
unfoldable pub cached : Registry → Worker → ℕ → Option WorkerSnapshot
cached r w now = elim (lookup w.url r.cache) [
  | none ↦ none
  | some e ↦ if ltb (now - e.at) r.cache_ttl then some e.snapshot else none
]

-- Snapshot looks into the cache at `now`; what a probe brings is stored at `later`. No other call
-- changes the registry in between.
unfoldable pub store : Registry → Worker → ℕ → WorkerSnapshot × Bool → Registry
store r w later (snap, cacheable) =
    if cacheable && ltb 0 r.cache_ttl
    then record r { cache = insert w.url (record { snapshot = snap; at = later }) r.cache }
    else r

unfoldable pub snapshot :
    Registry → Worker → ℕ → Reply (List ModelItem) → Bool → ℕ → Registry × WorkerSnapshot
unfolding store cached probe
snapshot r w now reply context_done later = elim (cached r w now) [
  | some snap ↦ (r, snap)
  | none ↦ (store r w later (probe w reply context_done), (probe w reply context_done).0)
]

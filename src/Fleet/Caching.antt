-- ===== src/Fleet/Caching.antt =====
-- fleet/fleet.go: what the cache of probes promises, and what the views show of a snapshot.
use llm_server_manager.Base.{
  ◌≡◌, inl, Bool, true, none, List, eq_refl, ℕ, ◌-◌, ◌<◌, ◌≤◌, lookup-insert, arith,
}
use llm_server_manager.Models.{ModelItem}
use llm_server_manager.Fleet.Worker.{Worker, CallError, Reply, list_models}
use llm_server_manager.Fleet.Registry.{Registry, probe, cached, snapshot}

-- A probe's failure while the caller's own context has ended is not kept: the registry is as before,
-- so the next caller probes again.
pub snapshot_not_cached :
    (r : Registry) (w : Worker) (now later : ℕ) (reply : Reply (List ModelItem)) (e : CallError)
    → list_models reply ≡ inl e
    → (snapshot r w now reply true later).0 ≡ r
unfolding snapshot
snapshot_not_cached r w now later reply e q = ground arith

-- The snapshot of a probe that may be cached is given out again, whatever the worker would answer,
-- until the TTL has passed; the workers stay as they are.
pub snapshot_reused :
    (r : Registry) (w : Worker) (now later then' : ℕ) (reply reply' : Reply (List ModelItem))
    (ended ended' : Bool) (later' : ℕ)
    → cached r w now ≡ none
    → (probe w reply ended).1 ≡ true
    → later ≤ then'
    → then' - later < r.cache_ttl
    → let first = snapshot r w now reply ended later in
      snapshot first.0 w then' reply' ended' later' ≡ (first.0, first.1)
unfolding snapshot cached
snapshot_reused r w now later then' reply reply' ended ended' later' c k le young = ground (
  arith,
  lookup-insert w.url w.url (record { snapshot = (probe w reply ended).0; at = later }) r.cache,
  eq_refl w.url,
)

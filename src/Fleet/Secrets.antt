-- ===== src/Fleet/Secrets.antt =====
-- fleet/fleet.go: what the views tell of a worker's key.
use llm_server_manager.Base.{◌≡◌, refl, ap, String, ◌==◌, Bool, not}
use llm_server_manager.Fleet.Registry.{WorkerSnapshot}
use llm_server_manager.Fleet.Views.{status_view, fleet_machine}

-- The same snapshot of a worker that has another key.
abbrev pub with_key : String → WorkerSnapshot → WorkerSnapshot
with_key key s = record s { worker = record s.worker { api_key = key } }

-- The view of the whole fleet does not depend on a worker's key, and the list of workers depends only
-- on whether there is one.
pub status_view-with_key :
    (s : WorkerSnapshot) (key : String)
    → (fleet_machine (with_key key s) ≡ fleet_machine s)
      × ((key == "") ≡ (s.worker.api_key == "") → status_view (with_key key s) ≡ status_view s)
unfolding status_view fleet_machine
status_view-with_key s key =
    (refl, λ e. ap (λ (b : Bool). record (status_view s) { api_key_set = not b }) e)

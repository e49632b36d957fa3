-- ===== src/Handlers/FleetNames.antt =====
-- handlers/handlers.go: which machines the fleet view names.
use llm_server_manager.Base.{◌≡◌, refl, ap, ◌∙◌, String, Option, some, List, [], ◌∷◌, ℕ, map, All}
use llm_server_manager.Manager.State.{Manager}
use llm_server_manager.Fleet.Worker.{Url, Worker, local_machine}
use llm_server_manager.Fleet.Registry.{Registry, WorkerSnapshot}
use llm_server_manager.Fleet.Views.{
  FleetMachine, WorkerStatus, fleet_machine, status_view, worker_statuses,
}
use llm_server_manager.Fleet.Gather.{Event, gather, begin_snapshots, results}
use llm_server_manager.Fleet.Gathered.{Filed, Asks}
use llm_server_manager.Fleet.InOrder.{gathered_in_order}
use llm_server_manager.Handlers.Items.{local_fleet_machine}
use llm_server_manager.Handlers.FleetView.{get_fleet, list_workers}

machine_names :
    (snaps : List WorkerSnapshot)
    → map (λ (m : FleetMachine). m.machine) (map fleet_machine snaps)
      ≡ map (λ (w : Worker). w.name) (map (λ (s : WorkerSnapshot). s.worker) snaps)
unfolding fleet_machine
machine_names [] = refl
machine_names (s ∷ ss) = ap (λ ns. s.worker.name ∷ ns) (machine_names ss)

status_names :
    (snaps : List WorkerSnapshot)
    → map (λ (s : WorkerStatus). s.name) (list_workers snaps)
      ≡ map (λ (w : Worker). w.name) (map (λ (s : WorkerSnapshot). s.worker) snaps)
unfolding list_workers worker_statuses status_view
status_names [] = refl
status_names (s ∷ ss) = ap (λ ns. s.worker.name ∷ ns) (status_names ss)

local_name :
    (processes : List ℕ) (m : Manager) → (local_fleet_machine processes m).1.machine ≡ local_machine
unfolding local_fleet_machine
local_name processes m = refl

-- Where no two workers have the same URL, however the probes run: the fleet view names the local machine
-- and then the registry's workers in config order, and the list of workers names the same workers.
pub fleet_names :
    (Known : Worker → Type 0)
    → ((v w : Worker) → Known v → Known w → v.url ≡ w.url → v ≡ w)
    → (parse_url : String → Option Url) (r : Registry) (es : List Event)
      (snaps : List WorkerSnapshot) (processes : List ℕ) (m : Manager)
    → All Known r.workers
    → Filed Known r.cache
    → All (Asks Known) es
    → results (gather parse_url (begin_snapshots r) es).slots ≡ some snaps
    → let names = map (λ (w : Worker). w.name) r.workers in
      (map (λ (m : FleetMachine). m.machine) (get_fleet processes m snaps).1
        ≡ local_machine ∷ names)
      × (map (λ (s : WorkerStatus). s.name) (list_workers snaps) ≡ names)
unfolding get_fleet
fleet_names Known same_url parse_url r es snaps processes m known filed asks e =
    let order = gathered_in_order Known same_url parse_url r es snaps known filed asks e in
    let names = ap (map (λ (w : Worker). w.name)) order in
    (ap (λ ns. local_machine ∷ ns) (machine_names snaps ∙ names), status_names snaps ∙ names)

-- ===== src/Handlers/FleetView.antt =====
-- handlers/handlers.go: ListWorkers, GetFleet, WorkerSystem and GetProxyStatus.
use llm_server_manager.Base.{
  Bool, false, String, Option, none, some, List, ◌∷◌, inl, inr, ℕ, map, from_option,
}
use llm_server_manager.Manager.State.{Manager}
use llm_server_manager.Fleet.Worker.{
  Url, Worker, Message, worker_error, Reply, SystemReply, SystemError, call_failed, system,
}
use llm_server_manager.Fleet.Registry.{Registry, resolve, WorkerSnapshot}
use llm_server_manager.Fleet.Views.{FleetMachine, WorkerStatus, fleet_machine, worker_statuses}
use llm_server_manager.Handlers.Items.{local_fleet_machine}

-- ListWorkers, with what Snapshots returned.
unfoldable pub list_workers : List WorkerSnapshot → List WorkerStatus
unfolding worker_statuses
list_workers snaps = worker_statuses snaps

-- GetFleet: the coordinator's own machine first.
unfoldable pub get_fleet : List ℕ → Manager → List WorkerSnapshot → Manager × List FleetMachine
unfolding local_fleet_machine fleet_machine
get_fleet processes m snaps =
    let (m', here) = local_fleet_machine processes m in (m', here ∷ map fleet_machine snaps)

-- What WorkerSystem answers: a failure without a status of the worker's is 502.
pub data SystemAnswer (A : Type 0) : Type 0 where
  unknown_worker : SystemAnswer A
  answered : ℕ → Message → SystemAnswer A
  unreachable : SystemError → SystemAnswer A
  telemetry : A → SystemAnswer A

module _ {A : Type 0} where
  abbrev system_error : SystemError → SystemAnswer A
  system_error (call_failed (worker_error status message)) = answered status message
  system_error e = unreachable e

  -- WorkerSystem.
  unfoldable pub worker_system :
      (String → Option Url) → String → Registry → (Worker → Reply (SystemReply A)) → SystemAnswer A
  unfolding system
  worker_system parse_url name r ask = elim (resolve parse_url name r) [
    | none ↦ unknown_worker
    | some w ↦ elim (system (ask w)) [ inl e ↦ system_error e | inr a ↦ telemetry a ]
  ]

-- GetProxyStatus, with the function that SetProxyStatus was given, if there is one.
unfoldable pub get_proxy_status : Option Bool → Bool
get_proxy_status status = from_option false status

-- ===== src/Fleet/Views.antt =====
-- fleet/fleet.go: the views that the API derives from a snapshot, and the messages for failures.
use llm_server_manager.Base.{
  String, ◌==◌, Bool, not, Option, none, some, List, [], ℕ, eqb, if◌then◌else◌, length, map,
}
use llm_server_manager.Models.{ModelItem}
use llm_server_manager.Fleet.Worker.{
  CallError, worker_error, deadline_exceeded, connection_refused, unreachable, dns_failure,
  other_failure, malformed, Message, own, unexpected, RunningModel, running_from_items,
}
use llm_server_manager.Fleet.Registry.{MachineStatus, WorkerSnapshot}

-- The plain-language messages of describeWorkerError.
pub data Description : Type 0 where
  unauthorized timed_out not_running network_unreachable unresolved_host unreachable_host :
      Description
  reported : Message → Description
  http_error : ℕ → Description

unfoldable pub describe_worker_error : CallError → Description
describe_worker_error (worker_error status (own m)) =
    if eqb status 401 then unauthorized else if m == "" then http_error status else reported (own m)
describe_worker_error (worker_error status (unexpected n)) =
    if eqb status 401 then unauthorized else reported (unexpected n)
describe_worker_error deadline_exceeded = timed_out
describe_worker_error connection_refused = not_running
describe_worker_error unreachable = network_unreachable
describe_worker_error dns_failure = unresolved_host
describe_worker_error other_failure = unreachable_host
describe_worker_error malformed = unreachable_host

pub record WorkerStatus : Type 0 where
  pub name : String
  pub url : String
  pub api_key_set : Bool
  pub status : MachineStatus
  pub running_model : String
  pub model_count : ℕ
  pub error : Option CallError

pub record FleetMachine : Type 0 where
  pub machine : String
  pub url : String
  pub status : MachineStatus
  pub running : Option RunningModel
  pub models : List ModelItem
  pub error : Option CallError

abbrev running_name : Option RunningModel → String
running_name none = ""
running_name (some m) = m.name

-- StatusView.
unfoldable pub status_view : WorkerSnapshot → WorkerStatus
status_view s = record {
  name = s.worker.name;
  url = s.worker.url;
  api_key_set = not (s.worker.api_key == "");
  status = s.status;
  running_model = elim s.models [
    | none ↦ ""
    | some items ↦ running_name (running_from_items items)
  ];
  model_count = elim s.models [ none ↦ 0 | some items ↦ length items ];
  error = s.error;
}

-- WorkerSnapshot.FleetMachine.
unfoldable pub fleet_machine : WorkerSnapshot → FleetMachine
fleet_machine s = record {
  machine = s.worker.name;
  url = s.worker.url;
  status = s.status;
  running = elim s.models [ none ↦ none | some items ↦ running_from_items items ];
  models = elim s.models [ none ↦ [] | some items ↦ items ];
  error = s.error;
}

unfoldable pub worker_statuses : List WorkerSnapshot → List WorkerStatus
unfolding status_view
worker_statuses snaps = map status_view snaps

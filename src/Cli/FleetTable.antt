-- ===== src/Cli/FleetTable.antt =====
-- tools/cli/commands/fleet.go, with fleet/fleet.go: what the fleet command shows of a worker.
use llm_server_manager.Base.{
  ◌≡◌, refl, ap, ◌∙◌, String, Bool, Option, none, some, List, [], ◌∷◌, length, from_option,
  find_first, arith, Bool-cases, inl, inr,
}
use llm_server_manager.Models.{ModelItem, running}
use llm_server_manager.Fleet.Port.{routable_port}
use llm_server_manager.Fleet.Worker.{Worker, RunningModel, running_from_items, CallError}
use llm_server_manager.Fleet.Registry.{MachineStatus, online, offline, WorkerSnapshot}
use llm_server_manager.Fleet.Views.{FleetMachine, fleet_machine}
use llm_server_manager.Proxy.Table.{publish_name}
use llm_server_manager.Cli.Tables.{RunningInfo, Machine, fleet_row, shown_name, shown_port}

abbrev status_text : MachineStatus → String
status_text online = "online"
status_text offline = "offline"

abbrev running_info : Option RunningModel → Option RunningInfo
running_info none = none
running_info (some m) = some (record { name = m.name; alias = m.alias; port = m.port })

abbrev error_text : (CallError → String) → Option CallError → String
error_text describe none = ""
error_text describe (some e) = describe e

-- A machine of the fleet view as the client decodes it; `describe` is the text of an error.
unfoldable pub received : (CallError → String) → FleetMachine → Machine
received describe m = record {
  machine = m.machine;
  status = status_text m.status;
  running = running_info m.running;
  models = length m.models;
  error = error_text describe m.error;
}

abbrev pub is_active : ModelItem → Bool
is_active item = item.active

-- The snapshot of a worker that answered.
abbrev pub online_snapshot : Worker → List ModelItem → WorkerSnapshot
online_snapshot w items = record { worker = w; status = online; models = some items; error = none }

abbrev model_of : ModelItem → RunningModel
model_of item = record {
  name = item.model_config.name;
  alias = item.model_config.alias;
  status = running;
  start_time = none;
  port = from_option 0 (routable_port item.model_config);
}

running-first :
    (items : List ModelItem) (item : ModelItem)
    → find_first is_active items ≡ some item
    → running_from_items items ≡ some (model_of item)
unfolding running_from_items
running-first [] item e = cc
running-first (x ∷ xs) item e = elim (Bool-cases x.active) [
  | inl on ↦ let same : x ≡ item = ground (arith, on) in ground (arith, on, same)
  | inr off ↦ ground (arith, off, running-first xs item)
]

running-none :
    (items : List ModelItem) → find_first is_active items ≡ none → running_from_items items ≡ none
unfolding running_from_items
running-none [] e = refl
running-none (x ∷ xs) e = ground (arith, running-none xs)

-- Of a worker that answered with a list of models, the fleet command shows the first active one under
-- the name that GET /v1/models publishes for it, with the port that requests are routed to; it shows a
-- dash and no port where none is active, and in either case the number of the models and no error.
pub fleet_row-publish_name :
    (describe : CallError → String) (w : Worker) (items : List ModelItem)
    → let row = fleet_row (received describe (fleet_machine (online_snapshot w items))) in
      (row.machine ≡ w.name)
      × (row.status ≡ "online")
      × (row.reason ≡ none)
      × (row.models ≡ length items)
      × ((item : ModelItem)
          → find_first is_active items ≡ some item
          → (row.running ≡ publish_name item.model_config)
            × (row.port ≡ some (from_option 0 (routable_port item.model_config))))
      × (find_first is_active items ≡ none → (row.running ≡ "-") × (row.port ≡ none))
unfolding fleet_row received fleet_machine publish_name
fleet_row-publish_name describe w items = (
  refl,
  refl,
  refl,
  refl,
  λ item e.
      let found = running-first items item e in
      let c = item.model_config in
      (
        ap (λ o. shown_name (running_info o)) found ∙ ground arith,
        ap (λ o. shown_port (running_info o)) found,
      ),
  λ e.
      let idle = running-none items e in
      (ap (λ o. shown_name (running_info o)) idle, ap (λ o. shown_port (running_info o)) idle),
)

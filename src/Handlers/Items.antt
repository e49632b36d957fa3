-- ===== src/Handlers/Items.antt =====
-- handlers/handlers.go: localModelItems, localFleetMachine, and the endpoints that ask a worker. The
-- order of names is Go's order on texts, which is the order of their code points.
use llm_server_manager.Base.{
  String, ◌==◌, Bool, true, false, ◌&&◌, Option, none, some, List, [], ◌∷◌, inl, inr, ℕ, eqb, ltb,
  if◌then◌else◌, codes, pos, float_of, from_option,
}
use llm_server_manager.Models.{ModelConfig, ModelItem, RunningServer, has_launch_cmd}
use llm_server_manager.Manager.State.{Manager, get_current_server, is_running}
use llm_server_manager.Fleet.Port.{routable_port}
use llm_server_manager.Fleet.Worker.{
  Url, Worker, local_machine, CallError, worker_error, Message, Reply, list_models, control,
  RunningModel,
}
use llm_server_manager.Fleet.Registry.{Registry, resolve, online}
use llm_server_manager.Fleet.Views.{FleetMachine}

-- What the list shows of a model with a launch command.
unfoldable pub hide_unused : ModelConfig → ModelConfig
hide_unused c =
    if has_launch_cmd c
    then record c {
      model_path = "use launch cmd";
      temperature = float_of 0;
      threads = pos 0;
      context_size = none;
      top_k = none;
      top_p = none;
      port = none;
      mmproj = none;
      chat_template_kwargs = none;
      ngl = none;
      mmap = none;
      spec_draft_n_max = none;
    }
    else c

-- Whether the current server runs a model of this name.
abbrev pub is_active : Option RunningServer → String → Bool
is_active none name = false
is_active (some s) name = s.model_config.name == name && is_running s.status

unfoldable pub item_of : Option RunningServer → ModelConfig → ModelItem
unfolding hide_unused
item_of current c = record { model_config = hide_unused c; active = is_active current c.name }

-- x < y on texts.
abbrev pub codes_before : List ℕ → List ℕ → Bool
codes_before [] [] = false
codes_before [] (d ∷ t) = true
codes_before (c ∷ s) [] = false
codes_before (c ∷ s) (d ∷ t) = if eqb c d then codes_before s t else ltb c d

abbrev pub name_before : ModelItem → ModelItem → Bool
name_before x y = codes_before (codes x.model_config.name) (codes y.model_config.name)

unfoldable pub insert_item : ModelItem → List ModelItem → List ModelItem
insert_item x [] = x ∷ []
insert_item x (y ∷ ys) = if name_before y x then y ∷ insert_item x ys else x ∷ y ∷ ys

-- sort.Slice by name.
unfoldable pub sort_items : List ModelItem → List ModelItem
unfolding insert_item
sort_items [] = []
sort_items (x ∷ xs) = insert_item x (sort_items xs)

unfoldable pub items_of : Option RunningServer → List (String × ModelConfig) → List ModelItem
unfolding item_of
items_of current [] = []
items_of current ((name, c) ∷ cs) = item_of current c ∷ items_of current cs

-- localModelItems; GetCurrentServer may drop a server whose process is gone.
unfoldable pub local_model_items : List ℕ → Manager → Manager × List ModelItem
unfolding sort_items items_of
local_model_items processes m =
    let (m', current) = get_current_server processes m in
    (m', sort_items (items_of current m.configs))

abbrev running_model : RunningServer → RunningModel
running_model s = record {
  name = s.model_config.name;
  alias = s.model_config.alias;
  status = s.status;
  start_time = some s.start_time;
  port = from_option 0 (routable_port s.model_config);
}

-- localFleetMachine.
unfoldable pub local_fleet_machine : List ℕ → Manager → Manager × FleetMachine
unfolding local_model_items
local_fleet_machine processes m =
    let (m1, items) = local_model_items processes m in
    let (m2, current) = get_current_server processes m1 in
    (
      m2,
      record {
        machine = local_machine;
        url = "";
        status = online;
        running = elim current [ none ↦ none | some s ↦ some (running_model s) ];
        models = items;
        error = none;
      },
    )

-- What a worker endpoint answers: 404 where no worker is found, the worker's own status and message,
-- or 502 for a failure of the transport.
pub data WorkerAnswer (A : Type 0) : Type 0 where
  no_such_worker : WorkerAnswer A
  passed_on : ℕ → Message → WorkerAnswer A
  bad_gateway : CallError → WorkerAnswer A
  success : A → WorkerAnswer A

module _ {A : Type 0} where
  -- workerError.
  abbrev pub answer_error : CallError → WorkerAnswer A
  answer_error (worker_error status message) = passed_on status message
  answer_error e = bad_gateway e

-- WorkerListModels.
unfoldable pub worker_list_models :
    (String → Option Url)
    → String
    → Registry
    → (Worker → Reply (List ModelItem))
    → WorkerAnswer (List ModelItem)
worker_list_models parse_url name r ask = elim (resolve parse_url name r) [
  | none ↦ no_such_worker
  | some w ↦ elim (list_models (ask w)) [ inl e ↦ answer_error e | inr items ↦ success items ]
]

-- WorkerStartModel and WorkerStopModel: the worker's name stands in the message.
unfoldable pub worker_control :
    (String → Option Url) → String → Registry → (Worker → Reply String) → WorkerAnswer String
worker_control parse_url name r ask = elim (resolve parse_url name r) [
  | none ↦ no_such_worker
  | some w ↦ elim (control (ask w)) [ some e ↦ answer_error e | none ↦ success w.name ]
]

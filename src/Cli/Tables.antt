-- ===== src/Cli/Tables.antt =====
-- tools/cli/commands/list.go and fleet.go: what the list and the fleet command read from an answer and print. How a
-- cell is padded is left to text/tabwriter.
use llm_server_manager.Base.{
  String, ◌==◌, Bool, false, ◌&&◌, not, Option, none, some, List, [], ◌∷◌, ℕ, ℤ, Float64,
  if◌then◌else◌, lookup, map,
}

-- A decoded value, as far as the list command looks into it.
pub data Field : Type 0 where
  null other : Field
  bool : Bool → Field
  number : Float64 → Field
  text : String → Field

pub data Element : Type 0 where
  object : List (String × Field) → Element
  not_object : Element

-- The entry "models" of the answer's data.
pub data Models : Type 0 where
  array : List Element → Models
  not_array : Models

-- A reply to the list command: none, one that does not decode, or the data in its envelope.
pub data ListReply : Type 0 where
  unreachable garbled no_data : ListReply
  data_models : Models → ListReply

-- A line of the table; `none` stands for N/A, and the name and the path are printed as they are.
pub record ListRow : Type 0 where
  pub name : Option Field
  pub model_path : Option Field
  pub context_size : Option ℤ
  pub temperature : Option Float64
  pub threads : Option ℤ
  pub active : Bool

-- What the command comes to; `panicked` is a failed conversion of an element.
pub data Listed : Type 0 where
  request_failed cannot_decode invalid_response invalid_models panicked : Listed
  table : List ListRow → Listed
  names : List (Option Field) → Listed

abbrev pub as_number : Option Field → Option Float64
as_number (some (number v)) = some v
as_number _ = none

abbrev pub as_true : Option Field → Bool
as_true (some (bool b)) = b
as_true _ = false

module _ (truncate : Float64 → ℤ) where
  abbrev pub as_int : Option Field → Option ℤ
  as_int (some (number v)) = some (truncate v)
  as_int _ = none

  -- A row, from what the model's object has for each key.
  unfoldable pub row_from : (String → Option Field) → ListRow
  row_from model = record {
    name = model "name";
    model_path = model "model_path";
    context_size = as_int (model "context_size");
    temperature = as_number (model "temperature");
    threads = as_int (model "threads");
    active = as_true (model "active");
  }

  unfoldable pub list_row : List (String × Field) → ListRow
  unfolding row_from
  list_row model = row_from (λ key. lookup key model)

  -- The loop over the models.
  unfoldable pub list_rows : List Element → Option (List ListRow)
  unfolding list_row
  list_rows [] = some []
  list_rows (not_object ∷ es) = none
  list_rows (object model ∷ es) =
      let rest = list_rows es in
      elim rest [ none ↦ none | some rows ↦ some (list_row model ∷ rows) ]

  abbrev pub names_of : List ListRow → List (Option Field)
  names_of rows = map (λ (r : ListRow). r.name) rows

  abbrev pub print_rows : Bool → Option (List ListRow) → Listed
  print_rows short none = panicked
  print_rows short (some rows) = if short then names (names_of rows) else table rows

  -- The run of the list command, without --json.
  unfoldable pub run_list : Bool → ListReply → Listed
  unfolding list_rows
  run_list short unreachable = request_failed
  run_list short garbled = cannot_decode
  run_list short no_data = invalid_response
  run_list short (data_models not_array) = invalid_models
  run_list short (data_models (array es)) = print_rows short (list_rows es)

-- The running model and a machine, as llmcontrol declares them.
pub record RunningInfo : Type 0 where
  pub name : String
  pub alias : String
  pub port : ℕ

pub record Machine : Type 0 where
  pub machine : String
  pub status : String
  pub running : Option RunningInfo
  pub models : ℕ
  pub error : String

-- A line of the fleet table. `reason` is the error that is printed behind the status.
pub record FleetRow : Type 0 where
  pub machine : String
  pub status : String
  pub reason : Option String
  pub running : String
  pub port : Option ℕ
  pub models : ℕ

abbrev pub shown_name : Option RunningInfo → String
shown_name none = "-"
shown_name (some r) = if r.alias == "" then r.name else r.alias

abbrev pub shown_port : Option RunningInfo → Option ℕ
shown_port none = none
shown_port (some r) = some r.port

unfoldable pub fleet_row : Machine → FleetRow
fleet_row m = record {
  machine = m.machine;
  status = m.status;
  reason = if not (m.status == "online") && not (m.error == "") then some m.error else none;
  running = shown_name m.running;
  port = shown_port m.running;
  models = m.models;
}

-- A reply to the fleet command: `success` of the envelope, and the machines in its data, of which there are
-- none where it has no data.
pub data FleetReply : Type 0 where
  fleet_unreachable fleet_garbled : FleetReply
  machines : Bool → List Machine → FleetReply

pub data FleetShown : Type 0 where
  fleet_request_failed fleet_cannot_decode : FleetShown
  fleet_table : List FleetRow → FleetShown

-- The run of the fleet command, without --json. It does not look at `success`.
unfoldable pub run_fleet : FleetReply → FleetShown
unfolding fleet_row
run_fleet fleet_unreachable = fleet_request_failed
run_fleet fleet_garbled = fleet_cannot_decode
run_fleet (machines success ms) = fleet_table (map fleet_row ms)

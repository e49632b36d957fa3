-- ===== src/Models.antt =====
-- models/models.go: the configuration of a model, the state of the running server and the items of
-- the model list. JSON tags are not modelled; a pointer field is an `Option`.
use llm_server_manager.Base.{ℕ, String, Bool, false, not, Option, none, some, ◌==◌, ℤ, Float64}

pub record ModelConfig : Type 0 where
  pub name : String
  pub alias : String
  pub model_path : String
  pub context_size : Option ℤ
  pub temperature : Float64
  pub top_k : Option ℤ
  pub top_p : Option Float64
  pub presence_penalty : Option Float64
  pub repetition_penalty : Option Float64
  pub threads : ℤ
  pub port : Option ℤ
  pub mmproj : Option String
  pub chat_template_kwargs : Option String
  pub ngl : Option ℤ
  pub mmap : Option Bool
  pub spec_draft_n_max : Option ℤ
  pub launch_cmd : Option String

pub data ServerStatus : Type 0 where
  starting running stopping : ServerStatus

-- A PID is a number: 0 until a process is registered. Times are nanoseconds.
pub record RunningServer : Type 0 where
  pub model_config : ModelConfig
  pub pid : ℕ
  pub status : ServerStatus
  pub start_time : ℕ
  pub crash_count : ℕ

pub record ModelItem : Type 0 where
  pub model_config : ModelConfig
  pub active : Bool

-- `launch_cmd` is set: config.LaunchCmd != nil && *config.LaunchCmd != "".

abbrev pub is_set : Option String → Bool
is_set none = false
is_set (some s) = not (s == "")

abbrev pub has_launch_cmd : ModelConfig → Bool
has_launch_cmd c = is_set c.launch_cmd

-- ===== src/Tests/Samples.antt =====
-- Models, processes and workers that the tests share.
use llm_server_manager.Base.{
  String, ◌||◌, Bool, false, Option, none, some, List, [], ◌∷◌, pos, float_of, ◌==◌, if◌then◌else◌,
}
use llm_server_manager.Models.{ModelConfig}
use llm_server_manager.Config.{WorkerConfig}
use llm_server_manager.Fleet.Worker.{Url}

abbrev pub plain : String → String → ModelConfig
plain name alias = record {
  name = name;
  alias = alias;
  model_path = "/models/a.gguf";
  context_size = none;
  temperature = float_of 1;
  top_k = none;
  top_p = none;
  presence_penalty = none;
  repetition_penalty = none;
  threads = pos 8;
  port = none;
  mmproj = none;
  chat_template_kwargs = none;
  ngl = none;
  mmap = none;
  spec_draft_n_max = none;
  launch_cmd = none;
}

abbrev pub llama : ModelConfig
llama = plain "llama" "gpt"

abbrev pub qwen : ModelConfig
qwen = plain "qwen" ""

abbrev pub custom : ModelConfig
custom = record qwen { name = "custom"; launch_cmd = some "run --ports --port=9000 x" }

abbrev pub two_models : List (String × ModelConfig)
two_models = ("llama", llama) ∷ ("qwen", qwen) ∷ []

abbrev pub all_there : String → Bool
all_there path = false

abbrev pub gpu_spec : WorkerConfig
gpu_spec = record { url = " http://gpu1:8080/ "; name = ""; api_key = "" }

-- A parser that knows one URL.
abbrev pub parse_url : String → Option Url
parse_url s =
    if s == "http://gpu1:8080/" || s == "http://gpu1:8080"
    then some (record { scheme = "http"; host = "gpu1:8080"; hostname = "gpu1"; text = s })
    else none
